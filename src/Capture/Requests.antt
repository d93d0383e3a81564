-- ===== src/Capture/Requests.antt =====
-- src/isz_client_dispatch.c: CAPTURE_START and CAPTURE_STOP, and the descriptors of their messages.
use mathlib.Core.List.{map-append}
use mathlib.Core.Option.{some_inj}
use ishizue.Base.{
  ℕ, zero, suc, ◌≡◌, ◌≢◌, ◌⊎◌, inl, inr, refl, sym, ap, subst, ◌∙◌, Option, none, some, List, [],
  ◌∷◌, ◌++◌, map, ◌==◌, if_cases, set, get_elem?,
}
use ishizue.Status.{Status, status_ok, invalid_arg, invalid_dmabuf}
use ishizue.Conn.{Conn}
use ishizue.Dispatch.{Host}
use ishizue.Dispatch.Parse.{AttachRequest, parse_id, parse_attach}
use ishizue.Dispatch.Handlers.{resolve_output, fd_at}
use ishizue.Capture.{
  Capture, Captures, capture_find, Started, capture_start, capture_stop, CaptureDone,
  set_owning_conn, set_owner_at, tag, with_conn,
}
use ishizue.Capture.Laws.{IsValid, Starts, capture_start-Starts}

-- The error for the client, the state, the descriptors that were closed, and those of the message
-- that are left for the caller to close.
pub record CaptureHandled : Type 0 where
  pub error : Option Status
  pub state : Captures
  pub closed : List ℕ
  pub fds : List (Option ℕ)

rejected : Captures → List (Option ℕ) → Status → CaptureHandled
rejected st fds e = record { error = some e; state = st; closed = []; fds = fds }

-- A client that has started a capture becomes its owner.
start_told : ℕ → ℕ → List (Option ℕ) → Status → Started → CaptureHandled
start_told conn out fds status_ok r = record {
  error = none;
  state = record r.state { table = set_owning_conn r.state.table out conn };
  closed = r.closed;
  fds = fds;
}
start_told conn out fds e r = record {
  error = some e;
  state = r.state;
  closed = r.closed;
  fds = fds;
}

start_fd : Captures → ℕ → ℕ → List (Option ℕ) → AttachRequest → ℕ → ℕ → Option ℕ → CaptureHandled
unfolding rejected start_told
start_fd st conn srv fds q now out none = rejected st fds invalid_dmabuf
start_fd st conn srv fds q now out (some fd) =
    let r = capture_start st srv out fd q.desc now in
    start_told conn out (set fds q.fd_index none) r.status r

start_on : Captures → ℕ → ℕ → List (Option ℕ) → AttachRequest → ℕ → Option ℕ → CaptureHandled
unfolding rejected start_fd
start_on st conn srv fds q now none = rejected st fds invalid_arg
start_on st conn srv fds q now (some out) =
    start_fd st conn srv fds q now out (fd_at fds q.fd_index)

-- `isz_handle_capture_start`, for the connection `conn` with the object table `c`. Its payload has the
-- fields of SURFACE_ATTACH_BUFFER, with an output in place of the surface.
handle_parsed :
    Host → Conn → Captures → ℕ → ℕ → List (Option ℕ) → ℕ → Option AttachRequest → CaptureHandled
unfolding rejected start_on
handle_parsed host c st conn srv fds now none = rejected st fds invalid_arg
handle_parsed host c st conn srv fds now (some q) =
    start_on st conn srv fds q now (resolve_output host c q.surface_id)

pub handle_capture_start :
    Host → Conn → Captures → ℕ → ℕ → List ℕ → List (Option ℕ) → ℕ → CaptureHandled
unfolding handle_parsed
handle_capture_start host c st conn srv p fds now =
    handle_parsed host c st conn srv fds now (parse_attach p)

-- `isz_handle_capture_stop`.
stop_error : Status → Option Status
stop_error status_ok = none
stop_error e = some e

stop_on : Captures → Option ℕ → Option Status × Option CaptureDone × Captures
unfolding stop_error
stop_on st none = (some invalid_arg, none, st)
stop_on st (some out) =
    let r = capture_stop st.table out in
    (stop_error r.status, r.sent, record st { table = set_owning_conn r.table out 0 })

stop_parsed : Host → Conn → Captures → Option ℕ → Option Status × Option CaptureDone × Captures
unfolding stop_on
stop_parsed host c st none = (some invalid_arg, none, st)
stop_parsed host c st (some id) = stop_on st (resolve_output host c id)

pub handle_capture_stop :
    Host → Conn → Captures → List ℕ → Option Status × Option CaptureDone × Captures
unfolding stop_parsed
handle_capture_stop host c st p = stop_parsed host c st (parse_id p)

abbrev pub held : Captures → List ℕ
held st = map (λ (e : Capture). e.dmabuf_fd) st.table

-- Where the descriptors of the message `p` are: they are left to the caller, or the one at the index
-- of the request is consumed and either closed, or held by a new capture.
pub Accounts : Captures → List ℕ → List (Option ℕ) → CaptureHandled → Type 0
Accounts st p fds h =
    ((h.fds ≡ fds)
      × (h.closed ≡ [])
      × (held h.state ≡ held st)
      × ((e : Status) × (h.error ≡ some e)))
    ⊎ ((q : AttachRequest) × (fd : ℕ) × (parse_attach p ≡ some q)
        × (fd_at fds q.fd_index ≡ some fd)
        × (h.fds ≡ set fds q.fd_index none)
        × ((h.closed ≡ fd ∷ []) × (held h.state ≡ held st) × ((e : Status) × (h.error ≡ some e))
            ⊎ (h.closed ≡ []) × (held h.state ≡ held st ++ fd ∷ []) × (h.error ≡ none)))

-- A new owner changes no descriptor of the table.
fds_set :
    (es : List Capture) (i : ℕ) (e : Capture) (conn : ℕ)
    → get_elem? es i ≡ some e
    → map (λ (x : Capture). x.dmabuf_fd) (set es i (record e { owning_conn = conn }))
      ≡ map (λ (x : Capture). x.dmabuf_fd) es
fds_set [] i e conn h = refl
fds_set (x ∷ es) zero e conn h =
    ap (λ (y : Capture). y.dmabuf_fd ∷ map (λ (x : Capture). x.dmabuf_fd) es) (sym (some_inj.0 h))
fds_set (x ∷ es) (suc i) e conn h = ap (◌∷◌ x.dmabuf_fd) (fds_set es i e conn h)

owner-fds :
    (es : List Capture) (out conn : ℕ)
    → map (λ (x : Capture). x.dmabuf_fd) (set_owning_conn es out conn)
      ≡ map (λ (x : Capture). x.dmabuf_fd) es
unfolding set_owning_conn
owner-fds es out conn =
    if_cases (λ t. map (λ (x : Capture). x.dmabuf_fd) t ≡ map (λ (x : Capture). x.dmabuf_fd) es)
      (out == 0) (λ _. refl) (λ _. at_index (capture_find out es))
  where
    at_entry :
        (i : ℕ) (o : Option Capture)
        → get_elem? es i ≡ o
        → map (λ (x : Capture). x.dmabuf_fd) (tag es i (with_conn conn o))
          ≡ map (λ (x : Capture). x.dmabuf_fd) es
    at_entry i none h = refl
    at_entry i (some e) h = fds_set es i e conn h

    at_index :
        (o : Option ℕ)
        → map (λ (x : Capture). x.dmabuf_fd) (set_owner_at es conn o)
          ≡ map (λ (x : Capture). x.dmabuf_fd) es
    at_index none = refl
    at_index (some i) = at_entry i (get_elem? es i) refl

told_refused :
    (conn out : ℕ) (fds : List (Option ℕ)) (s : Status) (r : Started)
    → s ≢ status_ok
    → start_told conn out fds s r
      ≡ record { error = some s; state = r.state; closed = r.closed; fds = fds }
unfolding start_told
told_refused conn out fds status_ok r bad = absurd (bad refl)
told_refused conn out fds _ r bad = refl

module _ (host : Host) (c : Conn) (st : Captures) (conn srv : ℕ) (p : List ℕ)
    (fds : List (Option ℕ)) (now : ℕ) (v : IsValid st.table) where
  told-Accounts :
      (q : AttachRequest) (out fd : ℕ) (r : Started)
      → parse_attach p ≡ some q
      → fd_at fds q.fd_index ≡ some fd
      → Starts st srv out fd q.desc now r
      → Accounts st p fds (start_told conn out (set fds q.fd_index none) r.status r)
  unfolding Accounts start_told Starts
  told-Accounts q out fd r named at (_, inl (ok, closed, _, table)) =
      subst (λ s. Accounts st p fds (start_told conn out (set fds q.fd_index none) s r)) (sym ok)
        (inr (
          q,
          fd,
          named,
          at,
          refl,
          inr (
            closed,
            owner-fds r.state.table out conn
                ∙ ap (map (λ (x : Capture). x.dmabuf_fd)) table
                ∙ map-append (λ (x : Capture). x.dmabuf_fd) st.table _,
            refl,
          ),
        ))
  told-Accounts q out fd r named at (_, inr (bad, closed, table)) =
      subst (Accounts st p fds)
        (sym (told_refused conn out (set fds q.fd_index none) r.status r bad))
        (inr (
          q,
          fd,
          named,
          at,
          refl,
          inl (closed, ap (map (λ (x : Capture). x.dmabuf_fd)) table, (r.status, refl)),
        ))

  -- A request to start a capture, well formed or not, leaves the descriptors of its message to the
  -- caller, or consumes the one at the index in its payload, which is then closed, with an error for the client, or
  -- held by the new capture, with none. No descriptor of another capture is touched.
  pub handle_capture_start-Accounts :
      Accounts st p fds (handle_capture_start host c st conn srv p fds now)
  unfolding handle_capture_start handle_parsed Accounts rejected
  handle_capture_start-Accounts = parsed (parse_attach p) refl
    where
      with_fd :
          (q : AttachRequest) (out : ℕ) (o : Option ℕ)
          → parse_attach p ≡ some q
          → fd_at fds q.fd_index ≡ o
          → Accounts st p fds (start_fd st conn srv fds q now out o)
      with_fd q out none n e = inl (refl, refl, refl, (invalid_dmabuf, refl))
      with_fd q out (some fd) n e =
          told-Accounts q out fd (capture_start st srv out fd q.desc now) n e
            (capture_start-Starts st srv out fd q.desc now v)

      on_output :
          (q : AttachRequest) (o : Option ℕ)
          → parse_attach p ≡ some q
          → Accounts st p fds (start_on st conn srv fds q now o)
      on_output q none n = inl (refl, refl, refl, (invalid_arg, refl))
      on_output q (some out) n = with_fd q out (fd_at fds q.fd_index) n refl

      parsed :
          (o : Option AttachRequest)
          → parse_attach p ≡ o
          → Accounts st p fds (handle_parsed host c st conn srv fds now o)
      parsed none n = inl (refl, refl, refl, (invalid_arg, refl))
      parsed (some q) n = on_output q (resolve_output host c q.surface_id) n
