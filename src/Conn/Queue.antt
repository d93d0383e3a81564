-- ===== src/Conn/Queue.antt =====
-- src/protocol/isz_conn.c, `isz_conn_send` and `isz_conn_drain`: messages leave in the order in
-- which they were accepted, and the queue stays within its cap.
use ishizue.Base.{
  ℕ, ◌≤◌, ◌<◌, ◌≡◌, refl, sym, ap, ◌∙◌, true, false, Option, none, some, List, [], ◌∷◌, ◌++◌, arith,
  leb, ◌==◌, length, length-append, append_assoc, append-nil, inl, inr, map, take, drop, All, zero,
  suc, ◌+◌, if_cases, ◌⊎◌, ◌≢◌,
}
use mathlib.Core.List.{map-append}
use mathlib.Core.Path.{◌≡⟨◌⟩◌, ◌∎}
use ishizue.Status.{
  Status, status_ok, commit_pending, client_disconnected, client_too_slow, invalid_arg, no_memory,
}
use ishizue.Protocol.{Result, ok, err, Errno, eio, max_message, max_fds, encode, bytes_of}
use ishizue.Protocol.Socket.{
  SendResult, wrote, Sent, sent, would_block, send_error, send_frame, cut_of,
}
use ishizue.Conn.{
  Conn, Node, Env, Outcome, outcome, send, drain, drain_from, send_or_queue, after_direct, enqueue,
  link_node, pop_node, with_sent, dup_all, max_events, new_node, int_bytes, cut_off,
}
use ishizue.Protocol.Payload.{overwrite}

-- The queue's counter is its length, and the cap holds.
pub record IsValid (c : Conn) : Type 0 where
  pub counted : c.queued_events ≡ length c.queue
  pub capped : c.queued_events ≤ max_events

-- The encoded messages, without their descriptors.
abbrev pub frames : List Node → List (List ℕ)
frames = map λ n. n.frame

-- Nothing has gone out of a message of `total` bytes, or the connection is dead and another number of
-- its bytes went out, in one partial write.
abbrev pub CutsOff : ℕ → List ℕ → Outcome → Type 0
CutsOff total buf o =
    (o.cut ≡ []) ⊎ (o.conn.dead ≡ true) × (n : ℕ) × (n ≢ total) × (o.cut ≡ take n buf)

-- One call that was given the encoded message `buf`: success puts it behind all that was queued, on
-- the wire or in the queue; failure delivers no whole message and queues nothing.
abbrev pub Accepts : Conn → ℕ → List ℕ → Outcome → Type 0
Accepts c total buf o =
    IsValid o.conn
    × ((o.status ≡ status_ok)
          × (frames (o.wire ++ o.conn.queue) ≡ frames c.queue ++ buf ∷ [])
          × (o.conn.dead ≡ false)
          × (o.cut ≡ [])
        ⊎ (o.status ≢ status_ok) × (o.wire ≡ []) × (o.conn.queue ≡ c.queue) × CutsOff total buf o)

-- The copies, if all could be made, are this many.
abbrev Copies : ℕ → Option (List ℕ) → Type 0
Copies n none = Unit
Copies n (some r) = length r ≡ n

length-dup_all :
    (fds : List ℕ) (ds : List (Option ℕ)) (acc : List ℕ)
    → Copies (length acc + length fds) (dup_all fds ds acc).0
unfolding dup_all
length-dup_all [] ds acc = omega arith
length-dup_all (fd ∷ fds) [] acc = tt
length-dup_all (fd ∷ fds) (none ∷ ds) acc = tt
length-dup_all (fd ∷ fds) (some d ∷ ds) acc =
    by_rest (dup_all fds ds (acc ++ d ∷ [])).0 (length-dup_all fds ds (acc ++ d ∷ []))
  where
    by_rest :
        (o : Option (List ℕ))
        → Copies (length (acc ++ d ∷ []) + length fds) o
        → Copies (length acc + suc (length fds)) o
    by_rest none h = tt
    by_rest (some r) h = omega (arith, h, length-append acc (d ∷ []))

-- Eight copies and less leave the frame as it is.
frame-new_node : (buf fds : List ℕ) → length fds ≤ max_fds → (new_node buf fds).frame ≡ buf
unfolding new_node int_bytes overwrite
frame-new_node buf fds small = rw (drop_all max_fds fds small) (whole buf)
  where
    whole : (buf : List ℕ) → overwrite buf 0 [] ≡ buf
    whole [] = refl
    whole (x ∷ xs) = refl

    drop_all : (n : ℕ) (xs : List ℕ) → length xs ≤ n → drop n xs ≡ []
    drop_all zero [] h = refl
    drop_all zero (x ∷ xs) h = absurd (omega (arith, h))
    drop_all (suc n) [] h = refl
    drop_all (suc n) (x ∷ xs) h = drop_all n xs (omega (arith, h))

-- A partial write is one of another number of bytes.
cut_of-partial :
    (total : ℕ) (fds : Option (List ℕ)) (n_fds n : ℕ)
    → send_frame total fds n_fds (wrote n) ≡ send_error eio
    → n ≢ total
unfolding send_frame
cut_of-partial total fds n_fds n h e = ground (arith, h, e)

module _ (c : Conn) (env : Env) (total : ℕ) (buf : List ℕ) (v : IsValid c)
    (alive : c.dead ≡ false) where
  -- A refusal marks the connection dead.
  refusal :
      (s : Status) (closed : List ℕ)
      → s ≢ status_ok
      → Accepts c total buf (outcome s (record c { dead = true }) [] closed)
  refusal s closed ne =
      (record { counted = v.counted; capped = v.capped }, inr (ne, refl, refl, inl refl))

  link_node-Accepts :
      (r : Option (List ℕ) × List ℕ) (n : ℕ)
      → c.queued_events < max_events
      → n ≤ max_fds
      → Copies n r.0
      → Accepts c total buf (link_node c buf r)
  unfolding link_node
  link_node-Accepts (none, closed) n h small k = refusal no_memory closed (λ e. cc)
  link_node-Accepts (some fds, closed) n h small k = (
    ground (arith, length-append c.queue (new_node buf fds ∷ [])),
    inl (
      refl,
      map-append _ c.queue _
          ∙ ap (λ b. frames c.queue ++ b ∷ []) (frame-new_node buf fds (omega (arith, k, small))),
      alive,
      refl,
    ),
  )

  enqueue-Accepts :
      (fds : List ℕ) → length fds ≤ max_fds → Accepts c total buf (enqueue c env buf fds)
  unfolding enqueue
  enqueue-Accepts fds small =
      if_cases (Accepts c total buf) (leb max_events c.queued_events)
        (λ _. refusal client_too_slow [] (λ e. cc))
        λ room.
          if_cases (Accepts c total buf) env.malloc_ok
            (λ _.
              link_node-Accepts (dup_all fds env.dups []) (0 + length fds) (ground arith)
                (omega (arith, small)) (length-dup_all fds env.dups []))
            (λ _. refusal no_memory [] (λ e. cc))

  cut_off-partial :
      (fds : Option (List ℕ)) (x : Errno) (k : SendResult)
      → send_frame total fds (length (bytes_of fds)) k ≡ send_error x
      → CutsOff total buf (cut_off c (cut_of buf (send_error x) k))
  unfolding cut_of
  cut_off-partial fds eio (wrote n) g =
      inr (refl, n, cut_of-partial total fds (length (bytes_of fds)) n g, refl)
  cut_off-partial fds x k g = inl refl

  after_direct-Accepts :
      (fds : Option (List ℕ)) (s : Sent)
      → length (bytes_of fds) ≤ max_fds
      → send_frame total fds (length (bytes_of fds)) env.sendmsg ≡ s
      → c.queue ≡ []
      → Accepts c total buf (after_direct c env buf total (bytes_of fds) s)
  unfolding after_direct
  after_direct-Accepts fds (sent n) small g e =
      if_cases (Accepts c total buf) (n == total) (λ _. (v, inl (refl, rw e, alive, refl)))
        λ _.
          if_cases (Accepts c total buf) (n == 0) (λ _. enqueue-Accepts (bytes_of fds) small)
            (λ _. refusal client_disconnected [] (λ e. cc))
  after_direct-Accepts fds would_block small g e = enqueue-Accepts (bytes_of fds) small
  after_direct-Accepts fds (send_error x) small g e = (
    record { counted = v.counted; capped = v.capped },
    inr (λ h. cc, refl, refl, cut_off-partial fds x env.sendmsg g),
  )

  send_or_queue-Accepts :
      (fds : Option (List ℕ)) (q : List Node)
      → length (bytes_of fds) ≤ max_fds
      → c.queue ≡ q
      → Accepts c total buf (send_or_queue c env buf total fds q)
  unfolding send_or_queue
  send_or_queue-Accepts fds [] small e = after_direct-Accepts fds _ small refl e
  send_or_queue-Accepts fds (n ∷ ns) small e = enqueue-Accepts (bytes_of fds) small

-- `isz_conn_send` on a live connection with a well-formed queue, for a message that encodes as
-- `buf` and has eight descriptors at most: either it returns ISZ_OK, the connection stays alive and the
-- message stands behind all that were queued, on the wire or in the queue; or it returns an error, the
-- queue is as it was, and nothing of the message goes out, or the connection is dead and what went out
-- of it is what one partial write took. The queue's counter stays exact and within its cap of 1024.
pub send-Accepts :
    (c : Conn) (env : Env) (msg_id : ℕ) (payload : Option (List ℕ)) (n : ℕ) (fds : Option (List ℕ))
    (total : ℕ) (buf : List ℕ)
    → IsValid c
    → c.dead ≡ false
    → length (bytes_of fds) ≤ max_fds
    → encode max_message msg_id payload n ≡ ok (total, buf)
    → Accepts c total buf (send c env msg_id payload n fds)
unfolding send
send-Accepts c env msg_id payload n fds total buf v alive small e =
    if_cases (Accepts c total buf) c.dead (λ t. absurd (cc))
      (λ _. rw e (send_or_queue-Accepts c env total buf v alive fds c.queue small refl))

-- What `isz_conn_drain` promises of the queue `q` that it starts from: what went out and what is
-- still queued make up `q`, in order; ISZ_OK means that all went out.
abbrev pub Drains : List Node → Outcome → Type 0
Drains q o =
    IsValid o.conn × (o.wire ++ o.conn.queue ≡ q) × ((o.status ≢ status_ok) ⊎ (o.conn.queue ≡ []))

drain_from-Drains :
    (c : Conn) (q : List Node) (ks : List SendResult)
    → IsValid c
    → c.queue ≡ q
    → Drains q (drain_from c q ks)
unfolding drain_from
drain_from-Drains c [] ks v e = (v, e, inr e)
drain_from-Drains c (n ∷ rest) [] v e = (v, e, inl (λ q. cc))
drain_from-Drains c (n ∷ rest) (k ∷ ks) v e =
    step (send_frame (length n.frame) (some n.fds) (length n.fds) k)
      (drain_from-Drains (pop_node c rest) rest ks (ground arith) (ground arith))
  where
    step :
        (s : Sent)
        → Drains rest (drain_from (pop_node c rest) rest ks)
        → Drains (n ∷ rest) (elim s [
          | would_block ↦ outcome commit_pending c [] []
          | send_error e ↦ cut_off c (cut_of n.frame (send_error e) k)
          | sent m ↦ with_sent n (drain_from (pop_node c rest) rest ks)
        ])
    step would_block ih = (v, e, inl (λ q. cc))
    step (send_error x) ih = (record { counted = v.counted; capped = v.capped }, e, inl (λ q. cc))
    step (sent m) ih = (ih.0, ap (◌∷◌ n) ih.1, ih.2)

-- `isz_conn_drain` on a live connection sends a front part of the queue, in order and whole, and leaves the
-- rest queued; it returns ISZ_OK only with the queue empty.
pub drain-Drains :
    (c : Conn) (ks : List SendResult) → IsValid c → c.dead ≡ false → Drains c.queue (drain c ks)
unfolding drain
drain-Drains c ks v alive =
    if_cases (Drains c.queue) c.dead (λ e. cc) (λ _. drain_from-Drains c c.queue ks v refl)

-- What the server does with a connection's queue, in some order, each call in its environment.
pub data Op : Type 0 where
  sends : Env → ℕ → Option (List ℕ) → ℕ → Option (List ℕ) → Op
  drains : List SendResult → Op

abbrev pub step : Conn → Op → Outcome
step c (sends env msg_id payload n fds) = send c env msg_id payload n fds
step c (drains ks) = drain c ks

-- The encoded message that a call with this status has accepted.
abbrev pub accepted_of : Result (ℕ × List ℕ) → Status → List (List ℕ)
accepted_of (ok (total, buf)) s = elim s [ status_ok ↦ buf ∷ [] | _ ↦ [] ]
accepted_of (err e) s = []

abbrev pub accepted_frame : Op → Status → List (List ℕ)
accepted_frame (sends env msg_id payload n fds) s =
    accepted_of (encode max_message msg_id payload n) s
accepted_frame (drains ks) s = []

-- All that has gone out, all that was accepted, and the connection at the end.
pub record Session : Type 0 where
  pub wire : List Node
  pub accepted : List (List ℕ)
  pub last : Conn

unfoldable pub run : Conn → List Op → Session
run c [] = record { wire = []; accepted = []; last = c }
run c (op ∷ ops) =
    let o = step c op in
    let r = run o.conn ops in
    record {
      wire = o.wire ++ r.wire;
      accepted = accepted_frame op o.status ++ r.accepted;
      last = r.last;
    }

-- One call on any connection.
abbrev Keeps : Conn → List (List ℕ) → Outcome → Type 0
Keeps c taken o = IsValid o.conn × (frames (o.wire ++ o.conn.queue) ≡ frames c.queue ++ taken)

nothing_accepted :
    (total : ℕ) (buf : List ℕ) (s : Status) → s ≢ status_ok → accepted_of (ok (total, buf)) s ≡ []
nothing_accepted total buf status_ok h = absurd (h refl)
nothing_accepted total buf _ h = refl

Accepts-Keeps :
    (c : Conn) (total : ℕ) (buf : List ℕ) (o : Outcome)
    → Accepts c total buf o
    → Keeps c (accepted_of (ok (total, buf)) o.status) o
Accepts-Keeps c total buf o (v, inl (s, e, _, _)) = (v, rw s e)
Accepts-Keeps c total buf o (v, inr (ne, w, q, _)) =
    (v, rw (nothing_accepted total buf o.status ne, w, q) (sym (append-nil (frames c.queue))))

send-Keeps :
    (c : Conn) (env : Env) (fds : Option (List ℕ)) (r : Result (ℕ × List ℕ))
    → IsValid c
    → c.dead ≡ false
    → length (bytes_of fds) ≤ max_fds
    → let o : Outcome = elim r [
      | err e ↦ outcome invalid_arg c [] []
      | ok (total, buf) ↦ send_or_queue c env buf total fds c.queue
    ] in
      Keeps c (accepted_of r o.status) o
send-Keeps c env fds (err e) v alive small = (v, sym (append-nil (frames c.queue)))
send-Keeps c env fds (ok (total, buf)) v alive small =
    Accepts-Keeps c total buf (send_or_queue c env buf total fds c.queue)
      (send_or_queue-Accepts c env total buf v alive fds c.queue small refl)

not_accepted : (r : Result (ℕ × List ℕ)) → accepted_of r client_disconnected ≡ []
not_accepted (ok (t, b)) = refl
not_accepted (err e) = refl

-- The call changes nothing, and says so.
unchanged-Keeps :
    (c : Conn) (r : Result (ℕ × List ℕ))
    → IsValid c
    → Keeps c (accepted_of r client_disconnected) (outcome client_disconnected c [] [])
unchanged-Keeps c r v = (v, rw (not_accepted r) (sym (append-nil (frames c.queue))))

-- A call has at most the eight descriptors for which a node has room.
abbrev pub FitsNode : Op → Type 0
FitsNode (sends env msg_id payload n fds) = length (bytes_of fds) ≤ max_fds
FitsNode (drains ks) = Unit

step-Keeps :
    (c : Conn) (op : Op)
    → IsValid c
    → FitsNode op
    → Keeps c (accepted_frame op (step c op).status) (step c op)
unfolding send drain
step-Keeps c (sends env msg_id payload n fds) v small =
    let r = encode max_message msg_id payload n in
    if_cases (λ o. Keeps c (accepted_of r o.status) o) c.dead (λ _. unchanged-Keeps c r v)
      (λ alive. send-Keeps c env fds r v alive small)
step-Keeps c (drains ks) v small =
    if_cases (Keeps c []) c.dead (λ _. (v, sym (append-nil (frames c.queue))))
      λ alive.
        let d = drain_from-Drains c c.queue ks v refl in
        (d.0, ap frames d.1 ∙ sym (append-nil (frames c.queue)))

-- In any sequence of sends, each with eight descriptors at most, and drains on a connection, whatever
-- the kernel does, the messages that have gone out whole and those still queued at the end are, in this order, the messages queued at the
-- start and then those of the calls that returned ISZ_OK: none is lost, repeated or overtaken. The
-- queue stays well formed.
pub run-frames :
    (c : Conn) (ops : List Op)
    → IsValid c
    → All FitsNode ops
    → let r = run c ops in
      (frames (r.wire ++ r.last.queue) ≡ frames c.queue ++ r.accepted) × IsValid r.last
unfolding run
run-frames c [] v small = (sym (append-nil (frames c.queue)), v)
run-frames c (op ∷ ops) v small =
    let o = step c op in
    let k = step-Keeps c op v small.0 in
    let ih = run-frames o.conn ops k.0 small.1 in
    (
      chain o.wire (run o.conn ops).wire o.conn.queue (run o.conn ops).last.queue
          (accepted_frame op o.status) (run o.conn ops).accepted k.1 ih.0,
      ih.1,
    )
  where
    chain :
        (w w' q q' : List Node) (a a' : List (List ℕ))
        → frames (w ++ q) ≡ frames c.queue ++ a
        → frames (w' ++ q') ≡ frames q ++ a'
        → frames ((w ++ w') ++ q') ≡ frames c.queue ++ (a ++ a')
    chain w w' q q' a a' h k =
        frames ((w ++ w') ++ q')
        ≡⟨ ap frames (append_assoc w w' q') ∙ map-append _ w (w' ++ q') ⟩
          frames w ++ frames (w' ++ q')
        ≡⟨ ap (◌++◌ (frames w)) k ∙ sym (append_assoc (frames w) (frames q) a') ⟩
          (frames w ++ frames q) ++ a'
        ≡⟨ ap (λ xs. xs ++ a') (sym (map-append _ w q) ∙ h) ⟩ (frames c.queue ++ a) ++ a'
        ≡⟨ append_assoc (frames c.queue) a a' ⟩ frames c.queue ++ (a ++ a') ∎
