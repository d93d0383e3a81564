-- ===== src/Dispatch/Selection/Laws.antt =====
-- src/isz_client_dispatch.c: who owns a selection, and who holds its descriptors.
use ishizue.Base.{
  ℕ, ◌≤◌, ◌<◌, ◌≡◌, ◌≢◌, refl, ap, Bool, true, false, Option, none, some, List, [], arith, ltb,
  ◌==◌, if_cases, set, ◌⊎◌, inl, inr, if◌then◌else◌,
}
use ishizue.Status.{Status, status_ok, invalid_arg, no_memory}
use ishizue.Conn.{Conn}
use ishizue.Dispatch.Handlers.{surface_of}
use ishizue.Dispatch.Selection.{
  SelectionSlot, Selections, slot_of, with_slot, set_selection_owner, SelectionHandled,
  SelectionRequest, parse_selection, held_fds, hold_fd, release_fd, request_fd, finish_fd,
  set_owner, set_on_seat, set_by_object, set_parsed, handle_set_selection_owner,
}

-- Why a request is refused: its slot or its surface is unknown, or its claim is older than the one of
-- an owner, or there is no seat.
pub Refuses : Conn → Bool → Selections → SelectionRequest → Status → Type 0
Refuses c seat_ok ss q e =
    (e ≡ invalid_arg) × (1 < q.slot)
    ⊎ (e ≡ invalid_arg) × (q.surface_id ≢ 0) × (surface_of c q.surface_id ≡ none)
    ⊎ (e ≡ no_memory) × (seat_ok ≡ false)
    ⊎ (e ≡ invalid_arg)
      × (q.surface_id ≢ 0)
      × ((p : ℕ) × ((slot_of ss q.slot).owner ≡ some p))
      × (q.timestamp < (slot_of ss q.slot).timestamp)

-- The owner that a request leaves in its slot: none by a release, or the surface that it names, with a
-- timestamp that is no older than the one of the last owner.
pub Claimed : Conn → SelectionRequest → SelectionSlot → SelectionSlot → Type 0
Claimed c q s t =
    (q.surface_id ≡ 0) × (t.owner ≡ none) × (t.timestamp ≡ 0)
    ⊎ ((o : ℕ) × (q.surface_id ≢ 0)
        × (surface_of c q.surface_id ≡ some o)
        × (t.owner ≡ some o)
        × (t.timestamp ≡ q.timestamp)
        × (s.owner ≡ none ⊎ s.timestamp ≤ q.timestamp))

-- The descriptors: those of the message, the one that the slot holds, what is closed, and the error.
-- Without one in the request, a release gives the slot's up and a claim keeps it. The one of the
-- request is consumed, and its duplicate takes the place of the slot's, unless `dup` fails.
pub Holds :
    Option ℕ
    → List (Option ℕ)
    → SelectionRequest
    → SelectionSlot
    → SelectionSlot
    → SelectionHandled
    → Type 0
Holds duped fds q s t r =
    (request_fd fds q.fd_index ≡ none)
      × (r.fds ≡ fds)
      × (r.error ≡ none)
      × ((t.owner ≡ none) × (t.held ≡ none) × (r.closed ≡ held_fds s.held)
          ⊎ (t.owner ≢ none) × (t.held ≡ s.held) × (r.closed ≡ []))
    ⊎ ((fd : ℕ) × (request_fd fds q.fd_index ≡ some fd)
        × (r.fds ≡ set fds q.fd_index none)
        × (((stored : ℕ) × (duped ≡ some stored)
              × (t.held ≡ some stored)
              × (r.closed ≡ held_fds s.held)
              × (r.error ≡ none))
            ⊎ (duped ≡ none) × (t.held ≡ s.held) × (r.closed ≡ []) × (r.error ≡ some no_memory)))

-- What the request `q` does: nothing but an error, for a reason; or its slot changes, as above.
abbrev pub Handles :
    Conn
    → Bool
    → Selections
    → List (Option ℕ)
    → Option ℕ
    → SelectionRequest
    → SelectionHandled
    → Type 0
Handles c seat_ok ss fds duped q r =
    ((e : Status) × (r.error ≡ some e)
      × Refuses c seat_ok ss q e
      × (r.slots ≡ ss)
      × (r.closed ≡ [])
      × (r.fds ≡ fds))
    ⊎ ((t : SelectionSlot) × (q.slot ≤ 1)
        × (seat_ok ≡ true)
        × (r.slots ≡ with_slot ss q.slot t)
        × Claimed c q (slot_of ss q.slot) t
        × Holds duped fds q (slot_of ss q.slot) t r)

-- A payload that is no request is refused.
abbrev pub Claims :
    Conn
    → Bool
    → Selections
    → List (Option ℕ)
    → Option ℕ
    → Option SelectionRequest
    → SelectionHandled
    → Type 0
Claims c seat_ok ss fds duped none r =
    r ≡ record { error = some invalid_arg; slots = ss; closed = []; fds = fds }
Claims c seat_ok ss fds duped (some q) r = Handles c seat_ok ss fds duped q r

module _ (c : Conn) (seat_ok : Bool) (ss : Selections) (fds : List (Option ℕ)) (duped : Option ℕ)
    (q : SelectionRequest) where
  abbrev Does : SelectionHandled → Type 0
  Does r = Handles c seat_ok ss fds duped q r

  refused-Does :
      (e : Status)
      → Refuses c seat_ok ss q e
      → Does (record { error = some e; slots = ss; closed = []; fds = fds })
  refused-Does e why = inl (e, refl, why, refl, refl, refl)

  finish_fd-Does :
      (s : SelectionSlot) (o : Option ℕ)
      → q.slot ≤ 1
      → seat_ok ≡ true
      → s.owner ≡ o
      → Claimed c q (slot_of ss q.slot) s
      → s.held ≡ (slot_of ss q.slot).held
      → Does (finish_fd ss fds q s o duped (request_fd fds q.fd_index))
  unfolding finish_fd hold_fd release_fd Claimed Holds
  finish_fd-Does s o small seat own v k = by_fd (request_fd fds q.fd_index) refl
    where
      by_dup :
          (fd : ℕ) (d : Option ℕ)
          → request_fd fds q.fd_index ≡ some fd
          → duped ≡ d
          → Does (hold_fd ss fds q.fd_index q.slot s d)
      by_dup fd none f e = inr (s, small, seat, refl, v, inr (fd, f, refl, inr (e, k, refl, refl)))
      by_dup fd (some stored) f e = inr (
        record s { held = some stored },
        small,
        seat,
        refl,
        v,
        inr (fd, f, refl, inl (stored, e, refl, ap held_fds k, refl)),
      )

      by_owner :
          (o : Option ℕ)
          → s.owner ≡ o
          → request_fd fds q.fd_index ≡ none
          → Does (release_fd ss fds q.slot s o)
      by_owner none own f = inr (
        record s { held = none },
        small,
        seat,
        refl,
        v,
        inl (f, refl, refl, inl (own, refl, ap held_fds k)),
      )
      by_owner (some x) own f =
          inr (s, small, seat, refl, v, inl (f, refl, refl, inr (λ h. cc, k, refl)))

      by_fd : (f : Option ℕ) → request_fd fds q.fd_index ≡ f → Does (finish_fd ss fds q s o duped f)
      by_fd none f = by_owner o own f
      by_fd (some fd) f = by_dup fd duped f refl

  abbrev now : SelectionSlot
  now = slot_of ss q.slot

  -- The call on the seat, for a release and for a claim.
  release-Does :
      q.slot ≤ 1
      → seat_ok ≡ true
      → q.surface_id ≡ 0
      → Does (set_owner ss fds q none duped (set_selection_owner now none q.timestamp))
  unfolding set_owner set_selection_owner Claimed
  release-Does small seat zero_id =
      finish_fd-Does (record now { owner = none; timestamp = 0 }) none small seat refl
        (inl (zero_id, refl, refl)) refl

  claim-Does :
      (n : ℕ)
      → q.slot ≤ 1
      → seat_ok ≡ true
      → q.surface_id ≢ 0
      → surface_of c q.surface_id ≡ some n
      → Does (set_owner ss fds q (some n) duped (set_selection_owner now (some n) q.timestamp))
  unfolding set_owner set_selection_owner Claimed Refuses
  claim-Does n small seat some_id at = by_owner now.owner refl
    where
      taken :
          now.owner ≡ none ⊎ now.timestamp ≤ q.timestamp
          → Does (
              finish_fd ss fds q
                (record now { owner = some n; timestamp = q.timestamp })
                (some n)
                duped
                (request_fd fds q.fd_index))
      taken free =
          finish_fd-Does (record now { owner = some n; timestamp = q.timestamp }) (some n) small
            seat refl (inr (n, some_id, at, refl, refl, free)) refl

      by_owner :
          (p : Option ℕ)
          → now.owner ≡ p
          → Does (
              set_owner ss fds q (some n) duped (
                if elim p [ none ↦ false | some x ↦ ltb q.timestamp now.timestamp ]
                then (invalid_arg, now)
                else (status_ok, record now { owner = some n; timestamp = q.timestamp })))
      by_owner none e = taken (inl e)
      by_owner (some p) e =
          if_cases (λ (r : Status × SelectionSlot). Does (set_owner ss fds q (some n) duped r))
            (ltb q.timestamp now.timestamp)
            (λ t.
              refused-Does invalid_arg (inr (inr (inr (refl, some_id, (p, e), ground (arith, t))))))
            (λ t. taken (inr (ground (arith, t))))

  on_seat-Does :
      (o : Option ℕ)
      → (seat_ok ≡ true → Does (set_owner ss fds q o duped (set_selection_owner now o q.timestamp)))
      → Does (set_on_seat seat_ok ss fds q o duped)
  unfolding set_on_seat set_selection_owner Refuses
  on_seat-Does o own =
      if_cases (λ (r : SelectionHandled). Does r) seat_ok own
        (λ f. refused-Does no_memory (inr (inr (inl (refl, f)))))

  by_object-Does :
      (o : Option ℕ)
      → q.slot ≤ 1
      → q.surface_id ≢ 0
      → surface_of c q.surface_id ≡ o
      → Does (set_by_object seat_ok ss fds q duped o)
  unfolding set_by_object Refuses
  by_object-Does none small some_id at = refused-Does invalid_arg (inr (inl (refl, some_id, at)))
  by_object-Does (some n) small some_id at =
      on_seat-Does (some n) (λ seat. claim-Does n small seat some_id at)

  parsed-Does : Does (set_parsed c seat_ok ss fds duped (some q))
  unfolding set_parsed Refuses
  parsed-Does =
      if_cases (λ (r : SelectionHandled). Does r) (ltb 1 q.slot)
        (λ t. refused-Does invalid_arg (inl (refl, ground (arith, t))))
        λ small.
          if_cases (λ (r : SelectionHandled). Does r) (q.surface_id == 0)
            (λ t.
              on_seat-Does none
                (λ seat. release-Does (ground (arith, small)) seat (ground (arith, t))))
            (λ t.
              by_object-Does (surface_of c q.surface_id) (ground (arith, small)) (ground (arith, t))
                refl)

-- A request for a selection that is too short is refused and changes nothing. Any other one is
-- refused with an error, changes nothing and leaves its descriptors, for one of the reasons that its
-- slot is unknown, that it names an unknown surface, that there is no seat, or that the slot has an
-- owner with a later timestamp; or it changes just its slot: one without a surface releases it, and
-- any other makes the surface that it names the owner, at its timestamp, where the slot had no owner
-- or one of an earlier or the same time. Its descriptor is then consumed, and a duplicate is held in
-- place of the one that the slot held, which is closed; if `dup` fails, that one stays and an error is
-- told. Without a descriptor, a release closes the one that the slot held, and a claim keeps it.
pub handle_set_selection_owner-Claims :
    (c : Conn) (seat_ok : Bool) (ss : Selections) (fds : List (Option ℕ)) (duped : Option ℕ)
    (p : List ℕ)
    → Claims c seat_ok ss fds duped
        (parse_selection p)
        (handle_set_selection_owner c seat_ok ss p fds duped)
unfolding handle_set_selection_owner set_parsed
handle_set_selection_owner-Claims c seat_ok ss fds duped p = parsed (parse_selection p)
  where
    parsed :
        (o : Option SelectionRequest)
        → Claims c seat_ok ss fds duped o (set_parsed c seat_ok ss fds duped o)
    parsed none = refl
    parsed (some q) = parsed-Does c seat_ok ss fds duped q
