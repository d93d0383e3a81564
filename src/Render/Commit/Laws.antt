-- ===== src/Render/Commit/Laws.antt =====
-- src/render/isz_commit.c: what a commit promises on every branch.
use ishizue.Base.{
  ℕ, ◌≤◌, ◌≡◌, ◌≢◌, ◌⊎◌, refl, Bool, List, [], if◌then◌else◌, if_cases, length, inl, inr,
}
use ishizue.Status.{Status, status_ok, commit_pending, output_disconnected, no_memory}
use ishizue.Backend.{BackendState, committing, Backend, Ops, commit_backend}
use ishizue.Render.Slots.{Reservation, reservation_max, holder_of}
use ishizue.Render.Slots.Release.{Distinct}
use ishizue.Render.Surfaces.{World}
use ishizue.Render.Commit.{
  Output, Reserved, Committed, on_output, reserve, rollback, clear_damage, presented, is_test_only,
  unchanged, succeeded, handed_off, hand_off, commit_surfaces, commit_in_state, commit,
}
use ishizue.Render.Commit.Reserve.{Extends, Armed, Reserves, reserve-Reserves}
use ishizue.Render.Commit.Rollback.{rollback-Adds}

-- The table of slots is within its bound and names none twice.
abbrev pub IsTable : List Reservation → Type 0
IsTable rs = (length rs ≤ reservation_max) × Distinct rs

module _ {I : Type 0} (w : World) (ops : Ops I) (b : Backend I) (out : Output) (flags : ℕ) where
  -- Success: the backend has committed; the surfaces of the output hold their slots and have no
  -- damage left (with ISZ_COMMIT_TEST_ONLY they keep it, and nothing is sent).
  abbrev pub Succeeds : Committed I → Type 0
  Succeeds c =
      (commit_backend ops b out.id flags ≡ (status_ok, c.backend))
      × Armed out.id c.world.resv (on_output out.id w.surfaces)
      × (c.world.surfaces
          ≡ (if is_test_only flags then w.surfaces else clear_damage out.id w.surfaces))
      × (c.events ≡ (if is_test_only flags then [] else presented (on_output out.id w.surfaces)))

  -- The backend refuses: every slot has the holder that it had.
  abbrev pub RollsBack : Committed I → Type 0
  RollsBack c =
      (commit_backend ops b out.id flags ≡ (c.status, c.backend))
      × ((o t : ℕ) → holder_of o t c.world.resv ≡ holder_of o t w.resv)

  -- What comes before the backend refuses: the backend is not asked.
  abbrev pub Refuses : Committed I → Type 0
  Refuses c = c.backend ≡ b

  -- A commit that fails touches no surface and sends nothing; no commit takes a slot from its holder.
  abbrev pub Commits : Committed I → Type 0
  Commits c =
      Extends out.id w.resv c.world.resv
      × ((c.status ≡ status_ok) × Succeeds c
          ⊎ (c.status ≢ status_ok)
            × (c.world.surfaces ≡ w.surfaces)
            × (c.events ≡ [])
            × (RollsBack c ⊎ Refuses c))

  refused-Commits :
      (e : Status) (rs : List Reservation)
      → e ≢ status_ok
      → Extends out.id w.resv rs
      → Commits (unchanged e (record w { resv = rs }) b)
  refused-Commits e rs ne x = (x, inr (ne, refl, refl, inr refl))

  handed_off-Commits :
      (r : Reserved) (x : Status × Backend I)
      → Reserves out.id (on_output out.id w.surfaces) w.resv r
      → r.status ≡ status_ok
      → commit_backend ops b out.id flags ≡ x
      → Commits (handed_off w out flags r x)
  unfolding handed_off succeeded
  handed_off-Commits r (status_ok, b') v k e =
      let armed = (v.success k).1 in
      if_cases (λ (c : Committed I). Commits c) (is_test_only flags)
        (λ t. (v.extends, inl (refl, (e, armed, rw t refl, rw t refl))))
        (λ t. (v.extends, inl (refl, (e, armed, rw t refl, rw t refl))))
  handed_off-Commits r (x, b') v k e =
      let back : (o t : ℕ)
          → holder_of o t (rollback out.id r.entries r.table) ≡ holder_of o t w.resv =
        rollback-Adds out.id r.entries r.table (λ o t. holder_of o t w.resv) v.distinct
          (v.success k).0 in
      ((λ o t. inl (back o t)), inr ((λ q. cc), refl, refl, inl (e, back)))

  hand_off-Commits :
      (s : Status) (r : Reserved)
      → Reserves out.id (on_output out.id w.surfaces) w.resv r
      → r.status ≡ s
      → Commits (hand_off s w ops b out flags r)
  unfolding hand_off
  hand_off-Commits status_ok r v e =
      handed_off-Commits r (commit_backend ops b out.id flags) v e refl
  hand_off-Commits s r v e = refused-Commits _ r.table (λ q. cc) v.extends

  commit_in_state-Commits :
      (s : BackendState) (alloc_ok : Bool)
      → IsTable w.resv
      → Commits (commit_in_state s w ops b out flags alloc_ok)
  unfolding commit_in_state commit_surfaces
  commit_in_state-Commits committing alloc_ok v =
      refused-Commits commit_pending w.resv (λ q. cc) (λ o t. inl refl)
  commit_in_state-Commits s alloc_ok (bound, d) =
      let r = reserve w.heap out (on_output out.id w.surfaces) w.resv in
      let v = reserve-Reserves w.heap out (on_output out.id w.surfaces) w.resv bound d in
      if_cases (λ (c : Committed I). Commits c) out.disconnected
        (λ _. refused-Commits output_disconnected w.resv (λ q. cc) (λ o t. inl refl))
        (λ _.
          if_cases (λ (c : Committed I). Commits c) alloc_ok
            (λ _. hand_off-Commits r.status r v refl)
            (λ _. refused-Commits no_memory w.resv (λ q. cc) (λ o t. inl refl)))

-- `isz_commit`, for any backend, on a table of slots within its bound that names none twice. In no
-- case does a slot of any output that a surface holds go to another, and slots of other outputs stay
-- as they are. On success the backend has committed, each surface on the output holds its slot, and
-- unless ISZ_COMMIT_TEST_ONLY is given their damage is cleared and `presented` is sent for those
-- with a buffer. On failure no surface changes and nothing is sent; if it was the backend that
-- failed, every slot has the holder that it had before, else the backend was not asked.
pub commit-Commits :
    {I : Type 0} (w : World) (ops : Ops I) (b : Backend I) (out : Output) (flags : ℕ)
    (alloc_ok : Bool)
    → IsTable w.resv
    → Commits w ops b out flags (commit w ops b out flags alloc_ok)
unfolding commit
commit-Commits w ops b out flags alloc_ok v =
    commit_in_state-Commits w ops b out flags b.state alloc_ok v
