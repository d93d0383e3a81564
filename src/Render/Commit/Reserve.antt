-- ===== src/Render/Commit/Reserve.antt =====
-- src/render/isz_commit.c: the loop that validates the surfaces of an output and reserves their slots.
use ishizue.Base.{
  ℕ, ◌≤◌, ◌≡◌, ◌≢◌, ◌⊎◌, refl, true, false, none, some, List, [], ◌∷◌, arith, ◌==◌, ◌&&◌, not,
  if◌then◌else◌, length, inl, inr, All,
}
use ishizue.Status.{Status, status_ok}
use ishizue.Render.Buffers.{Heap}
use ishizue.Render.Slots.{Reservation, reservation_max, holder_of, held_by, assign}
use ishizue.Render.Slots.Laws.{Assigns, assign-Assigns}
use ishizue.Render.Slots.Release.{Distinct}
use ishizue.Render.Slots.Keys.{assign-Distinct}
use ishizue.Render.Surfaces.{Surface}
use ishizue.Render.Commit.{
  Output, CommitReservation, Reserved, stopped, entry_of, with_entry, assigned, take_turn, reserve,
  wants, validate_surface,
}
use ishizue.Render.Commit.Rollback.{Holders, Adds, Adds-ext}

-- No slot is taken from its holder, and those of other outputs are left alone.
abbrev pub Extends : ℕ → List Reservation → List Reservation → Type 0
Extends out rs rs' =
    (o t : ℕ) → (holder_of o t rs' ≡ holder_of o t rs) ⊎ (holder_of o t rs ≡ none) × (o ≡ out)

-- Each surface holds its slot.
abbrev pub Armed : ℕ → List Reservation → List Surface → Type 0
Armed out rs = All (λ s. holder_of out s.plane_slot rs ≡ some s.serial)

-- What the loop ends with.
pub record Reserves (out : ℕ) (ss : List Surface) (rs : List Reservation) (r : Reserved)
    : Type 0 where
  pub bounded : length r.table ≤ reservation_max
  pub distinct : Distinct r.table
  pub extends : Extends out rs r.table
  pub success :
      r.status ≡ status_ok
      → Adds out r.entries (λ o t. holder_of o t r.table) (λ o t. holder_of o t rs)
        × Armed out r.table ss

stopped-Reserves :
    (out : ℕ) (ss : List Surface) (rs : List Reservation) (e : Status)
    → length rs ≤ reservation_max
    → Distinct rs
    → e ≢ status_ok
    → Reserves out ss rs (stopped e rs)
stopped-Reserves out ss rs e b d ne = record {
  bounded = b;
  distinct = d;
  extends = λ o t. inl refl;
  success = λ k. absurd (ne k);
}

Extends-trans :
    (out : ℕ) (rs rs' rs'' : List Reservation)
    → Extends out rs rs'
    → Extends out rs' rs''
    → Extends out rs rs''
Extends-trans out rs rs' rs'' p q o t = ground (arith, p o t, q o t)

module _ (h : Heap) (out : Output) (s : Surface) (ss : List Surface) (rs : List Reservation) where
  -- The turn's entry, and the turns behind it.
  entry-Adds :
      (rs' : List Reservation) (es : List CommitReservation) (g : Holders)
      → (holder_of out.id s.plane_slot rs ≡ none)
        ⊎ (holder_of out.id s.plane_slot rs ≡ some s.serial)
      → ((o t : ℕ)
          → holder_of o t rs'
            ≡ (if o == out.id && t == s.plane_slot then some s.serial else holder_of o t rs))
      → Adds out.id es g (λ o t. holder_of o t rs')
      → Adds out.id (entry_of rs out s ∷ es) g (λ o t. holder_of o t rs)
  unfolding held_by
  entry-Adds rs' es g (inl free) k a =
      let fresh : not (held_by rs out.id s.plane_slot s.serial) ≡ true = ground (arith, free) in
      rw fresh (free, Adds-ext out.id es g g _ _ (λ o t. refl) k a)
  entry-Adds rs' es g (inr own) k a =
      let old : not (held_by rs out.id s.plane_slot s.serial) ≡ false = ground (arith, own) in
      rw old (Adds-ext out.id es g g _ _ (λ o t. refl) (λ o t. ground (arith, k o t, own)) a)

  with_entry-Reserves :
      (rs' : List Reservation) (r : Reserved)
      → (holder_of out.id s.plane_slot rs ≡ none)
        ⊎ (holder_of out.id s.plane_slot rs ≡ some s.serial)
      → ((o t : ℕ)
          → holder_of o t rs'
            ≡ (if o == out.id && t == s.plane_slot then some s.serial else holder_of o t rs))
      → Reserves out.id ss rs' r
      → Reserves out.id (s ∷ ss) rs (with_entry (entry_of rs out s) r)
  with_entry-Reserves rs' r f k v = record {
    bounded = v.bounded;
    distinct = v.distinct;
    extends = Extends-trans out.id rs rs' r.table (λ o t. ground (arith, k o t, f)) v.extends;
    success = λ e.
        let ih = v.success e in
        (
          entry-Adds rs' r.entries (λ o t. holder_of o t r.table) f k ih.0,
          (ground (arith, v.extends out.id s.plane_slot, k out.id s.plane_slot), ih.1),
        );
  }

  assigned-Reserves :
      (r : Status × List Reservation)
      → length rs ≤ reservation_max
      → Distinct rs
      → Distinct r.1
      → Assigns rs out.id (wants h s) r
      → ((rs' : List Reservation)
          → length rs' ≤ reservation_max
          → Distinct rs'
          → Reserves out.id ss rs' (reserve h out ss rs'))
      → Reserves out.id (s ∷ ss) rs (assigned (entry_of rs out s) r (reserve h out ss))
  unfolding assigned
  assigned-Reserves (status_ok, rs') b d d' (b', inl (_, f, k)) ih =
      with_entry-Reserves rs' (reserve h out ss rs') f k (ih rs' b' d')
  assigned-Reserves (status_ok, rs') b d d' (b', inr (ne, _)) ih = absurd (ne refl)
  assigned-Reserves (x, rs') b d d' (b', inl (e, _, _)) ih = cc
  assigned-Reserves (x, rs') b d d' (b', inr (ne, same)) ih =
      rw same (stopped-Reserves out.id (s ∷ ss) rs _ b d ne)

  take_turn-Reserves :
      (x : Status)
      → length rs ≤ reservation_max
      → Distinct rs
      → ((rs' : List Reservation)
          → length rs' ≤ reservation_max
          → Distinct rs'
          → Reserves out.id ss rs' (reserve h out ss rs'))
      → Reserves out.id (s ∷ ss) rs (
          take_turn x
            (entry_of rs out s)
            rs
            (assign rs out.id out.slots (wants h s))
            (reserve h out ss))
  unfolding take_turn
  take_turn-Reserves status_ok b d ih =
      assigned-Reserves (assign rs out.id out.slots (wants h s)) b d
        (assign-Distinct rs out.id (wants h s) d out.slots)
        (assign-Assigns rs out.id out.slots (wants h s) b) ih
  take_turn-Reserves x b d ih = stopped-Reserves out.id (s ∷ ss) rs _ b d (λ k. cc)

pub reserve-Reserves :
    (h : Heap) (out : Output) (ss : List Surface) (rs : List Reservation)
    → length rs ≤ reservation_max
    → Distinct rs
    → Reserves out.id ss rs (reserve h out ss rs)
unfolding reserve
reserve-Reserves h out [] rs b d = record {
  bounded = b;
  distinct = d;
  extends = λ o t. inl refl;
  success = λ e. ((λ o t. refl), tt);
}
reserve-Reserves h out (s ∷ ss) rs b d =
    take_turn-Reserves h out s ss rs (validate_surface s out) b d (reserve-Reserves h out ss)
