-- ===== src/Render/Slots/Release.antt =====
-- src/render/isz_plane_slots.c: a release frees the holder's slot and no other. The array's order is
-- lost when the last entry moves into the gap, which no lookup notices where the keys are distinct.
use ishizue.Base.{
  ℕ, zero, suc, ◌-◌, ◌≡◌, refl, sym, ap, subst, ◌∙◌, false, Option, none, some, List, [], ◌∷◌, ◌++◌,
  arith, ◌==◌, ◌&&◌, if◌then◌else◌, if_cases, length, inl, inr, ◌⊎◌, ◌≢◌,
}
use ishizue.Base.Last.{
  init_of, last_of, init-last, swap_remove, swap_remove_one, swap_remove_first, swap_remove_later,
}
use ishizue.Render.Slots.Laws.{resv_find-holder_of, held_by-holder_of}
use ishizue.Render.Slots.{Reservation, resv_find, holder_of, held_by, move_down, resv_clear}

-- No two entries are for the same slot of the same output.
abbrev pub Distinct : List Reservation → Type 0
Distinct [] = Unit
Distinct (r ∷ rs) = (holder_of r.out r.slot_id rs ≡ none) × Distinct rs

abbrev or_else : Option ℕ → Option ℕ → Option ℕ
or_else none o = o
or_else (some h) o = some h

pub holder_of-append_list :
    (o t : ℕ) (xs ys : List Reservation)
    → holder_of o t (xs ++ ys) ≡ or_else (holder_of o t xs) (holder_of o t ys)
unfolding holder_of
holder_of-append_list o t [] ys = refl
holder_of-append_list o t (x ∷ xs) ys = ground (arith, holder_of-append_list o t xs ys)

pub Distinct-append_one :
    (xs : List Reservation) (e : Reservation)
    → Distinct xs
    → holder_of e.out e.slot_id xs ≡ none
    → Distinct (xs ++ e ∷ [])
unfolding holder_of
Distinct-append_one [] e d h = (refl, tt)
Distinct-append_one (x ∷ xs) e d h =
    ground (arith, holder_of-append_list x.out x.slot_id xs (e ∷ []), Distinct-append_one xs e d.1)

-- The last entry may as well come first.
Distinct-append_last :
    (ys : List Reservation) (e : Reservation)
    → Distinct (ys ++ e ∷ [])
    → Distinct ys × (holder_of e.out e.slot_id ys ≡ none)
unfolding holder_of
Distinct-append_last [] e d = (tt, refl)
Distinct-append_last (y ∷ ys) e d =
    ground (arith, holder_of-append_list y.out y.slot_id ys (e ∷ []), Distinct-append_last ys e d.1)

module _ (x : Reservation) (xs : List Reservation) (d : Distinct (x ∷ xs)) where
  apart :
      Distinct (init_of x xs)
      × (holder_of (last_of x xs).out (last_of x xs).slot_id (init_of x xs) ≡ none)
  apart = Distinct-append_last (init_of x xs) (last_of x xs) (subst Distinct (init-last x xs) d)

  holder_of-rotate :
      (o t : ℕ) → holder_of o t (last_of x xs ∷ init_of x xs) ≡ holder_of o t (x ∷ xs)
  unfolding holder_of
  holder_of-rotate o t = rotated ∙ ap (holder_of o t) (sym (init-last x xs))
    where
      rotated :
          holder_of o t (last_of x xs ∷ init_of x xs)
          ≡ holder_of o t (init_of x xs ++ last_of x xs ∷ [])
      rotated = ground (arith, holder_of-append_list o t (init_of x xs) (last_of x xs ∷ []), apart)

module _ (out slot : ℕ) where
  -- The slot is free, all others have their holders.
  abbrev pub Frees : List Reservation → List Reservation → Type 0
  Frees rs rs' =
      Distinct rs'
      × ((o t : ℕ) → holder_of o t rs' ≡ (if out == o && slot == t then none else holder_of o t rs))

  swap_remove-Frees :
      (rs : List Reservation) (i : ℕ)
      → Distinct rs
      → resv_find out slot rs ≡ some i
      → Frees rs (swap_remove rs i)
  unfolding resv_find holder_of init_of
  swap_remove-Frees [] i d h = cc
  swap_remove-Frees (e ∷ []) i d h = rw (swap_remove_one e i) (tt, λ o t. ground (arith, h))
  swap_remove-Frees (e ∷ x ∷ xs) zero d h =
      let s = apart x xs d.1 in
      rw (swap_remove_first e x xs)
        ((s.1, s.0), λ o t. holder_of-rotate x xs d.1 o t ∙ ground (arith, d.0, h))
  swap_remove-Frees (e ∷ x ∷ xs) (suc i) d h =
      let found : resv_find out slot (x ∷ xs) ≡ some i = ground (arith, h) in
      let ih = swap_remove-Frees (x ∷ xs) i d.1 found in
      rw (swap_remove_later e x xs i) (
        (ground (arith, ih.1 e.out e.slot_id, d.0, h), ih.0),
        λ o t. ground (arith, ih.1 o t, d.0, h),
      )

move_down-swap_remove :
    (rs : List Reservation) (i : ℕ) → move_down rs i (length rs - 1) ≡ swap_remove rs i
unfolding move_down swap_remove
move_down-swap_remove rs i = refl

-- What a release by `surf` does to the table.
abbrev pub Releases : List Reservation → ℕ → ℕ → ℕ → List Reservation → Type 0
Releases rs out slot surf rs' =
    (holder_of out slot rs ≡ some surf) × Frees out slot rs rs'
    ⊎ (holder_of out slot rs ≢ some surf) × (rs' ≡ rs)

not_held :
    (rs : List Reservation) (out slot surf : ℕ)
    → held_by rs out slot surf ≡ false
    → holder_of out slot rs ≢ some surf
unfolding held_by
not_held rs out slot surf e k = ground (arith, e, k)

-- `isz_plane_slot_release`, in a table that names no slot twice: if the surface holds the slot, the
-- slot is free afterwards, every other slot of every output has the holder that it had, and no slot
-- is named twice; otherwise nothing changes.
pub resv_clear-Releases :
    (rs : List Reservation) (out slot surf : ℕ)
    → Distinct rs
    → Releases rs out slot surf (resv_clear rs out slot surf)
unfolding resv_clear
resv_clear-Releases rs out slot surf d = by_index (resv_find out slot rs) refl
  where
    by_index :
        (o : Option ℕ)
        → resv_find out slot rs ≡ o
        → Releases rs out slot surf (elim o [
          | none ↦ rs
          | some i ↦ if held_by rs out slot surf then move_down rs i (length rs - 1) else rs
        ])
    by_index none e = let free = (resv_find-holder_of out slot rs).0 e in inr ((λ k. cc), refl)
    by_index (some i) e =
        if_cases (Releases rs out slot surf) (held_by rs out slot surf)
          (λ k. inl (
            held_by-holder_of rs out slot surf k,
            rw (move_down-swap_remove rs i) (swap_remove-Frees out slot rs i d e),
          ))
          (λ k. inr (not_held rs out slot surf k, refl))
