-- ===== src/Render/Slots/Keys.antt =====
-- src/render/isz_plane_slots.c: an assignment never names a slot twice in the table.
use ishizue.Base.{
  ℕ, ◌≡◌, refl, Option, none, some, List, [], ◌∷◌, ◌++◌, leb, ◌==◌, if◌then◌else◌, if_cases, length,
  not,
}
use ishizue.Status.{Status, status_ok, resource_limit, plane_unavail}
use ishizue.Render.Slots.{
  Reservation, reservation_max, resv_find, holder_of, held_by, replace_holder, resv_set, PlaneSlot,
  slot_get, Wants, assign, assign_slot, format_ok,
}
use ishizue.Render.Slots.Laws.{resv_find-holder_of}
use ishizue.Render.Slots.Release.{Distinct, Distinct-append_one}

-- The table of an outcome.
abbrev Keeps : Status × List Reservation → Type 0
Keeps r = Distinct r.1

module _ (rs : List Reservation) (out : ℕ) (w : Wants) (d : Distinct rs) where
  resv_set-Distinct :
      holder_of out w.plane_slot rs ≡ none → Keeps (resv_set rs out w.plane_slot w.surf)
  unfolding resv_set
  resv_set-Distinct free =
      by_index (resv_find out w.plane_slot rs) ((resv_find-holder_of out w.plane_slot rs).1 free)
    where
      entry : Reservation
      entry = record { out = out; slot_id = w.plane_slot; holder = w.surf }

      by_index :
          (o : Option ℕ)
          → o ≡ none
          → Keeps (elim o [
            | some i ↦ (status_ok, replace_holder out w.plane_slot w.surf rs)
            | none ↦
                if leb reservation_max (length rs)
                then (resource_limit, rs)
                else (status_ok, rs ++ entry ∷ [])
          ])
      by_index (some i) e = cc
      by_index none e =
          if_cases Keeps (leb reservation_max (length rs)) (λ _. d)
            (λ _. Distinct-append_one rs entry d free)

  assign_slot-Distinct : (slot : PlaneSlot) → Keeps (assign_slot rs out w slot)
  unfolding assign_slot
  assign_slot-Distinct slot =
      if_cases Keeps (held_by rs out w.plane_slot w.surf) (λ _. d)
        (λ _. by_holder (holder_of out w.plane_slot rs) refl)
    where
      by_holder :
          (o : Option ℕ)
          → holder_of out w.plane_slot rs ≡ o
          → Keeps (elim o [
            | some h ↦ (plane_unavail, rs)
            | none ↦
                if not (slot.plane_type == w.plane_type)
                then (plane_unavail, rs)
                else if not (format_ok slot w.format)
                then (plane_unavail, rs)
                else resv_set rs out w.plane_slot w.surf
          ])
      by_holder (some h) e = d
      by_holder none e =
          if_cases Keeps (not (slot.plane_type == w.plane_type)) (λ _. d)
            (λ _.
              if_cases Keeps (not (format_ok slot w.format)) (λ _. d) (λ _. resv_set-Distinct e))

  pub assign-Distinct : (slots : List PlaneSlot) → Keeps (assign rs out slots w)
  unfolding assign
  assign-Distinct slots =
      if_cases Keeps (not w.plane_slot_set) (λ _. d) (λ _. by_slot (slot_get slots w.plane_slot))
    where
      by_slot :
          (o : Option PlaneSlot)
          → Keeps (elim o [ none ↦ (plane_unavail, rs) | some slot ↦ assign_slot rs out w slot ])
      by_slot none = d
      by_slot (some slot) = assign_slot-Distinct slot
