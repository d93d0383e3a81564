-- ===== src/Render/Slots/Laws.antt =====
-- src/render/isz_plane_slots.c: a plane slot has at most one holder, and no one takes it over.
use ishizue.Base.{
  ℕ, ◌≤◌, ◌≡◌, ◌≢◌, ◌⊎◌, ◌↔◌, inl, inr, refl, true, Option, none, some, List, [], ◌∷◌, ◌++◌, arith,
  leb, ◌==◌, ◌&&◌, if◌then◌else◌, if_cases, length, length-append, not,
}
use ishizue.Status.{Status, status_ok, resource_limit, plane_unavail}
use ishizue.Render.Slots.{
  Reservation, reservation_max, resv_find, holder_of, held_by, replace_holder, resv_set, PlaneSlot,
  slot_get, Wants, assign, assign_slot, format_ok,
}

pub resv_find-holder_of :
    (out slot : ℕ) (rs : List Reservation)
    → (resv_find out slot rs ≡ none) ↔ (holder_of out slot rs ≡ none)
unfolding resv_find holder_of
resv_find-holder_of out slot [] = (λ e. refl, λ e. refl)
resv_find-holder_of out slot (r ∷ rs) =
    let ih = resv_find-holder_of out slot rs in (λ e. ground (arith, ih), λ e. ground (arith, ih))

holder_of-append :
    (o s out slot surf : ℕ) (rs : List Reservation)
    → holder_of out slot rs ≡ none
    → holder_of o s (rs ++ record { out = out; slot_id = slot; holder = surf } ∷ [])
      ≡ (if o == out && s == slot then some surf else holder_of o s rs)
unfolding holder_of
holder_of-append o s out slot surf [] h = ground arith
holder_of-append o s out slot surf (r ∷ rs) h =
    ground (arith, holder_of-append o s out slot surf rs)

-- What an assignment of `w` on `out` does to the holders: of its own slot and of every other.
abbrev pub Assigns : List Reservation → ℕ → Wants → Status × List Reservation → Type 0
Assigns rs out w (s, rs') =
    (length rs' ≤ reservation_max)
    × ((s ≡ status_ok)
          × ((holder_of out w.plane_slot rs ≡ none) ⊎ (holder_of out w.plane_slot rs ≡ some w.surf))
          × ((o t : ℕ)
              → holder_of o t rs'
                ≡ (if o == out && t == w.plane_slot then some w.surf else holder_of o t rs))
        ⊎ (s ≢ status_ok) × (rs' ≡ rs))

pub held_by-holder_of :
    (rs : List Reservation) (out slot surf : ℕ)
    → held_by rs out slot surf ≡ true
    → holder_of out slot rs ≡ some surf
unfolding held_by
held_by-holder_of rs out slot surf e = ground (arith, e)

module _ (rs : List Reservation) (out : ℕ) (w : Wants) (v : length rs ≤ reservation_max) where
  resv_set-Assigns :
      holder_of out w.plane_slot rs ≡ none → Assigns rs out w (resv_set rs out w.plane_slot w.surf)
  unfolding resv_set
  resv_set-Assigns free = absent (resv_find out w.plane_slot rs) refl
    where
      entry : Reservation
      entry = record { out = out; slot_id = w.plane_slot; holder = w.surf }

      absent :
          (o : Option ℕ)
          → resv_find out w.plane_slot rs ≡ o
          → Assigns rs out w (elim o [
            | some i ↦ (status_ok, replace_holder out w.plane_slot w.surf rs)
            | none ↦
                if leb reservation_max (length rs)
                then (resource_limit, rs)
                else (status_ok, rs ++ entry ∷ [])
          ])
      absent (some i) e =
          absurd (ground (arith, (resv_find-holder_of out w.plane_slot rs).1 free, e))
      absent none e =
          if_cases (Assigns rs out w) (leb reservation_max (length rs))
            (λ _. (v, inr ((λ c. cc), refl)))
            (λ room. (
              ground (arith, length-append rs (entry ∷ []), room),
              inl (refl, inl free, λ o t. holder_of-append o t out w.plane_slot w.surf rs free),
            ))

  assign_slot-Assigns : (slot : PlaneSlot) → Assigns rs out w (assign_slot rs out w slot)
  unfolding assign_slot
  assign_slot-Assigns slot =
      if_cases (Assigns rs out w) (held_by rs out w.plane_slot w.surf)
        (λ e.
          let own = held_by-holder_of rs out w.plane_slot w.surf e in
          (v, inl (refl, inr own, λ o t. ground (arith, own))))
        (λ _. by_holder (holder_of out w.plane_slot rs) refl)
    where
      by_holder :
          (o : Option ℕ)
          → holder_of out w.plane_slot rs ≡ o
          → Assigns rs out w (elim o [
            | some h ↦ (plane_unavail, rs)
            | none ↦
                if not (slot.plane_type == w.plane_type)
                then (plane_unavail, rs)
                else if not (format_ok slot w.format)
                then (plane_unavail, rs)
                else resv_set rs out w.plane_slot w.surf
          ])
      by_holder (some h) e = (v, inr ((λ c. cc), refl))
      by_holder none e =
          if_cases (Assigns rs out w) (not (slot.plane_type == w.plane_type))
            (λ _. (v, inr ((λ c. cc), refl)))
            (λ _.
              if_cases (Assigns rs out w) (not (format_ok slot w.format))
                (λ _. (v, inr ((λ c. cc), refl))) (λ _. resv_set-Assigns e))

-- An assignment in a table of at most 64 entries that succeeds found the slot free or held by the
-- surface itself; afterwards the surface holds it, and every other slot of every output has the
-- holder that it had. An assignment that fails changes nothing. The table stays within 64 entries.
pub assign-Assigns :
    (rs : List Reservation) (out : ℕ) (slots : List PlaneSlot) (w : Wants)
    → length rs ≤ reservation_max
    → Assigns rs out w (assign rs out slots w)
unfolding assign
assign-Assigns rs out slots w v =
    if_cases (Assigns rs out w) (not w.plane_slot_set) (λ _. (v, inr ((λ c. cc), refl)))
      (λ _. by_slot (slot_get slots w.plane_slot))
  where
    by_slot :
        (o : Option PlaneSlot)
        → Assigns rs out w
            (elim o [ none ↦ (plane_unavail, rs) | some slot ↦ assign_slot rs out w slot ])
    by_slot none = (v, inr ((λ c. cc), refl))
    by_slot (some slot) = assign_slot-Assigns rs out w v slot
