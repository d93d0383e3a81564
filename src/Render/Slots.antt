-- ===== src/Render/Slots.antt =====
-- src/render/isz_plane_slots.c: which surface holds which plane slot of which output. The
-- module-static array `s_resv[0 .. s_resv_count)` is a list. Outputs and surfaces are numbers.
pub mod Laws
pub mod Release
pub mod Keys
use ishizue.Base.{
  ℕ, suc, ◌+◌, ◌-◌, ◌≡◌, Bool, true, false, ◌&&◌, Option, none, some, List, [], ◌∷◌, ◌++◌, leb,
  ◌==◌, if◌then◌else◌, not, length, get_elem?, set, take,
}
use ishizue.Status.{Status, status_ok, resource_limit, surface_no_plane_slot, plane_unavail}

-- An entry of `s_resv`.
pub record Reservation : Type 0 where
  pub out : ℕ
  pub slot_id : ℕ
  pub holder : ℕ

-- ISZ_RESERVATION_MAX.
abbrev pub reservation_max : ℕ
reservation_max = 64

abbrev pub is_at : ℕ → ℕ → Reservation → Bool
is_at out slot_id r = r.out == out && r.slot_id == slot_id

-- `resv_find`.
unfoldable pub resv_find : ℕ → ℕ → List Reservation → Option ℕ
resv_find out slot_id [] = none
resv_find out slot_id (r ∷ rs) =
    let rest = resv_find out slot_id rs in
    if is_at out slot_id r then some 0 else elim rest [ none ↦ none | some i ↦ some (suc i) ]

-- The entry that `resv_find` points at.
unfoldable pub holder_of : ℕ → ℕ → List Reservation → Option ℕ
holder_of out slot_id [] = none
holder_of out slot_id (r ∷ rs) =
    if is_at out slot_id r then some r.holder else holder_of out slot_id rs

-- `resv_held_by`, also `isz_plane_slot_held_by`.
unfoldable pub held_by : List Reservation → ℕ → ℕ → ℕ → Bool
held_by rs out slot_id surf = elim (holder_of out slot_id rs) [ none ↦ false | some h ↦ h == surf ]

-- `resv_set`: the holder of an existing entry is replaced, or a new entry goes to the end.
replace_holder : ℕ → ℕ → ℕ → List Reservation → List Reservation
replace_holder out slot_id surf [] = []
replace_holder out slot_id surf (r ∷ rs) =
    let rest = replace_holder out slot_id surf rs in
    if is_at out slot_id r then record r { holder = surf } ∷ rs else r ∷ rest

pub resv_set : List Reservation → ℕ → ℕ → ℕ → Status × List Reservation
unfolding replace_holder
resv_set rs out slot_id surf = elim (resv_find out slot_id rs) [
  | some i ↦ (status_ok, replace_holder out slot_id surf rs)
  | none ↦
      if leb reservation_max (length rs)
      then (resource_limit, rs)
      else (status_ok, rs ++ record { out = out; slot_id = slot_id; holder = surf } ∷ [])
]

-- The last entry moves down to index `i`.
move_down : List Reservation → ℕ → ℕ → List Reservation
move_down rs i count = elim (get_elem? rs count) [
  | none ↦ rs
  | some last ↦ take count (if i == count then rs else set rs i last)
]

-- `resv_clear`, also `isz_plane_slot_release` on an output.
unfoldable pub resv_clear : List Reservation → ℕ → ℕ → ℕ → List Reservation
unfolding move_down
resv_clear rs out slot_id surf = elim (resv_find out slot_id rs) [
  | none ↦ rs
  | some i ↦ if held_by rs out slot_id surf then move_down rs i (length rs - 1) else rs
]

-- `struct isz_output_plane_slot`, as far as it is read here.
pub record PlaneSlot : Type 0 where
  pub id : ℕ
  pub plane_type : ℕ
  pub formats : List ℕ
  pub supports_transform : Bool

-- `isz_plane_slot_get`.
unfoldable pub slot_get : List PlaneSlot → ℕ → Option PlaneSlot
slot_get [] slot_id = none
slot_get (s ∷ ss) slot_id = if s.id == slot_id then some s else slot_get ss slot_id

has_format : List ℕ → ℕ → Bool
has_format [] f = false
has_format (g ∷ gs) f = if g == f then true else has_format gs f

-- What `isz_plane_slot_assign` reads of a surface; `format` is that of the current buffer.
pub record Wants : Type 0 where
  pub surf : ℕ
  pub plane_slot : ℕ
  pub plane_slot_set : Bool
  pub plane_type : ℕ
  pub format : Option ℕ

format_ok : PlaneSlot → Option ℕ → Bool
unfolding has_format
format_ok slot none = true
format_ok slot (some f) = has_format slot.formats f

-- The tests behind the lookup of the slot.
assign_slot : List Reservation → ℕ → Wants → PlaneSlot → Status × List Reservation
unfolding format_ok resv_set
assign_slot rs out w slot =
    if held_by rs out w.plane_slot w.surf
    then (status_ok, rs)
    else elim (holder_of out w.plane_slot rs) [
      | some h ↦ (plane_unavail, rs)
      | none ↦
          if not (slot.plane_type == w.plane_type)
          then (plane_unavail, rs)
          else if not (format_ok slot w.format)
          then (plane_unavail, rs)
          else resv_set rs out w.plane_slot w.surf
    ]

-- `isz_plane_slot_assign` on an output with these slots; ISZ_OK stands for the slot id. A holder is
-- never NULL, since no caller passes a NULL surface.
unfoldable pub assign : List Reservation → ℕ → List PlaneSlot → Wants → Status × List Reservation
unfolding assign_slot
assign rs out slots w =
    if not w.plane_slot_set
    then (surface_no_plane_slot, rs)
    else elim (slot_get slots w.plane_slot) [
      | none ↦ (plane_unavail, rs)
      | some slot ↦ assign_slot rs out w slot
    ]
