-- ===== src/Render/Tests.antt =====
-- src/render/isz_plane_slots.c at concrete inputs: two surfaces ask for slot 3 of output 1.
use ishizue.Base.{◌≡◌, refl, true, false, some, none, List, [], ◌∷◌, arith}
use ishizue.Status.{status_ok, plane_unavail, surface_no_plane_slot}
use ishizue.Render.Slots.{
  Reservation, PlaneSlot, Wants, assign, holder_of, held_by, slot_get, resv_find,
}
use ishizue.Render.Slots.Laws.{Assigns, assign-Assigns}

abbrev slots : List PlaneSlot
slots =
    record { id = 2; plane_type = 0; formats = []; supports_transform = false }
    ∷ record { id = 3; plane_type = 1; formats = 875713112 ∷ []; supports_transform = true }
    ∷ []

abbrev first : Wants
first = record {
  surf = 7;
  plane_slot = 3;
  plane_slot_set = true;
  plane_type = 1;
  format = some 875713112;
}

abbrev second : Wants
second = record { surf = 8; plane_slot = 3; plane_slot_set = true; plane_type = 1; format = none }

abbrev held : List Reservation
held = record { out = 1; slot_id = 3; holder = 7 } ∷ []

assign_outcomes :
    (assign [] 1 slots first ≡ (status_ok, held))
    × (assign held 1 slots first ≡ (status_ok, held))
    × (assign held 1 slots second ≡ (plane_unavail, held))
    × (assign held 1 slots (record second { plane_slot_set = false })
        ≡ (surface_no_plane_slot, held))
    × (assign held 1 slots (record second { plane_slot = 2 }) ≡ (plane_unavail, held))
unfolding assign slot_get held_by holder_of resv_find
assign_outcomes = (refl, refl, refl, refl, refl)

assign-Assigns_example : Assigns held 1 second (assign held 1 slots second)
assign-Assigns_example = assign-Assigns held 1 slots second (omega arith)
