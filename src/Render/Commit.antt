-- ===== src/Render/Commit.antt =====
-- src/render/isz_commit.c: a commit of an output, from the surfaces on it over the plane slots to the
-- backend. The backend is any that isz_backend.c drives.
pub mod Rollback
pub mod Reserve
pub mod Laws
mod Tests
use ishizue.Base.{
  ℕ, ◌%◌, ◌/◌, Bool, true, false, Option, none, some, List, [], ◌∷◌, ◌++◌, ◌==◌, ◌&&◌, ◌||◌, not,
  if◌then◌else◌, get_elem?,
}
use ishizue.Status.{
  Status, status_ok, invalid_arg, commit_pending, output_disconnected, no_memory,
  surface_no_plane_slot, plane_unavail, transform_unsupported,
}
use ishizue.Backend.{BackendState, committing, Backend, Ops, commit_backend}
use ishizue.Render.Buffers.{Buffer, Heap}
use ishizue.Render.Slots.{Reservation, PlaneSlot, Wants, slot_get, held_by, assign, resv_clear}
use ishizue.Render.Surfaces.{Surface, World, is_output}

-- What `isz_commit` reads of an output.
pub record Output : Type 0 where
  pub id : ℕ
  pub disconnected : Bool
  pub slots : List PlaneSlot

-- `collect_output_surfaces`, where the array can be allocated.
pub on_output : ℕ → List Surface → List Surface
on_output out [] = []
on_output out (s ∷ ss) =
    let rest = on_output out ss in if is_output out s.output then s ∷ rest else rest

validate_slot : Surface → Option PlaneSlot → Status
validate_slot s none = plane_unavail
validate_slot s (some slot) =
    if not (slot.plane_type == s.plane_type)
    then plane_unavail
    else if not (s.transform == 0) && not slot.supports_transform
    then transform_unsupported
    else status_ok

-- `validate_surface`.
pub validate_surface : Surface → Output → Status
unfolding validate_slot
validate_surface s out =
    if not s.plane_type_set
    then invalid_arg
    else if not s.plane_slot_set
    then surface_no_plane_slot
    else validate_slot s (slot_get out.slots s.plane_slot)

-- The format of the buffer behind a pointer.
abbrev pub format_of : Heap → Option ℕ → Option ℕ
format_of h none = none
format_of h (some a) = elim (get_elem? h.cells a) [ none ↦ none | some b ↦ some b.desc.format ]

-- What `isz_plane_slot_assign` reads of a surface.
abbrev pub wants : Heap → Surface → Wants
wants h s = record {
  surf = s.serial;
  plane_slot = s.plane_slot;
  plane_slot_set = s.plane_slot_set;
  plane_type = s.plane_type;
  format = format_of h s.current;
}

-- `struct commit_reservation`.
pub record CommitReservation : Type 0 where
  pub surf : ℕ
  pub slot_id : ℕ
  pub newly_reserved : Bool

-- What the loop over the surfaces ends with: a status, the table, and `resv` from the front.
pub record Reserved : Type 0 where
  pub status : Status
  pub table : List Reservation
  pub entries : List CommitReservation

abbrev pub stopped : Status → List Reservation → Reserved
stopped e rs = record { status = e; table = rs; entries = [] }

abbrev pub entry_of : List Reservation → Output → Surface → CommitReservation
entry_of rs out s = record {
  surf = s.serial;
  slot_id = s.plane_slot;
  newly_reserved = not (held_by rs out.id s.plane_slot s.serial);
}

abbrev pub with_entry : CommitReservation → Reserved → Reserved
with_entry e r = record r { entries = e ∷ r.entries }

-- One turn of the loop: validate, assign, note what is new; then the turns behind it.
assigned : CommitReservation → Status × List Reservation → (List Reservation → Reserved) → Reserved
assigned e (status_ok, rs) rest = with_entry e (rest rs)
assigned e (x, rs) rest = stopped x rs

take_turn :
    Status
    → CommitReservation
    → List Reservation
    → Status × List Reservation
    → (List Reservation → Reserved)
    → Reserved
unfolding assigned
take_turn status_ok e rs r rest = assigned e r rest
take_turn x e rs r rest = stopped x rs

pub reserve : Heap → Output → List Surface → List Reservation → Reserved
unfolding take_turn
reserve h out [] rs = stopped status_ok rs
reserve h out (s ∷ ss) rs =
    take_turn (validate_surface s out) (entry_of rs out s) rs
      (assign rs out.id out.slots (wants h s)) (reserve h out ss)

-- The release of what this commit newly reserved.
pub rollback : ℕ → List CommitReservation → List Reservation → List Reservation
rollback out [] rs = rs
rollback out (e ∷ es) rs =
    rollback out es (if e.newly_reserved then resv_clear rs out e.slot_id e.surf else rs)

-- Each surface on the output loses its damage.
pub clear_damage : ℕ → List Surface → List Surface
clear_damage out [] = []
clear_damage out (s ∷ ss) =
    (if is_output out s.output then record s { damage = [] } else s) ∷ clear_damage out ss

-- The object ids in the `presented` events: of surfaces with a buffer that a client owns.
pub presented : List Surface → List ℕ
presented [] = []
presented (s ∷ ss) =
    let rest = presented ss in
    elim s.current [
      | none ↦ rest
      | some a ↦ if s.owned && not (s.object_id == 0) then s.object_id ∷ rest else rest
    ]

-- The state behind a commit, and the events that it sends.
pub record Committed (I : Type 0) : Type 0 where
  pub status : Status
  pub world : World
  pub backend : Backend I
  pub events : List ℕ

-- ISZ_COMMIT_TEST_ONLY.
abbrev pub is_test_only : ℕ → Bool
is_test_only flags = flags / 2 % 2 == 1

module _ {I : Type 0} where
  abbrev pub unchanged : Status → World → Backend I → Committed I
  unchanged e w b = record { status = e; world = w; backend = b; events = [] }

  succeeded : World → Output → ℕ → List Reservation → Backend I → Committed I
  succeeded w out flags rs b =
      if is_test_only flags then unchanged status_ok (record w { resv = rs }) b else record {
        status = status_ok;
        world = record w { resv = rs; surfaces = clear_damage out.id w.surfaces };
        backend = b;
        events = presented (on_output out.id w.surfaces);
      }

  -- Behind the backend's commit.
  handed_off : World → Output → ℕ → Reserved → Status × Backend I → Committed I
  unfolding succeeded
  handed_off w out flags r (status_ok, b) = succeeded w out flags r.table b
  handed_off w out flags r (e, b) =
      unchanged e (record w { resv = rollback out.id r.entries r.table }) b

  hand_off : Status → World → Ops I → Backend I → Output → ℕ → Reserved → Committed I
  unfolding handed_off
  hand_off status_ok w ops b out flags r =
      handed_off w out flags r (commit_backend ops b out.id flags)
  hand_off e w ops b out flags r = unchanged e (record w { resv = r.table }) b

  commit_surfaces : World → Ops I → Backend I → Output → ℕ → Reserved → Committed I
  unfolding hand_off
  commit_surfaces w ops b out flags r = hand_off r.status w ops b out flags r

  commit_in_state : BackendState → World → Ops I → Backend I → Output → ℕ → Bool → Committed I
  unfolding commit_surfaces
  commit_in_state committing w ops b out flags alloc_ok = unchanged commit_pending w b
  commit_in_state st w ops b out flags alloc_ok =
      if out.disconnected
      then unchanged output_disconnected w b
      else if alloc_ok
      then commit_surfaces w ops b out flags
          (reserve w.heap out (on_output out.id w.surfaces) w.resv)
      else unchanged no_memory w b

  -- `isz_commit` on an output with a server and a backend; `alloc_ok` is what its allocations say.
  pub commit : World → Ops I → Backend I → Output → ℕ → Bool → Committed I
  unfolding commit_in_state
  commit w ops b out flags alloc_ok = commit_in_state b.state w ops b out flags alloc_ok
