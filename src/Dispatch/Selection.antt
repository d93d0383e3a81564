-- ===== src/Dispatch/Selection.antt =====
-- src/isz_client_dispatch.c: SET_SELECTION_OWNER, with `isz_seat_set_selection_owner` of
-- src/input/isz_seat_api.c. An owner is the serial of a surface; whether there is a seat, and the result of
-- `dup`, are parameters.
mod Laws
mod Tests
use ishizue.Base.{
  ℕ, ◌+◌, ◌==◌, ◌&&◌, not, Bool, true, false, Option, none, some, List, [], ◌∷◌, ltb, if◌then◌else◌,
  length, set,
}
use ishizue.Status.{Status, status_ok, invalid_arg, no_memory}
use ishizue.Conn.{Conn}
use ishizue.Protocol.Payload.{read_u32_checked, read_u64_checked}
use ishizue.Dispatch.Parse.{and_then}
use ishizue.Dispatch.Handlers.{surface_of, fd_at}

-- One of the two slots: `selection_owner` and `selection_timestamp_ns` of the seat, and `s_selection_fd`.
pub record SelectionSlot : Type 0 where
  pub owner : Option ℕ
  pub timestamp : ℕ
  pub held : Option ℕ

-- ISZ_SELECTION_PRIMARY and ISZ_SELECTION_CLIPBOARD.
pub record Selections : Type 0 where
  pub primary : SelectionSlot
  pub clipboard : SelectionSlot

abbrev pub slot_of : Selections → ℕ → SelectionSlot
slot_of ss slot = if slot == 0 then ss.primary else ss.clipboard

abbrev pub with_slot : Selections → ℕ → SelectionSlot → Selections
with_slot ss slot s = if slot == 0 then record ss { primary = s } else record ss { clipboard = s }

-- `isz_seat_set_selection_owner`, for a valid slot.
pub set_selection_owner : SelectionSlot → Option ℕ → ℕ → Status × SelectionSlot
set_selection_owner s none ts = (status_ok, record s { owner = none; timestamp = 0 })
set_selection_owner s (some o) ts =
    if elim s.owner [ none ↦ false | some p ↦ ltb ts s.timestamp ]
    then (invalid_arg, s)
    else (status_ok, record s { owner = some o; timestamp = ts })

-- The error for the client, the slots, the descriptors that are closed, and those of the message that
-- are left for the caller to close.
pub record SelectionHandled : Type 0 where
  pub error : Option Status
  pub slots : Selections
  pub closed : List ℕ
  pub fds : List (Option ℕ)

-- The payload.
pub record SelectionRequest : Type 0 where
  pub slot : ℕ
  pub timestamp : ℕ
  pub surface_id : ℕ
  pub fd_index : ℕ

pub parse_selection : List ℕ → Option SelectionRequest
parse_selection p = and_then (read_u32_checked p 0 (length p)) λ slot off.
    and_then (read_u64_checked p off (length p)) λ ts off.
      and_then (read_u32_checked p off (length p)) λ id off.
        and_then (read_u32_checked p off (length p))
          λ i off. some (record { slot = slot; timestamp = ts; surface_id = id; fd_index = i })

-- What is closed when a slot gives up its descriptor.
abbrev pub held_fds : Option ℕ → List ℕ
held_fds none = []
held_fds (some fd) = fd ∷ []

refused : Selections → List (Option ℕ) → Status → SelectionHandled
refused ss fds e = record { error = some e; slots = ss; closed = []; fds = fds }

-- The descriptor of the request is held in a duplicate, in place of the old one.
pub hold_fd : Selections → List (Option ℕ) → ℕ → ℕ → SelectionSlot → Option ℕ → SelectionHandled
hold_fd ss fds i slot s none = record {
  error = some no_memory;
  slots = with_slot ss slot s;
  closed = [];
  fds = set fds i none;
}
hold_fd ss fds i slot s (some stored) = record {
  error = none;
  slots = with_slot ss slot (record s { held = some stored });
  closed = held_fds s.held;
  fds = set fds i none;
}

-- Without a descriptor, a release gives up the one that is held.
pub release_fd : Selections → List (Option ℕ) → ℕ → SelectionSlot → Option ℕ → SelectionHandled
release_fd ss fds slot s none = record {
  error = none;
  slots = with_slot ss slot (record s { held = none });
  closed = held_fds s.held;
  fds = fds;
}
release_fd ss fds slot s (some o) = record {
  error = none;
  slots = with_slot ss slot s;
  closed = [];
  fds = fds;
}

abbrev pub request_fd : List (Option ℕ) → ℕ → Option ℕ
request_fd fds i = if i == 4294967295 then none else fd_at fds i

pub finish_fd :
    Selections
    → List (Option ℕ)
    → SelectionRequest
    → SelectionSlot
    → Option ℕ
    → Option ℕ
    → Option ℕ
    → SelectionHandled
unfolding hold_fd release_fd
finish_fd ss fds q s o duped none = release_fd ss fds q.slot s o
finish_fd ss fds q s o duped (some fd) = hold_fd ss fds q.fd_index q.slot s duped

pub set_owner :
    Selections
    → List (Option ℕ)
    → SelectionRequest
    → Option ℕ
    → Option ℕ
    → Status × SelectionSlot
    → SelectionHandled
unfolding refused finish_fd
set_owner ss fds q o duped (status_ok, s) = finish_fd ss fds q s o duped (request_fd fds q.fd_index)
set_owner ss fds q o duped (e, s) = refused ss fds e

pub set_on_seat :
    Bool → Selections → List (Option ℕ) → SelectionRequest → Option ℕ → Option ℕ → SelectionHandled
unfolding refused set_owner set_selection_owner
set_on_seat seat_ok ss fds q o duped =
    if seat_ok
    then set_owner ss fds q o duped (set_selection_owner (slot_of ss q.slot) o q.timestamp)
    else refused ss fds no_memory

pub set_by_object :
    Bool → Selections → List (Option ℕ) → SelectionRequest → Option ℕ → Option ℕ → SelectionHandled
unfolding refused set_on_seat
set_by_object seat_ok ss fds q duped none = refused ss fds invalid_arg
set_by_object seat_ok ss fds q duped (some o) = set_on_seat seat_ok ss fds q (some o) duped

-- `isz_handle_set_selection_owner`.
pub set_parsed :
    Conn
    → Bool
    → Selections
    → List (Option ℕ)
    → Option ℕ
    → Option SelectionRequest
    → SelectionHandled
unfolding refused set_on_seat set_by_object
set_parsed c seat_ok ss fds duped none = refused ss fds invalid_arg
set_parsed c seat_ok ss fds duped (some q) =
    if ltb 1 q.slot
    then refused ss fds invalid_arg
    else if q.surface_id == 0
    then set_on_seat seat_ok ss fds q none duped
    else set_by_object seat_ok ss fds q duped (surface_of c q.surface_id)

pub handle_set_selection_owner :
    Conn → Bool → Selections → List ℕ → List (Option ℕ) → Option ℕ → SelectionHandled
unfolding set_parsed
handle_set_selection_owner c seat_ok ss p fds duped =
    set_parsed c seat_ok ss fds duped (parse_selection p)
