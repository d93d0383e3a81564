-- ===== src/Dispatch/Selection/Tests.antt =====
-- src/isz_client_dispatch.c: claims of the clipboard by a client with one surface.
use ishizue.Base.{ℕ, ◌≡◌, refl, true, none, some, List, [], ◌∷◌}
use ishizue.Status.{status_ok, invalid_arg}
use ishizue.Base.Bytes.{get_u32_le}
use ishizue.Protocol.Payload.{read_u32_checked, read_u64_checked, read_u32, read_u64, get_u64_le}
use ishizue.Conn.Objects.{lookup, find}
use ishizue.Dispatch.Handlers.{fd_at}
use ishizue.Conn.{Conn, Entry, create, object_surface}
use ishizue.Dispatch.Selection.{
  SelectionSlot, Selections, set_selection_owner, parse_selection, handle_set_selection_owner,
}
use ishizue.Dispatch.Selection.Laws.{Claims, handle_set_selection_owner-Claims}

abbrev entry : Entry
entry = record { id = 9; handle = 3; kind = object_surface }

abbrev client : Conn
client = record (create 5) { objects = entry ∷ []; objects_cap = 8; next_object_id = 10 }

abbrev free : SelectionSlot
free = record { owner = none; timestamp = 0; held = none }

abbrev claimed : SelectionSlot
claimed = record { owner = some 2; timestamp = 6; held = some 40 }

abbrev slots : Selections
slots = record { primary = free; clipboard = claimed }

-- The clipboard at the time 7, by the surface 9, with the first descriptor.
abbrev claim : List ℕ
claim = 1 ∷ 0 ∷ 0 ∷ 0 ∷ 7 ∷ 0 ∷ 0 ∷ 0 ∷ 0 ∷ 0 ∷ 0 ∷ 0 ∷ 9 ∷ 0 ∷ 0 ∷ 0 ∷ 0 ∷ 0 ∷ 0 ∷ 0 ∷ []

-- A later claim replaces an owner, an older one does not.
later_accepted :
    set_selection_owner claimed (some 3) 7
    ≡ (status_ok, record { owner = some 3; timestamp = 7; held = some 40 })
unfolding set_selection_owner
later_accepted = refl

older_refused : set_selection_owner claimed (some 3) 5 ≡ (invalid_arg, claimed)
unfolding set_selection_owner
older_refused = refl

handle_set_selection_owner-Claims_example :
    Claims client true slots
      (some 12 ∷ [])
      (some 13)
      (parse_selection claim)
      (handle_set_selection_owner client true slots claim (some 12 ∷ []) (some 13))
handle_set_selection_owner-Claims_example =
    handle_set_selection_owner-Claims client true slots (some 12 ∷ []) (some 13) claim

-- The surface 3 owns the clipboard now, the descriptor is consumed, and 40 is closed for 13.
claim_taken : handle_set_selection_owner client true slots claim (some 12 ∷ []) (some 13) ≡ record {
  error = none;
  slots = record {
    primary = free;
    clipboard = record { owner = some 3; timestamp = 7; held = some 13 };
  };
  closed = 40 ∷ [];
  fds = none ∷ [];
}
unfolding handle_set_selection_owner parse_selection read_u32_checked read_u64_checked read_u32
    read_u64 get_u32_le get_u64_le lookup find fd_at
claim_taken = refl
