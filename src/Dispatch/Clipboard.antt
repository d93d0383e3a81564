-- ===== src/Dispatch/Clipboard.antt =====
-- src/isz_client_dispatch.c: CLIPBOARD_SET and CLIPBOARD_REQUEST over the one clipboard slot. The result
-- of `dup` is a parameter.
mod Laws
mod Tests
use ishizue.Base.{
  ℕ, ◌+◌, ◌-◌, ◌==◌, ◌||◌, Option, none, some, List, [], ◌∷◌, ◌++◌, ltb, if◌then◌else◌, length,
  take, drop, set,
}
use ishizue.Base.Bytes.{put_u32_le}
use ishizue.Status.{Status, status_ok, invalid_arg, no_memory}
use ishizue.Conn.{Conn, Env, Outcome, outcome, send}
use ishizue.Dispatch.Parse.{and_then}
use ishizue.Dispatch.Handlers.{fd_at}
use ishizue.Protocol.Payload.{read_u32_checked}

-- `struct isz_clipboard_slot`; the name of the type ends with a NUL in C.
pub record ClipboardSlot : Type 0 where
  pub fd : Option ℕ
  pub mime : List ℕ

-- The room in `mime`, but for the NUL.
abbrev pub mime_room : ℕ
mime_room = 63

-- `isz_clipboard_slot_clear`: the descriptor that is closed, and the empty slot.
pub slot_clear : ClipboardSlot → List ℕ × ClipboardSlot
slot_clear s = (elim s.fd [ none ↦ [] | some fd ↦ fd ∷ [] ], record { fd = none; mime = [] })

-- The error for the client, the slot, what was closed, and the descriptors left to the caller.
pub record ClipboardHandled : Type 0 where
  pub error : Option Status
  pub slot : ClipboardSlot
  pub closed : List ℕ
  pub fds : List (Option ℕ)

unset : ClipboardSlot → List (Option ℕ) → Status → ClipboardHandled
unset s fds e = record { error = some e; slot = s; closed = []; fds = fds }

store : ClipboardSlot → List (Option ℕ) → ℕ → List ℕ → Option ℕ → ClipboardHandled
unfolding unset slot_clear
store s fds i mime none = unset s fds no_memory
store s fds i mime (some stored) =
    let (closed, empty) = slot_clear s in
    record {
      error = none;
      slot = record empty { fd = some stored; mime = mime };
      closed = closed;
      fds = set fds i none;
    }

set_fd : ClipboardSlot → List (Option ℕ) → ℕ → List ℕ → Option ℕ → Option ℕ → ClipboardHandled
unfolding unset store
set_fd s fds i mime duped none = unset s fds invalid_arg
set_fd s fds i mime duped (some fd) = store s fds i mime duped

set_parsed :
    ClipboardSlot → List ℕ → List (Option ℕ) → Option ℕ → Option (ℕ × ℕ × ℕ) → ClipboardHandled
unfolding unset set_fd
set_parsed s p fds duped none = unset s fds invalid_arg
set_parsed s p fds duped (some (i, mime_len, off)) =
    if ltb mime_room mime_len || ltb (length p - off) mime_len
    then unset s fds invalid_arg
    else set_fd s fds i (take mime_len (drop off p)) duped (fd_at fds i)

-- The index and the length, and the offset behind them.
parse_clipboard : List ℕ → Option (ℕ × ℕ × ℕ)
parse_clipboard p =
    and_then (read_u32_checked p 0 (length p))
      λ i off. and_then (read_u32_checked p off (length p)) λ mime_len off. some (i, mime_len, off)

-- `isz_handle_clipboard_set`.
pub clipboard_set : ClipboardSlot → List ℕ → List (Option ℕ) → Option ℕ → ClipboardHandled
unfolding set_parsed parse_clipboard
clipboard_set s p fds duped = set_parsed s p fds duped (parse_clipboard p)

-- ISZ_MSG_CLIPBOARD_REQUEST.
abbrev pub msg_clipboard_request : ℕ
msg_clipboard_request = 40

-- Its answer, with the slot's type, and a duplicate of the slot's descriptor where it has one.
abbrev pub clipboard_payload : List ℕ → List ℕ
clipboard_payload mime = put_u32_le (length mime) ++ mime

-- The caller closes the duplicate when it could not be sent.
closed_after : ℕ → Status → Outcome → Outcome
closed_after d status_ok o = o
closed_after d e o = record o { closed = o.closed ++ d ∷ [] }

-- `isz_handle_clipboard_request`: the error for the client, and what was sent.
pub record ClipboardAnswered : Type 0 where
  pub error : Option Status
  pub sent : Outcome

answer_duped : Conn → Env → List ℕ → Option ℕ → ClipboardAnswered
unfolding closed_after
answer_duped c env mime none = record { error = some no_memory; sent = outcome status_ok c [] [] }
answer_duped c env mime (some d) =
    let o =
      send c env msg_clipboard_request (some (clipboard_payload mime)) (4 + length mime)
        (some (d ∷ [])) in
    record { error = none; sent = closed_after d o.status o }

answer_from : Conn → Env → List ℕ → Option ℕ → Option ℕ → ClipboardAnswered
unfolding answer_duped
answer_from c env mime duped none = record {
  error = none;
  sent = send c env msg_clipboard_request (some (clipboard_payload mime)) (4 + length mime) none;
}
answer_from c env mime duped (some fd) = answer_duped c env mime duped

pub clipboard_request : Conn → Env → ClipboardSlot → Option ℕ → ClipboardAnswered
unfolding answer_from
clipboard_request c env s duped = answer_from c env s.mime duped s.fd
