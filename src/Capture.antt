-- ===== src/Capture.antt =====
-- src/render/isz_capture.c in the build without libdrm, with the requests CAPTURE_START and
-- CAPTURE_STOP of src/isz_client_dispatch.c. Outputs, servers and connections are numbers, 0 for NULL;
-- the number of an output is also its id.
mod Laws
mod Requests
mod Tests
use ishizue.Base.{
  ℕ, zero, suc, ◌+◌, Bool, true, false, ◌&&◌, ◌||◌, Option, none, some, List, [], ◌∷◌, ◌++◌, ltb,
  leb, ◌==◌, if◌then◌else◌, length, set, get_elem?,
}
use ishizue.Base.Last.{swap_remove}
use ishizue.Status.{Status, status_ok, invalid_arg, invalid_dmabuf, resource_limit, access_denied}
use ishizue.Consent.{Entry, capture_check_consent}
use ishizue.Render.Buffers.{Desc}

-- An entry of `s_capture`.
pub record Capture : Type 0 where
  pub out : ℕ
  pub dmabuf_fd : ℕ
  pub desc : Desc
  pub active : Bool
  pub owning_conn : ℕ

-- The first `s_capture_count` entries of the table, and the consent table.
pub record Captures : Type 0 where
  pub table : List Capture
  pub grants : List Entry

-- ISZ_CAPTURE_MAX.
abbrev pub max_captures : ℕ
max_captures = 8

-- `capture_find`, from index `i` on.
find_from : ℕ → ℕ → List Capture → Option ℕ
find_from out i [] = none
find_from out i (e ∷ es) =
    let rest = find_from out (i + 1) es in if e.out == out && e.active then some i else rest

capture_find : ℕ → List Capture → Option ℕ
unfolding find_from
capture_find out es = find_from out 0 es

-- `isz_capture_set_owning_conn` and `isz_capture_get_owning_conn`.
tag : List Capture → ℕ → Option Capture → List Capture
tag es i none = es
tag es i (some e) = set es i e

with_conn : ℕ → Option Capture → Option Capture
with_conn conn none = none
with_conn conn (some e) = some (record e { owning_conn = conn })

set_owner_at : List Capture → ℕ → Option ℕ → List Capture
unfolding tag with_conn
set_owner_at es conn none = es
set_owner_at es conn (some i) = tag es i (with_conn conn (get_elem? es i))

pub set_owning_conn : List Capture → ℕ → ℕ → List Capture
unfolding set_owner_at
set_owning_conn es out conn = if out == 0 then es else set_owner_at es conn (capture_find out es)

owner_of : Option Capture → ℕ
owner_of none = 0
owner_of (some e) = e.owning_conn

owner_at : List Capture → Option ℕ → ℕ
unfolding owner_of
owner_at es none = 0
owner_at es (some i) = owner_of (get_elem? es i)

get_owning_conn : List Capture → ℕ → ℕ
unfolding owner_at
get_owning_conn es out = if out == 0 then 0 else owner_at es (capture_find out es)

-- The status, the descriptors that are closed, and the state.
pub record Started : Type 0 where
  pub status : Status
  pub closed : List ℕ
  pub state : Captures

-- `isz_output_capture_start`, for an output of the server `srv`, with a descriptor and a description.
start_with : Captures → ℕ → ℕ → Desc → Started
start_with st out fd desc =
    if leb max_captures (length st.table)
    then record { status = resource_limit; closed = fd ∷ []; state = st }
    else record {
      status = status_ok;
      closed = [];
      state = record st {
        table =
            st.table
            ++ record { out = out; dmabuf_fd = fd; desc = desc; active = true; owning_conn = 0 }
              ∷ [];
      };
    }

start_new : Captures → ℕ → ℕ → Desc → Option ℕ → Started
unfolding start_with
start_new st out fd desc none = start_with st out fd desc
start_new st out fd desc (some i) = record { status = invalid_arg; closed = fd ∷ []; state = st }

start_admitted : Captures → ℕ → ℕ → Desc → Bool × List Entry → Started
unfolding start_new
start_admitted st out fd desc (false, grants) = record {
  status = access_denied;
  closed = fd ∷ [];
  state = record st { grants = grants };
}
start_admitted st out fd desc (true, grants) =
    start_new (record st { grants = grants }) out fd desc (capture_find out st.table)

pub capture_start : Captures → ℕ → ℕ → ℕ → Desc → ℕ → Started
unfolding start_admitted
capture_start st srv out fd desc now =
    if out == 0 || srv == 0
    then record { status = invalid_arg; closed = fd ∷ []; state = st }
    else start_admitted st out fd desc (capture_check_consent st.grants srv out now)

-- A message CAPTURE_DONE: the connection, the output and the descriptor that goes with it.
pub record CaptureDone : Type 0 where
  pub conn : ℕ
  pub out : ℕ
  pub fd : ℕ

-- `isz_render_send_capture_done`.
send_capture_done : List Capture → ℕ → ℕ → Option CaptureDone
unfolding get_owning_conn
send_capture_done es out fd =
    let conn = get_owning_conn es out in
    if out == 0 || conn == 0 then none else some (record { conn = conn; out = out; fd = fd })

pub record Stopped : Type 0 where
  pub status : Status
  pub sent : Option CaptureDone
  pub table : List Capture

-- `isz_output_capture_stop`; the entry is off the table before the message is built.
stop_entry : List Capture → ℕ → ℕ → Option Capture → Stopped
unfolding send_capture_done
stop_entry es out i none = record { status = status_ok; sent = none; table = es }
stop_entry es out i (some e) =
    let left = swap_remove es i in
    record { status = status_ok; sent = send_capture_done left out e.dmabuf_fd; table = left }

stop_at : List Capture → ℕ → Option ℕ → Stopped
unfolding stop_entry
stop_at es out none = record { status = invalid_arg; sent = none; table = es }
stop_at es out (some i) = stop_entry es out i (get_elem? es i)

pub capture_stop : List Capture → ℕ → Stopped
unfolding stop_at
capture_stop es out =
    if out == 0
    then record { status = invalid_arg; sent = none; table = es }
    else stop_at es out (capture_find out es)
