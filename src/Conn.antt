-- ===== src/Conn.antt =====
-- src/protocol/isz_conn.h and isz_conn.c: one client connection, with its outbound queue and its
-- object table. The kernel and the allocator are parameters: the result of a `sendmsg`, whether
-- `malloc` finds memory, and what each `dup` returns. What leaves through the socket and which
-- descriptors are closed is recorded in the results.
pub mod Queue
mod Terms
pub mod Objects
pub mod Handshake
pub mod Steady
mod Tests
use ishizue.Base.{
  ℕ, suc, ◌+◌, ◌-◌, Bool, true, false, Option, none, some, List, [], ◌∷◌, ◌++◌, leb, ◌==◌,
  if◌then◌else◌, length, drop,
}
use ishizue.Status.{
  Status, status_ok, commit_pending, client_disconnected, client_too_slow, invalid_arg, no_memory,
}
use ishizue.Protocol.{ok, err, max_message, max_fds, encode, bytes_of}
use ishizue.Protocol.Recv.{RecvState, init}
use ishizue.Protocol.Socket.{SendResult, Sent, sent, would_block, send_error, send_frame, cut_of}
use ishizue.Base.Bytes.{put_u32_le}
use ishizue.Protocol.Payload.{overwrite}

-- `struct isz_msg_node`: an encoded frame with its own copies of the descriptors, for eight of which
-- it has room. The field `sent`
-- of the source is always 0, and `total` is the frame's length.
pub record Node : Type 0 where
  pub frame : List ℕ
  pub fds : List ℕ

-- `enum isz_conn_object_kind`.
pub data Kind : Type 0 where
  object_none object_surface object_buffer object_output object_seat : Kind

-- `struct isz_conn_object_entry`; a handle is the number of an object, never NULL.
pub record Entry : Type 0 where
  pub id : ℕ
  pub handle : ℕ
  pub kind : Kind

-- `struct isz_conn`. The linked list from `send_head` to `send_tail` is `queue`, and the array
-- `objects[0 .. objects_count)` is `objects`.
pub record Conn : Type 0 where
  pub fd : ℕ
  pub recv_state : RecvState
  pub version : ℕ
  pub allowlisted : Bool
  pub handshake_done : Bool
  pub dead : Bool
  pub queue : List Node
  pub queued_events : ℕ
  pub objects : List Entry
  pub objects_cap : ℕ
  pub next_object_id : ℕ

-- ISZ_MAX_EVENTS_PER_CLIENT.
abbrev pub max_events : ℕ
max_events = 1024

-- `isz_conn_create`, where `malloc` succeeds.
abbrev pub create : ℕ → Conn
create fd = record {
  fd = fd;
  recv_state = init;
  version = 0;
  allowlisted = false;
  handshake_done = false;
  dead = false;
  queue = [];
  queued_events = 0;
  objects = [];
  objects_cap = 0;
  next_object_id = 1;
}

-- The `dup` calls of `isz_msg_node_alloc`: the copies, or -1 with those that are closed again.
dup_all : List ℕ → List (Option ℕ) → List ℕ → Option (List ℕ) × List ℕ
dup_all [] ds acc = (some acc, [])
dup_all (fd ∷ fds) [] acc = (none, acc)
dup_all (fd ∷ fds) (none ∷ ds) acc = (none, acc)
dup_all (fd ∷ fds) (some d ∷ ds) acc = dup_all fds ds (acc ++ d ∷ [])

-- What the system does during one call of `isz_conn_send`.
pub record Env : Type 0 where
  pub sendmsg : SendResult
  pub malloc_ok : Bool
  pub dups : List (Option ℕ)

-- What a call returns: the status, the connection, the messages that left through the socket in
-- full, the descriptors that it closed, and what left of a message that the socket cut off.
pub record Outcome : Type 0 where
  pub status : Status
  pub conn : Conn
  pub wire : List Node
  pub closed : List ℕ
  pub cut : List ℕ

abbrev pub outcome : Status → Conn → List Node → List ℕ → Outcome
outcome s c w fds = record { status = s; conn = c; wire = w; closed = fds; cut = [] }

-- A hard error of the socket: the connection is dead.
abbrev pub cut_off : Conn → List ℕ → Outcome
cut_off c bytes = record {
  status = client_disconnected;
  conn = record c { dead = true };
  wire = [];
  closed = [];
  cut = bytes;
}

-- `isz_msg_node_alloc` with its copies: `fds` of the node has room for eight of them, and no test
-- stops more, which are written behind it, over the first bytes of the frame. What is written past
-- the end of the frame is not modelled.
int_bytes : List ℕ → List ℕ
int_bytes [] = []
int_bytes (fd ∷ fds) = put_u32_le fd ++ int_bytes fds

new_node : List ℕ → List ℕ → Node
unfolding int_bytes
new_node buf fds = record { frame = overwrite buf 0 (int_bytes (drop max_fds fds)); fds = fds }

-- Append the node, and count it.
push_node : Conn → Node → Conn
push_node c n = record c { queue = c.queue ++ n ∷ []; queued_events = c.queued_events + 1 }

link_node : Conn → List ℕ → Option (List ℕ) × List ℕ → Outcome
unfolding push_node new_node
link_node c buf (none, closed) = outcome no_memory (record c { dead = true }) [] closed
link_node c buf (some fds, closed) = outcome status_ok (push_node c (new_node buf fds)) [] []

-- The label `enqueue`, with `isz_msg_node_alloc`.
enqueue : Conn → Env → List ℕ → List ℕ → Outcome
unfolding link_node
enqueue c env buf fds =
    if leb max_events c.queued_events
    then outcome client_too_slow (record c { dead = true }) [] []
    else if env.malloc_ok
    then link_node c buf (dup_all fds env.dups [])
    else outcome no_memory (record c { dead = true }) [] []

-- What follows the direct `isz_proto_send_frame`.
after_direct : Conn → Env → List ℕ → ℕ → List ℕ → Sent → Outcome
unfolding enqueue
after_direct c env buf total fds (sent n) =
    if n == total
    then outcome status_ok c (record { frame = buf; fds = fds } ∷ []) []
    else if n == 0
    then enqueue c env buf fds
    else cut_off c []
after_direct c env buf total fds would_block = enqueue c env buf fds
after_direct c env buf total fds (send_error e) = cut_off c (cut_of buf (send_error e) env.sendmsg)

-- Directly if nothing is queued, else behind the queue.
send_or_queue : Conn → Env → List ℕ → ℕ → Option (List ℕ) → List Node → Outcome
unfolding after_direct enqueue
send_or_queue c env buf total fds [] =
    after_direct c env buf total (bytes_of fds)
      (send_frame total fds (length (bytes_of fds)) env.sendmsg)
send_or_queue c env buf total fds (n ∷ ns) = enqueue c env buf (bytes_of fds)

-- `isz_conn_send`; `n_fds` is the number of descriptors behind `fds`.
pub send : Conn → Env → ℕ → Option (List ℕ) → ℕ → Option (List ℕ) → Outcome
unfolding send_or_queue
send c env msg_id payload payload_len fds =
    if c.dead
    then outcome client_disconnected c [] []
    else elim (encode max_message msg_id payload payload_len) [
      | err e ↦ outcome invalid_arg c [] []
      | ok (total, buf) ↦ send_or_queue c env buf total fds c.queue
    ]

-- The head is popped and counted down.
pop_node : Conn → List Node → Conn
pop_node c rest = record c { queue = rest; queued_events = c.queued_events - 1 }

-- One message more on the wire, and its copies closed.
with_sent : Node → Outcome → Outcome
with_sent n o = record o { wire = n ∷ o.wire; closed = n.fds ++ o.closed }

-- The loop of `isz_conn_drain`, at the queue from `send_head` on, with the results of the
-- `sendmsg` calls to come; past their end a call would block.
drain_from : Conn → List Node → List SendResult → Outcome
unfolding pop_node with_sent
drain_from c [] ks = outcome status_ok c [] []
drain_from c (n ∷ rest) [] = outcome commit_pending c [] []
drain_from c (n ∷ rest) (k ∷ ks) =
    elim (send_frame (length n.frame) (some n.fds) (length n.fds) k) [
      | would_block ↦ outcome commit_pending c [] []
      | send_error e ↦ cut_off c (cut_of n.frame (send_error e) k)
      | sent m ↦ with_sent n (drain_from (pop_node c rest) rest ks)
    ]

-- `isz_conn_drain`.
pub drain : Conn → List SendResult → Outcome
unfolding drain_from
drain c ks = if c.dead then outcome client_disconnected c [] [] else drain_from c c.queue ks

-- The descriptors that the queued messages hold.
queue_fds : List Node → List ℕ
queue_fds [] = []
queue_fds (n ∷ ns) = n.fds ++ queue_fds ns

-- `isz_conn_close`: the descriptors that it closes. The connection is freed.
pub close : Conn → List ℕ
unfolding queue_fds
close c = c.fd ∷ (queue_fds c.queue ++ c.recv_state.pending_fds)
