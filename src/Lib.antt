-- ===== src/Lib.antt =====
-- Ishizue, a display server library: a model of its wire protocol, its client connections, the
-- opening handshake, the requests of clients on their surfaces, the clipboard, selections and
-- captures, screen capture and its consent table, the allowlist of processes, the surfaces, buffers, plane slots and
-- commits, the backend state machine with the headless backend, of the listeners, of the thread
-- pool, of the window list, layout and bindings of the example compositor tinyisz, and of the X11
-- bridge's atoms and messages.
--
-- How the parts interact: a client connection reads frames with the reassembling reader and
-- writes frames with the encoder, directly or through its outbound queue; the handshake runs over
-- the writers, the queue and the connection magic; a request finds its surface in the object
-- table of the connection, changes the surfaces, and answers through the queue; a commit of an
-- output takes the plane slots for its surfaces, hands them to the backend and gives back what it
-- took when the backend fails; a surface holds references to its buffers and counts for the idle
-- inhibition of its output; a capture asks the consent table, and takes its descriptor from the
-- request that starts it; listeners hang in intrusive lists, through which an event reaches them.
--
--   Base        shared names, Boolean tests, lists, bytes and integers over the native numbers
--   Protocol    src/protocol/isz_protocol.{h,c}: `encode`, `decode`; below it `Payload` (the field
--               cursor), `Socket` (writers, magic), `Recv` (`isz_proto_recv_state_read` as `read`)
--   Status      include/ishizue/isz.h, src/util/isz_errors.c: the error codes
--   Allowlist   src/isz_allowlist.c: `add_binary`, `add_cgroup`, `allowlist_check`
--   Conn        src/protocol/isz_conn.{h,c}: `send`, `drain`, `close`; below it `Objects` (the object
--               table) and `Handshake` (src/protocol/isz_handshake.c)
--   Consent     src/isz_capture_consent.c: `grant`, `check`
--   Capture     src/render/isz_capture.c: `capture_start`, `capture_stop`; `Requests`: their handlers in
--               src/isz_client_dispatch.c
--   Events      `IntrusiveList`: src/util/isz_list.h; `Listeners`: src/isz_listeners.c
--   Render      `Slots`: src/render/isz_plane_slots.c, `assign`, `resv_clear`; `Buffers`:
--               src/buffer/isz_buffer.c, `import_buffer`, `let_go`, with the import `Cache`; `Surfaces`:
--               src/render/isz_surface.c, with `Operations`, `Setters` and the sequences `Run`;
--               `Commit`: src/render/isz_commit.c, `commit`
--   Backend     src/backend/isz_backend.c: `create_backend`, `commit_backend`, `read_backend`; below
--               it `Headless` (src/backend/isz_headless.c)
--   Dispatch    src/isz_client_dispatch.c: `Parse` reads the payloads, `Handlers` has a function for
--               each request, `Handlers.Switch` is `handle_client_message`; `Clipboard` and
--               `Selection` are apart
--   ThreadPool  src/util/isz_thread_pool.c: `submit_work`, `run_worker`, and the relation `PoolStep`
--   Tinyisz     tinyisz/window.c, tinyisz/layout.c, tinyisz/input.c: `Windows`, `Layout`, `Bindings`
--   X11bridge   x11bridge/x11_atoms.c: `intern`, `get_name`; `Proto`: x11bridge/x11_proto.c, the events,
--               the replies and the setup
--
-- State is passed explicitly: a record for each C struct, and functions that return the new state
-- with what they did: bytes written, descriptors closed, calls made. The system is a parameter:
-- the results of the socket calls to come are a list, which the loops consume one by one, so that
-- they end with the list, and past its end a call blocks. Allocation and `dup` succeed or fail as
-- a parameter says, the clock is an argument, and pointers to objects are numbers, 0 for NULL. A
-- 32-bit value keeps its wrap-around; sizes are unbounded where the code has checked them. The int
-- arithmetic of tinyisz is that of the code where the results fit an int, which the code does not
-- check: the theorem on the tiling has this as a hypothesis. A node of the outbound queue has room
-- for eight descriptors; the copies of more are written over the frame behind them, as in the
-- code, and what goes past the end of the frame is left out. A freed buffer stays in the model
-- with the count of its frees, so that a use or a second free would show. The operations of a
-- backend are a parameter under the contract that isz_backend.h documents. The loops on fuel,
-- which bring a negative index back into range in tinyisz and double the capacity of an array, are
-- given one turn for each unit that is missing, and each turn adds one at least; the loops over a
-- ring of listeners are given one turn for each listener and one more, the loop over a cgroup file
-- one for each byte and one more.
--
-- Not modelled: the DRM backend, input devices, the fences of buffers, the requests of clients on
-- outputs and seats, on commits and the dismissal of a popup, the start of the thread pool when a
-- thread fails, and the X11 bridge but its atoms and messages, which are left out for their size;
-- logging, file and process handling, which are input and output only.
pub mod Allowlist
pub mod Backend
pub mod Base
pub mod Capture
pub mod Conn
pub mod Consent
pub mod Dispatch
pub mod Events
pub mod Protocol
pub mod Render
pub mod Status
pub mod ThreadPool
pub mod Tinyisz
pub mod X11bridge
