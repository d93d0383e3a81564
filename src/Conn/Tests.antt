-- ===== src/Conn/Tests.antt =====
-- src/protocol/isz_conn.c and isz_handshake.c at concrete inputs.
use ishizue.Base.{ℕ, ◌≡◌, refl, true, some, none, List, [], ◌∷◌, ◌++◌, arith, All}
use ishizue.Base.Bytes.{put_u32_le, get_u32_le, put_u32_be}
use ishizue.Status.{status_ok, commit_pending, client_too_slow}
use ishizue.Protocol.{ok, encode, max_message, eagain}
use ishizue.Protocol.Frame.{frame}
use ishizue.Protocol.Socket.{
  wrote, refused, bytes, send_frame, send_all, send_magic, recv_version_reply,
}
use ishizue.Protocol.Payload.{overwrite}
use ishizue.Conn.{Conn, Env, create, dup_all, send, drain, close, object_surface, object_buffer}
use ishizue.Conn.Queue.{
  IsValid, Accepts, Drains, frames, sends, drains, Op, FitsNode, run, send-Accepts, drain-Drains,
  run-frames,
}
use ishizue.Conn.Objects.{find, find_index, of_kind, register, unregister, lookup}
use ishizue.Conn.Objects.Map
use ishizue.Conn.Objects.Map.{Registers, Unregisters, register-Registers, unregister-Unregisters}
use ishizue.Conn.Handshake.{HandshakeEnv, Ends, handshake_send, handshake, handshake-Ends}

abbrev fresh : Conn
fresh = create 5

-- A socket that is full; one that takes the nine bytes of a message with a payload of one byte.
abbrev full_socket : Env
full_socket = record { sendmsg = refused eagain; malloc_ok = true; dups = [] }

abbrev ready_socket : Env
ready_socket = record { sendmsg = wrote 9; malloc_ok = true; dups = [] }

abbrev ping : List ℕ
ping = 4 ∷ []

-- One message is queued, a second stands behind it although the socket is ready, both drain.
abbrev script : List Op
script =
    sends full_socket 7 (some ping) 1 none
    ∷ sends ready_socket 8 (some ping) 1 none
    ∷ drains (wrote 9 ∷ wrote 9 ∷ [])
    ∷ sends ready_socket 9 (some ping) 1 none
    ∷ []

run-script : frames (run fresh script).wire ≡ frame 7 ping ∷ frame 8 ping ∷ frame 9 ping ∷ []
unfolding run send drain send_frame encode put_u32_le dup_all overwrite
run-script = refl

-- The cap: the 1025th queued message kills the connection.
send_too_slow :
    (send
      (record fresh { queue = record { frame = []; fds = [] } ∷ []; queued_events = 1024 })
      ready_socket
      7
      none
      0
      none).status
    ≡ client_too_slow
unfolding send encode
send_too_slow = refl

close_all :
    close (record fresh {
      queue = record { frame = []; fds = 6 ∷ [] } ∷ record { frame = []; fds = 7 ∷ 8 ∷ [] } ∷ [];
    })
    ≡ 5 ∷ 6 ∷ 7 ∷ 8 ∷ []
unfolding close
close_all = refl

fresh-IsValid : IsValid fresh
fresh-IsValid = record { counted = refl; capped = omega arith }

script_fits : All FitsNode script
script_fits = (omega arith, (omega arith, (tt, (omega arith, tt))))

run-frames_example :
    let r = run fresh script in
    (frames (r.wire ++ r.last.queue) ≡ frames fresh.queue ++ r.accepted) × IsValid r.last
run-frames_example = run-frames fresh script fresh-IsValid script_fits

encode_one : encode max_message 7 (some ping) 1 ≡ ok (9, frame 7 ping)
unfolding encode put_u32_le
encode_one = refl

send-Accepts_example : Accepts fresh 9 (frame 7 ping) (send fresh full_socket 7 (some ping) 1 none)
send-Accepts_example =
    send-Accepts fresh full_socket 7 (some ping) 1 none 9 (frame 7 ping) fresh-IsValid refl
      (omega arith) encode_one

-- Two messages are queued, and the socket takes one.
abbrev waiting : Conn
waiting = record fresh {
  queue =
      record { frame = frame 7 ping; fds = 6 ∷ [] }
      ∷ record { frame = frame 8 ping; fds = [] }
      ∷ [];
  queued_events = 2;
}

drain_one : (drain waiting (wrote 9 ∷ refused eagain ∷ [])).status ≡ commit_pending
unfolding drain send_frame put_u32_le
drain_one = refl

drain-Drains_example : Drains waiting.queue (drain waiting (wrote 9 ∷ refused eagain ∷ []))
drain-Drains_example =
    drain-Drains waiting (wrote 9 ∷ refused eagain ∷ [])
      (record { counted = refl; capped = omega arith }) refl

empty-IsValid : Map.IsValid fresh
unfolding find
empty-IsValid = record {
  distinct = tt;
  fresh = λ id h. refl;
  no_sentinel = refl;
  next_pos = omega arith;
  room = omega arith;
}

register-Registers_example :
    Registers fresh true 77 object_surface (register fresh true 77 object_surface)
register-Registers_example =
    register-Registers fresh true 77 object_surface empty-IsValid (omega arith)

abbrev registered : Conn
registered = (register fresh true 77 object_surface).1

unregister-Unregisters_example : Unregisters registered 1 (unregister registered 1)
unregister-Unregisters_example = unregister-Unregisters registered 1 (register-Registers_valid)
  where
    register-Registers_valid : Map.IsValid registered
    register-Registers_valid =
        (register-Registers fresh true 77 object_surface empty-IsValid (omega arith)).0

-- Three objects; the first goes, the last moves into its place, and both others are found.
objects_move :
    let c = (register (register registered true 78 object_buffer).1 true 79 object_surface).1 in
    let d = unregister c 1 in
    (lookup d 1 object_surface ≡ none)
    × (lookup d 2 object_buffer ≡ some 78)
    × (lookup d 3 object_surface ≡ some 79)
    × (lookup d 3 object_buffer ≡ none)
unfolding register unregister lookup find find_index of_kind
objects_move = (refl, refl, refl, refl)

-- A client that replies version 1.
abbrev willing : HandshakeEnv
willing = record {
  magic_sends = wrote 8 ∷ [];
  version_recvs = bytes (1 ∷ 0 ∷ 0 ∷ 0 ∷ []) ∷ [];
  capabilities = record {
    env = record { sendmsg = wrote 20; malloc_ok = true; dups = [] };
    drains = [];
  };
  done = record { env = record { sendmsg = wrote 8; malloc_ok = true; dups = [] }; drains = [] };
}

handshake_succeeds : (handshake fresh willing).status ≡ some status_ok
unfolding handshake handshake_send send_magic send_all recv_version_reply put_u32_be put_u32_le
    get_u32_le send drain encode send_frame
handshake_succeeds = refl

handshake-Ends_example : let h = handshake fresh willing in Ends willing h.status h.conn
handshake-Ends_example = handshake-Ends fresh willing refl
