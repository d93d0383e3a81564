-- ===== src/Protocol/Recv/Tests.antt =====
-- src/protocol/isz_protocol.c, `isz_proto_recv_state_read` at concrete inputs: message 7 with the
-- payload 1, 2 and one descriptor, which arrives in two pieces with an interruption between them.
use mathlib.Core.List.{Perm}
use ishizue.Base.{ℕ, ◌≡◌, refl, false, List, [], ◌∷◌, ◌++◌, arith}
use ishizue.Base.Bytes.{put_u32_le, get_u32_le}
use ishizue.Protocol.{emsgsize, eintr}
use ishizue.Protocol.Recv.{
  RecvState, init, discard, loop, turn, resume, receive, extract_fds, Outcome, arrived, failed,
  rights, other_kind, more, parse, got, error, read,
}
use ishizue.Protocol.Recv.Stream.{stream, Reads, read-Reads}
use ishizue.Protocol.Recv.Steady.{arriving_fds, IsExact, read-IsExact}
use ishizue.Protocol.Recv.Bounds.{IsValid, read-IsValid}
use ishizue.Protocol.Recv.Messages.{reads, reads-written}
use ishizue.Protocol.Recv.Descriptors.{read_overflow}

abbrev pieces : List Outcome
pieces =
    arrived (6 ∷ 0 ∷ 0 ∷ []) false (rights (3 ∷ []) ∷ [])
    ∷ failed eintr
    ∷ arrived (0 ∷ 7 ∷ 0 ∷ 0 ∷ 0 ∷ 1 ∷ 2 ∷ 4 ∷ []) false (other_kind ∷ [])
    ∷ []

-- The message comes out, and the byte behind it stays.
read_in_parts :
    (let d = read 8192 init pieces in d.reply)
    ≡ got (record {
      total = 10;
      msg_id = 7;
      payload_len = 2;
      out_buf = 6 ∷ 0 ∷ 0 ∷ 0 ∷ 7 ∷ 0 ∷ 0 ∷ 0 ∷ 1 ∷ 2 ∷ [];
      fds = 3 ∷ [];
    })
unfolding read loop turn resume receive parse extract_fds get_u32_le
read_in_parts = refl

discard_closes : discard (record init { pending_fds = 3 ∷ [] }) ≡ (init, 3 ∷ [])
unfolding discard
discard_closes = refl

read-Reads_example :
    let d = read 8192 init pieces in Reads (stream init pieces) d.reply d.state d.rest
read-Reads_example = read-Reads 8192 init pieces

read-IsExact_example :
    IsExact (stream init pieces) (init.pending_fds ++ arriving_fds pieces) (read 8192 init pieces)
read-IsExact_example =
    read-IsExact 8192 init pieces (omega arith) (omega arith, refl, (refl, (omega arith, refl, tt)))
      (omega arith)

init-IsValid : IsValid init
init-IsValid = record { buf_in = omega arith; fds_in = omega arith; progress = refl }

read-IsValid_example : IsValid (read 8192 init pieces).state
read-IsValid_example = read-IsValid 8192 init pieces init-IsValid (omega arith, (omega arith, tt))

-- Two messages, the second without a payload.
abbrev two : List Outcome
two =
    arrived (6 ∷ 0 ∷ 0 ∷ 0 ∷ 7 ∷ 0 ∷ 0 ∷ 0 ∷ 1 ∷ 2 ∷ 4 ∷ 0 ∷ []) false []
    ∷ arrived (0 ∷ 0 ∷ 9 ∷ 0 ∷ 0 ∷ 0 ∷ []) false []
    ∷ []

reads-written_example : reads 2 8192 init two ≡ (7, 1 ∷ 2 ∷ []) ∷ (9, []) ∷ []
unfolding put_u32_le
reads-written_example =
    reads-written 8192 ((7, 1 ∷ 2 ∷ []) ∷ (9, []) ∷ []) init two (omega arith)
      ((omega arith, omega arith), ((omega arith, omega arith), tt)) refl
      (omega arith, refl, (omega arith, refl, tt)) (omega arith)

-- Six descriptors are pending and three arrive.
abbrev six_pending : RecvState
six_pending = record init { pending_fds = 3 ∷ 4 ∷ 5 ∷ 6 ∷ 7 ∷ 8 ∷ [] }

abbrev three_more : List ℕ
three_more = 9 ∷ 10 ∷ 11 ∷ []

parse_empty : parse six_pending ≡ more
unfolding parse
parse_empty = refl

read_overflow_example :
    let d = read 8192 six_pending (arrived (6 ∷ []) false (rights three_more ∷ []) ∷ []) in
    (d.reply ≡ error emsgsize) × (d.state.pending_fds ≡ []) × Perm d.closed three_more
read_overflow_example =
    read_overflow 8192 six_pending (6 ∷ []) (rights three_more ∷ []) [] (omega arith) parse_empty
      (omega arith) (omega arith) (omega arith)
