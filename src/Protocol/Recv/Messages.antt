-- ===== src/Protocol/Recv/Messages.antt =====
-- src/protocol/isz_protocol.c, `isz_proto_recv_state_read` called again and again, as the
-- dispatcher does on a readable socket: a sequence of frames is read back message by message.
use ishizue.Base.{
  ℕ, zero, suc, ◌+◌, ◌-◌, ◌≤◌, ◌≡◌, refl, sym, ap, ◌∙◌, List, [], ◌∷◌, ◌++◌, arith, length, drop,
  length-append, All,
}
use mathlib.Core.Path.{ap₂}
use ishizue.Base.Bytes.{IsU32}
use ishizue.Protocol.{message, decode, max_message, max_fds, header_size}
use ishizue.Protocol.Frame.{frame, decode-frame, length-frame}
use ishizue.Protocol.Recv.{
  RecvState, Outcome, Message, Reply, got, wait, error, peer_closed, Done, read,
}
use ishizue.Protocol.Recv.Stream.{stream}
use ishizue.Protocol.Recv.Steady.{IsSteady, IsExact, Exact, arriving_fds, handed_out, read-IsExact}

-- A message's id and payload.
abbrev pub content : Message → ℕ × List ℕ
content m = (m.msg_id, drop header_size m.out_buf)

-- The messages of at most `n` calls, up to the first call that returns none.
pub reads : ℕ → ℕ → RecvState → List Outcome → List (ℕ × List ℕ)
reads zero buf_len s outs = []
reads (suc n) buf_len s outs =
    let d = read buf_len s outs in
    let more = reads n buf_len d.state d.rest in elim d.reply [ got m ↦ content m ∷ more | _ ↦ [] ]

-- What a peer writes that sends these messages.
abbrev pub written : List (ℕ × List ℕ) → List ℕ
written [] = []
written ((id, p) ∷ ms) = frame id p ++ written ms

abbrev pub IsMessage : ℕ × List ℕ → Type 0
IsMessage (id, p) = IsU32 id × (length p ≤ max_message - header_size)

drop-frame_all : (n : ℕ) (xs ys : List ℕ) → n ≡ length xs → drop n (xs ++ ys) ≡ ys
drop-frame_all zero [] ys h = refl
drop-frame_all zero (x ∷ xs) ys h = absurd (omega arith)
drop-frame_all (suc n) [] ys h = absurd (omega arith)
drop-frame_all (suc n) (x ∷ xs) ys h = drop-frame_all n xs ys (omega arith)

-- The stream begins with this message.
abbrev Begins : ℕ → List ℕ → List ℕ → Type 0
Begins id p xs = decode xs ≡ message (header_size + length p) id p

-- A stream that begins with a frame is answered with that frame's message.
answer :
    (id : ℕ) (p xs : List ℕ) (r : Reply) (s : RecvState) (rest : List Outcome)
    → Begins id p xs
    → Exact xs r s rest
    → (m : Message) × (r ≡ got m)
      × (content m ≡ (id, p))
      × (stream s rest ≡ drop (header_size + length p) xs)
answer id p xs (got m) s rest d e = (m, refl, ground arith, ground arith)
answer id p xs wait s rest d e = absurd (ground arith)
answer id p xs (error c) s rest d e = absurd (ground arith)
answer id p xs peer_closed s rest d e = absurd e

-- The descriptors still to be handed out after a call are no more than before it.
fewer_fds :
    (xs : List ℕ) (s : RecvState) (outs : List Outcome) (d : Done)
    → IsExact xs (s.pending_fds ++ arriving_fds outs) d
    → length s.pending_fds + length (arriving_fds outs) ≤ max_fds
    → length d.state.pending_fds + length (arriving_fds d.rest) ≤ max_fds
fewer_fds xs s outs d e h = omega (
  arith,
  ap length e.fds_kept,
  length-append s.pending_fds (arriving_fds outs),
  length-append (handed_out d.reply) (d.state.pending_fds ++ arriving_fds d.rest),
  length-append d.state.pending_fds (arriving_fds d.rest),
)

-- If the stream holds exactly the frames of some messages, each with a 32-bit id and at most 8184
-- bytes of payload, and arrives steadily, in whatever pieces, with at most eight descriptors in
-- all, then as many calls return exactly these messages, in order.
pub reads-written :
    (buf_len : ℕ) (ms : List (ℕ × List ℕ)) (s : RecvState) (outs : List Outcome)
    → max_message ≤ buf_len
    → All IsMessage ms
    → stream s outs ≡ written ms
    → IsSteady outs
    → length s.pending_fds + length (arriving_fds outs) ≤ max_fds
    → reads (length ms) buf_len s outs ≡ ms
unfolding reads
reads-written buf_len [] s outs big good e st h = refl
reads-written buf_len ((id, p) ∷ ms) s outs big good e st h =
    let d = read buf_len s outs in
    let x = read-IsExact buf_len s outs big st h in
    let begins : Begins id p (stream s outs) =
      rw e (decode-frame id p (written ms) good.0.1 good.0.0) in
    let (m, replied, same, left) =
      answer id p (stream s outs) d.reply d.state d.rest begins x.reply_exact in
    let onward : stream d.state d.rest ≡ written ms =
      left
      ∙ ap (drop (header_size + length p)) e
      ∙ drop-frame_all (header_size + length p) (frame id p) (written ms)
          (sym (length-frame id p)) in
    rw (replied, reads)
      (ap₂ ◌∷◌ same (
        reads-written buf_len ms d.state d.rest big good.1 onward x.still_steady
          (fewer_fds (stream s outs) s outs d x h)))
