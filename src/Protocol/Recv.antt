-- ===== src/Protocol/Recv.antt =====
-- src/protocol/isz_protocol.c, `isz_proto_recv_state_read` and its helpers: the reader that
-- reassembles frames from a stream socket and collects the descriptors that come with them.
-- The kernel is a parameter: the list of the results of the `recvmsg` calls to come, in order. Past
-- its end a call would block. The prefix `buf[0 .. have)` is the list `buf`; `n_pending_fds` is
-- the length of `pending_fds`. A `close` is recorded in the result.
pub mod Bounds
pub mod Descriptors
pub mod Messages
pub mod Stream
pub mod Steady
mod Tests
use ishizue.Base.{
  ℕ, ◌+◌, ◌-◌, ◌≡◌, refl, inl, inr, Bool-cases, Bool, true, false, Option, none, some, List, [],
  ◌∷◌, ◌++◌, ltb, leb, ◌==◌, if◌then◌else◌, length, take, drop,
}
use ishizue.Base.Bytes.{get_u32_le}
use ishizue.Protocol.{
  Errno, emsgsize, ebadmsg, eintr, eagain, ewouldblock, other_errno, max_message, max_fds,
  word_size,
}

-- `struct isz_proto_recv_state`.
pub record RecvState : Type 0 where
  pub buf : List ℕ
  pub pending_fds : List ℕ
  pub in_progress : Bool

-- `isz_proto_recv_state_init`.
abbrev pub init : RecvState
init = record { buf = []; pending_fds = []; in_progress = false }

-- `isz_proto_recv_state_discard`: the cleared state and the descriptors that it closes.
pub discard : RecvState → RecvState × List ℕ
discard s = (init, s.pending_fds)

-- A control message: SCM_RIGHTS with its descriptors, or one of another kind.
pub data Cmsg : Type 0 where
  rights : List ℕ → Cmsg
  other_kind : Cmsg

-- What one `recvmsg` returns: bytes (none at the end of the stream), MSG_CTRUNC, control messages.
pub data Outcome : Type 0 where
  arrived : List ℕ → Bool → List Cmsg → Outcome
  failed : Errno → Outcome

-- The descriptors that `isz_extract_fds` stores and those that it closes at once, before its last
-- test: `count` are stored already.
collect : ℕ → List ℕ → List ℕ × List ℕ
collect room [] = ([], [])
collect room (fd ∷ fds) =
    let (kept, closed) = collect (room - 1) fds in
    if ltb 0 room then (fd ∷ kept, closed) else (kept, fd ∷ closed)

abbrev pub fds_of : List Cmsg → List ℕ
fds_of [] = []
fds_of (rights fds ∷ rest) = fds ++ fds_of rest
fds_of (other_kind ∷ rest) = fds_of rest

-- `isz_extract_fds`: the descriptors stored (`none` for -1), and those closed.
pub extract_fds : List Cmsg → ℕ → Option (List ℕ) × List ℕ
unfolding collect
extract_fds cmsgs cap =
    let (kept, closed) = collect cap (fds_of cmsgs) in
    if ltb 0 (length closed) then (none, closed ++ kept) else (some kept, [])

-- What `isz_proto_recv_with_fds` returns: the bytes and descriptors of one `recvmsg` (no bytes when
-- the peer has closed), or -1 with errno; with the descriptors that it closes.
pub data OneShot : Type 0 where
  one_message : List ℕ → List ℕ → OneShot
  one_error : Errno → List ℕ → OneShot

one_extracted : List ℕ → Option (List ℕ) × List ℕ → OneShot
one_extracted bytes (some fds, closed) = one_message bytes fds
one_extracted bytes (none, closed) = one_error emsgsize closed

one_outcome : Outcome → OneShot
unfolding one_extracted
one_outcome (failed e) = one_error e []
one_outcome (arrived bytes ctrunc cmsgs) =
    if length bytes == 0
    then one_message [] []
    else if ctrunc
    then one_error emsgsize []
    else one_extracted bytes (extract_fds cmsgs max_fds)

-- `isz_proto_recv_with_fds`.
pub recv_with_fds : ℕ → Outcome → OneShot
unfolding one_outcome
recv_with_fds buf_len o = if ltb buf_len max_message then one_error emsgsize [] else one_outcome o

-- A complete message, as the caller gets it: `out_buf` holds the whole frame.
pub record Message : Type 0 where
  pub total : ℕ
  pub msg_id : ℕ
  pub payload_len : ℕ
  pub out_buf : List ℕ
  pub fds : List ℕ

pub data Parsed : Type 0 where
  more : Parsed
  fatal : Errno → Parsed
  complete : Message → RecvState → Parsed

-- The message of `total` bytes at the front of the buffer, and the remainder shifted down.
take_message : RecvState → ℕ → Parsed
take_message s len_field =
    let total = word_size + len_field in
    complete
      (record {
        total = total;
        msg_id = get_u32_le (drop 4 s.buf);
        payload_len = len_field - word_size;
        out_buf = take total s.buf;
        fds = s.pending_fds;
      })
      (record {
        buf = drop total s.buf;
        pending_fds = [];
        in_progress = ltb 0 (length s.buf - total);
      })

parse_body : RecvState → ℕ → Parsed
unfolding take_message
parse_body s len_field =
    if ltb len_field word_size
    then fatal ebadmsg
    else if ltb (max_message - word_size) len_field
    then fatal emsgsize
    else if leb (word_size + len_field) (length s.buf)
    then take_message s len_field
    else more

-- The first half of the loop's body: try to parse a message from what is there.
pub parse : RecvState → Parsed
unfolding parse_body
parse s = if leb word_size (length s.buf) then parse_body s (get_u32_le s.buf) else more

-- What one call of the reader returns.
pub data Reply : Type 0 where
  got : Message → Reply
  wait : Reply
  error : Errno → Reply
  peer_closed : Reply

-- The second half of the loop's body, for one result of `recvmsg`: go round again with a new
-- state, or return. The last field holds the closed descriptors.
pub data Step : Type 0 where
  again : RecvState → Step
  stop : Reply → RecvState → List ℕ → Step

recv_error : RecvState → Errno → Step
recv_error s eintr = again s
recv_error s eagain = stop wait s []
recv_error s ewouldblock = stop wait s []
recv_error s e = stop (error e) s []

-- Stash the descriptors behind those that are pending.
stash : RecvState → Option (List ℕ) × List ℕ → Step
stash s (some fds, closed) = again (record s { pending_fds = s.pending_fds ++ fds })
stash s (none, closed) = stop (error emsgsize) (record s { pending_fds = [] }) closed

absorb : RecvState → List ℕ → Bool → List Cmsg → Step
unfolding stash
absorb s bytes ctrunc cmsgs =
    let s' = record s { buf = s.buf ++ bytes; in_progress = true } in
    if ctrunc
    then stop (error emsgsize) s' []
    else stash s' (extract_fds cmsgs (max_fds - length s.pending_fds))

pub receive : RecvState → Outcome → Step
unfolding recv_error absorb
receive s (failed e) = recv_error s e
receive s (arrived bytes ctrunc cmsgs) =
    if length bytes == 0 then stop peer_closed s [] else absorb s bytes ctrunc cmsgs

-- A finished call: the reply, the state, the closed descriptors and the results not yet used.
pub record Done : Type 0 where
  pub reply : Reply
  pub state : RecvState
  pub closed : List ℕ
  pub rest : List Outcome

abbrev finish : List Outcome → Reply → RecvState → List ℕ → Done
finish rest r s closed = record { reply = r; state = s; closed = closed; rest = rest }

-- Buffer full but no complete message.
abbrev pub is_full : RecvState → Bool
is_full s = max_message - length s.buf == 0

-- One turn of the loop, at what `parse` found; `refill` is the part behind the test for a full
-- buffer, which runs only if no message is complete.
pub turn : RecvState → List Outcome → (Unit {0} → Done) → Parsed → Done
turn s outs refill (complete m s') = finish outs (got m) s' []
turn s outs refill (fatal e) = finish outs (error e) s []
turn s outs refill more = elim (is_full s) [
  | true ↦ finish outs (error emsgsize) s []
  | false ↦ refill tt
]

-- Go round again, or return.
pub resume : (RecvState → Done) → List Outcome → Step → Done
resume k outs (again s') = k s'
resume k outs (stop r s' closed) = finish outs r s' closed

-- The `for (;;)` loop.
pub loop : RecvState → List Outcome → Done
loop s [] = turn s [] (λ _. finish [] wait s []) (parse s)
loop s (o ∷ outs) =
    turn s (o ∷ outs) (λ _. resume (λ s'. loop s' outs) outs (receive s o)) (parse s)

-- `isz_proto_recv_state_read`.
pub read : ℕ → RecvState → List Outcome → Done
read buf_len s outs =
    if ltb buf_len max_message then finish outs (error emsgsize) s [] else loop s outs

-- The ways through one turn, for proofs by induction on the results of `recvmsg`.
pub turn_cases {ℓ} :
    (P : Done → Type ℓ) (s : RecvState) (outs : List Outcome) (refill : Unit {0} → Done)
    (p : Parsed)
    → ((m : Message) (s' : RecvState)
        → p ≡ complete m s'
        → P (record { reply = got m; state = s'; closed = []; rest = outs }))
    → ((e : Errno)
        → p ≡ fatal e
        → P (record { reply = error e; state = s; closed = []; rest = outs }))
    → (p ≡ more
        → is_full s ≡ true
        → P (record { reply = error emsgsize; state = s; closed = []; rest = outs }))
    → (p ≡ more → is_full s ≡ false → P (refill tt))
    → P (turn s outs refill p)
unfolding turn
turn_cases P s outs refill (complete m s') a b c d = a m s' refl
turn_cases P s outs refill (fatal e) a b c d = b e refl
turn_cases P s outs refill more a b c d = elim (Bool-cases (is_full s)) [
  | inl e ↦ rw (e, turn) (c refl e)
  | inr e ↦ rw (e, turn) (d refl e)
]

pub resume_cases {ℓ} :
    (P : Done → Type ℓ) (k : RecvState → Done) (outs : List Outcome) (st : Step)
    → ((s' : RecvState) → st ≡ again s' → P (k s'))
    → ((r : Reply) (s' : RecvState) (closed : List ℕ)
        → st ≡ stop r s' closed
        → P (record { reply = r; state = s'; closed = closed; rest = outs }))
    → P (resume k outs st)
unfolding resume
resume_cases P k outs (again s') a b = a s' refl
resume_cases P k outs (stop r s' closed) a b = b r s' closed refl
