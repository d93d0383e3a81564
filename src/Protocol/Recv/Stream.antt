-- ===== src/Protocol/Recv/Stream.antt =====
-- src/protocol/isz_protocol.c, `isz_proto_recv_state_read`: whatever pieces the bytes arrive in,
-- the reader returns the messages that the decoder finds in the stream.
use ishizue.Base.{
  ℕ, zero, suc, subst, ◌+◌, ◌-◌, ◌≡◌, refl, ap, ◌∙◌, sym, inl, inr, List, [], ◌∷◌, ◌++◌, arith, ltb,
  take, drop, take-append_le, drop-append_le, append_assoc, Bool-cases,
}
use ishizue.Base.Bytes.{get_u32_le}
use ishizue.Protocol.{decode, incomplete, bad, message, max_message, header_size}
use ishizue.Protocol.Frame.{decode-append_message, decode_bounds}
use ishizue.Protocol.Recv.{
  RecvState, Outcome, arrived, failed, Message, Parsed, more, fatal, complete, parse, Reply, got,
  wait, error, peer_closed, Step, again, stop, receive, Done, loop, read, turn_cases, resume_cases,
}

-- The bytes that the results to come deliver, and all that the reader has not handed out yet.
take_nil : (n : ℕ) → ◌≡◌ {A = List ℕ} [] (take n [])
take_nil zero = refl
take_nil (suc n) = refl

abbrev pub arriving : List Outcome → List ℕ
arriving [] = []
arriving (arrived bytes c m ∷ outs) = bytes ++ arriving outs
arriving (failed e ∷ outs) = arriving outs

abbrev pub stream : RecvState → List Outcome → List ℕ
stream s outs = s.buf ++ arriving outs

-- `parse` agrees with the decoder on the buffered bytes.
abbrev pub Agrees : List ℕ → Parsed → Type 0
Agrees buf more = decode buf ≡ incomplete
Agrees buf (fatal e) = decode buf ≡ bad e
Agrees buf (complete m s') =
    (decode buf ≡ message m.total m.msg_id (drop header_size m.out_buf))
    × (m.out_buf ≡ take m.total buf)
    × (s'.buf ≡ drop m.total buf)

drop-take : (k n : ℕ) (xs : List ℕ) → drop k (take n xs) ≡ take (n - k) (drop k xs)
drop-take zero n xs = let e : n ≡ n - 0 = omega arith in ap (λ m. take m xs) e
drop-take (suc k) zero [] = take_nil (zero - suc k)
drop-take (suc k) zero (x ∷ xs) =
    let e : 0 ≡ zero - suc k = omega arith in ap (λ m. take m (drop k xs)) e
drop-take (suc k) (suc n) [] = take_nil (suc n - suc k)
drop-take (suc k) (suc n) (x ∷ xs) =
    let e : n - k ≡ suc n - suc k = omega arith in drop-take k n xs ∙ ap (λ m. take m (drop k xs)) e

-- The payload lies behind the header in the copied frame.
payload_of_frame : (n : ℕ) (xs : List ℕ) → drop 8 (take (4 + n) xs) ≡ take (n - 4) (drop 8 xs)
payload_of_frame n xs =
    let e : 4 + n - 8 ≡ n - 4 = omega arith in
    drop-take 8 (4 + n) xs ∙ ap (λ m. take m (drop 8 xs)) e

pub parse-Agrees : (s : RecvState) → Agrees s.buf (parse s)
unfolding parse decode
parse-Agrees s = ground (arith, payload_of_frame (get_u32_le s.buf) s.buf)

-- What a finished call says of the stream `xs` that it was called at.
abbrev pub Reads : List ℕ → Reply → RecvState → List Outcome → Type 0
Reads xs (got m) s rest =
    (decode xs ≡ message m.total m.msg_id (drop header_size m.out_buf))
    × (m.out_buf ≡ take m.total xs)
    × (stream s rest ≡ drop m.total xs)
Reads xs wait s rest = (decode s.buf ≡ incomplete) × (stream s rest ≡ xs)
Reads xs (error e) s rest = Unit
Reads xs peer_closed s rest = Unit

abbrev ReadsDone : List ℕ → Done → Type 0
ReadsDone xs d = Reads xs d.reply d.state d.rest

pub complete-Reads :
    (s : RecvState) (outs : List Outcome) (m : Message) (s' : RecvState)
    → Agrees s.buf (complete m s')
    → Reads (stream s outs) (got m) s' outs
complete-Reads s outs m s' (d, o, r) =
    let b = decode_bounds s.buf d in
    (
      decode-append_message s.buf (arriving outs) d,
      o ∙ sym (take-append_le m.total s.buf (arriving outs) b.0),
      ap (λ xs. xs ++ arriving outs) r ∙ sym (drop-append_le m.total s.buf (arriving outs) b.0),
    )

-- One result of `recvmsg` loses no byte.
abbrev Receives : RecvState → Outcome → List Outcome → Step → Type 0
Receives s o outs (again s') = stream s' outs ≡ stream s (o ∷ outs)
Receives s o outs (stop (got m) s' closed) = ⊥
Receives s o outs (stop wait s' closed) = (s'.buf ≡ s.buf) × (stream s outs ≡ stream s (o ∷ outs))
Receives s o outs (stop (error e) s' closed) = Unit
Receives s o outs (stop peer_closed s' closed) = Unit

receive-Receives :
    (s : RecvState) (o : Outcome) (outs : List Outcome) → Receives s o outs (receive s o)
unfolding receive
receive-Receives s (failed e) outs = ground arith
receive-Receives s (arrived bytes c cmsgs) outs =
    ground (arith, append_assoc s.buf bytes (arriving outs))

stop-Reads :
    (s : RecvState) (o : Outcome) (outs : List Outcome) (r : Reply) (s' : RecvState)
    (closed : List ℕ)
    → decode s.buf ≡ incomplete
    → Receives s o outs (stop r s' closed)
    → Reads (stream s (o ∷ outs)) r s' outs
stop-Reads s o outs (got m) s' closed inc h = absurd h
stop-Reads s o outs wait s' closed inc h =
    (ap decode h.0 ∙ inc, ap (λ xs. xs ++ arriving outs) h.0 ∙ h.1)
stop-Reads s o outs (error e) s' closed inc h = tt
stop-Reads s o outs peer_closed s' closed inc h = tt

pub parse-Agrees_at : (s : RecvState) {p : Parsed} → parse s ≡ p → Agrees s.buf p
parse-Agrees_at s e = subst (Agrees s.buf) e (parse-Agrees s)

loop-Reads : (s : RecvState) (outs : List Outcome) → ReadsDone (stream s outs) (loop s outs)
unfolding loop
loop-Reads s [] =
    turn_cases (ReadsDone (stream s [])) s [] _ (parse s)
      (λ m s' e. complete-Reads s [] m s' (parse-Agrees_at s e)) (λ e _. tt) (λ _ _. tt)
      (λ e _. (parse-Agrees_at s e, refl))
loop-Reads s (o ∷ outs) =
    turn_cases (ReadsDone (stream s (o ∷ outs))) s (o ∷ outs) _ (parse s)
      (λ m s' e. complete-Reads s (o ∷ outs) m s' (parse-Agrees_at s e)) (λ e _. tt) (λ _ _. tt)
      λ e _.
        resume_cases (ReadsDone (stream s (o ∷ outs))) _ outs (receive s o)
          (λ s' q.
            subst (λ xs. ReadsDone xs (loop s' outs))
              (subst (Receives s o outs) q (receive-Receives s o outs)) (loop-Reads s' outs))
          λ r s' closed q.
            stop-Reads s o outs r s' closed (parse-Agrees_at s e)
              (subst (Receives s o outs) q (receive-Receives s o outs))

-- Whatever the kernel reports, a call loses no byte: a message that it returns is the one that
-- the decoder finds at the front of the stream (the bytes buffered, then those that arrive), its
-- copy is the frame itself, and the bytes behind it are left for the next call; a call that waits
-- leaves the stream as it was, with no complete message in the buffer.
pub read-Reads :
    (buf_len : ℕ) (s : RecvState) (outs : List Outcome)
    → let d = read buf_len s outs in Reads (stream s outs) d.reply d.state d.rest
unfolding read
read-Reads buf_len s outs = elim (Bool-cases (ltb buf_len max_message)) [
  | inl e ↦ rw (e, read) tt
  | inr e ↦ rw (e, read) (loop-Reads s outs)
]
