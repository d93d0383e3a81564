-- ===== src/Protocol/Recv/Descriptors.antt =====
-- src/protocol/isz_protocol.c, `isz_extract_fds` and what the reader does when it refuses.
use mathlib.Core.List.{Perm, perm_middle}
use mathlib.Core.List.Perm
use ishizue.Base.{
  ℕ, ◌+◌, ◌-◌, ◌≤◌, ◌<◌, ◌≡◌, refl, true, false, none, List, [], ◌∷◌, ◌++◌, arith, ltb, length,
  lt→ltb, ge→ltb, Bool-cases, inl, inr,
}
use ishizue.Protocol.{emsgsize, max_message, max_fds}
use ishizue.Protocol.Recv.Steady.{more-not_full}
use ishizue.Protocol.Recv.{
  RecvState, Outcome, arrived, Cmsg, fds_of, collect, extract_fds, more, parse, error, receive,
  stop, loop, read, turn, resume, absorb, stash, Reply, is_full,
}

collect-perm : (room : ℕ) (fds : List ℕ) → Perm ((collect room fds).1 ++ (collect room fds).0) fds
unfolding collect
collect-perm room [] = Perm.refl []
collect-perm room (fd ∷ fds) = elim (Bool-cases (ltb 0 room)) [
  | inl e ↦ rw e (
      Perm.trans (perm_middle (collect (room - 1) fds).1 (collect (room - 1) fds).0)
        (Perm.cons fd (collect-perm (room - 1) fds)))
  | inr e ↦ rw e (Perm.cons fd (collect-perm (room - 1) fds))
]

length-collect : (room : ℕ) (fds : List ℕ) → length (collect room fds).1 ≡ length fds - room
unfolding collect
length-collect room [] = omega arith
length-collect room (fd ∷ fds) = ground (arith, length-collect (room - 1) fds)

-- With too little room every descriptor that came is closed, each as often as it came.
extract_overflow :
    (cmsgs : List Cmsg) (cap : ℕ)
    → cap < length (fds_of cmsgs)
    → (closed : List ℕ) × (extract_fds cmsgs cap ≡ (none, closed)) × Perm closed (fds_of cmsgs)
unfolding extract_fds
extract_overflow cmsgs cap h =
    let c = collect cap (fds_of cmsgs) in
    let over : ltb 0 (length c.1) ≡ true =
      lt→ltb 0 (length c.1) (omega (arith, length-collect cap (fds_of cmsgs))) in
    (c.1 ++ c.0, rw over, collect-perm cap (fds_of cmsgs))

receive_overflow :
    (s : RecvState) (bytes : List ℕ) (cmsgs : List Cmsg) (closed : List ℕ)
    → 0 < length bytes
    → extract_fds cmsgs (max_fds - length s.pending_fds) ≡ (none, closed)
    → receive s (arrived bytes false cmsgs)
      ≡ stop
          (error emsgsize)
          (record { buf = s.buf ++ bytes; pending_fds = []; in_progress = true })
          closed
unfolding receive absorb stash
receive_overflow s bytes cmsgs closed h e = ground arith

read_first :
    (buf_len : ℕ) (s s' : RecvState) (o : Outcome) (outs : List Outcome) (r : Reply)
    (closed : List ℕ)
    → max_message ≤ buf_len
    → parse s ≡ more
    → receive s o ≡ stop r s' closed
    → read buf_len s (o ∷ outs) ≡ record { reply = r; state = s'; closed = closed; rest = outs }
unfolding read loop turn resume
read_first buf_len s s' o outs r closed big p e =
    rw (ge→ltb buf_len max_message big, p, turn, is_not_full, e)
  where
    is_not_full : is_full s ≡ false
    is_not_full = ground (arith, more-not_full s p)

-- When more descriptors arrive than fit behind those that are pending, the call fails with
-- EMSGSIZE, and it closes exactly the descriptors that have just arrived, each as often as it
-- came. The state then has none pending: those that were pending before are neither handed out nor
-- closed nor kept.
pub read_overflow :
    (buf_len : ℕ) (s : RecvState) (bytes : List ℕ) (cmsgs : List Cmsg) (outs : List Outcome)
    → max_message ≤ buf_len
    → parse s ≡ more
    → 0 < length bytes
    → length s.pending_fds ≤ max_fds
    → max_fds < length s.pending_fds + length (fds_of cmsgs)
    → let d = read buf_len s (arrived bytes false cmsgs ∷ outs) in
      (d.reply ≡ error emsgsize) × (d.state.pending_fds ≡ []) × Perm d.closed (fds_of cmsgs)
read_overflow buf_len s bytes cmsgs outs big p h fit over =
    let (closed, e, q) = extract_overflow cmsgs (max_fds - length s.pending_fds) (omega arith) in
    rw
      (read_first buf_len s _ (arrived bytes false cmsgs) outs _ closed big p
        (receive_overflow s bytes cmsgs closed h e))
      (refl, refl, q)
