-- ===== src/Protocol/Recv/Bounds.antt =====
-- src/protocol/isz_protocol.c, `isz_proto_recv_state_read`: the buffer of 8192 bytes and the array
-- of eight descriptors never overflow, and `in_progress` keeps its meaning.
use ishizue.Base.{
  ℕ, ◌+◌, ◌-◌, ◌≤◌, ◌≡◌, refl, subst, true, false, Option, none, some, List, [], ◌∷◌, ◌++◌, arith,
  ltb, length, length-append, length-drop, Bool-cases, sym, ◌==◌, inl, inr,
}
use ishizue.Protocol.{max_message, max_fds, word_size}
use ishizue.Base.Bytes.{get_u32_le}
use ishizue.Protocol.Recv.{
  RecvState, Outcome, arrived, failed, Cmsg, fds_of, collect, extract_fds, Message, complete, parse,
  again, stop, Step, receive, loop, read, stash, absorb, turn_cases, resume_cases,
}

-- The state's arrays are within bounds, and `in_progress` says whether a message has begun.
pub record IsValid (s : RecvState) : Type 0 where
  pub buf_in : length s.buf ≤ max_message
  pub fds_in : length s.pending_fds ≤ max_fds
  pub progress : s.in_progress ≡ ltb 0 (length s.buf)

-- The kernel fills at most the rest of the buffer: `have` bytes are in it.
abbrev pub FitsFrom : ℕ → List Outcome → Type 0
FitsFrom have [] = Unit
FitsFrom have (arrived bytes c cmsgs ∷ outs) =
    (length bytes ≤ max_message - have) × FitsFrom (have + length bytes) outs
FitsFrom have (failed e ∷ outs) = FitsFrom have outs

parse-IsValid :
    (s : RecvState) {m : Message} {s' : RecvState}
    → IsValid s
    → parse s ≡ complete m s'
    → IsValid s'
unfolding parse
parse-IsValid s v h = ground (arith, length-drop (word_size + get_u32_le s.buf) s.buf)

collect-le : (room : ℕ) (fds : List ℕ) → length (collect room fds).0 ≤ room
unfolding collect
collect-le room [] = omega arith
collect-le room (fd ∷ fds) = ground (arith, collect-le (room - 1) fds)

extract_fds-le :
    (cmsgs : List Cmsg) (cap : ℕ) {fds closed : List ℕ}
    → extract_fds cmsgs cap ≡ (some fds, closed)
    → length fds ≤ cap
unfolding extract_fds
extract_fds-le cmsgs cap h = ground (arith, collect-le cap (fds_of cmsgs))

-- Whether the loop goes on or stops, the state is good.
abbrev Good : List Outcome → Step → Type 0
Good outs (again s) = IsValid s × FitsFrom (length s.buf) outs
Good outs (stop r s closed) = IsValid s

stash-Good :
    (s : RecvState) (outs : List Outcome) (r : Option (List ℕ) × List ℕ)
    → IsValid s
    → FitsFrom (length s.buf) outs
    → ((fds closed : List ℕ) → r ≡ (some fds, closed) → length fds ≤ max_fds - length s.pending_fds)
    → Good outs (stash s r)
unfolding stash
stash-Good s outs (some fds, closed) v f h = (
  record {
    buf_in = v.buf_in;
    fds_in = omega (arith, length-append s.pending_fds fds, h fds closed refl, v.fds_in);
    progress = v.progress;
  },
  f,
)
stash-Good s outs (none, closed) v f h = record {
  buf_in = v.buf_in;
  fds_in = omega arith;
  progress = v.progress;
}

receive-Good :
    (s : RecvState) (o : Outcome) (outs : List Outcome)
    → IsValid s
    → FitsFrom (length s.buf) (o ∷ outs)
    → Good outs (receive s o)
unfolding receive absorb
receive-Good s (failed e) outs v f = ground arith
receive-Good s (arrived bytes c cmsgs) outs v f = elim (Bool-cases (length bytes == 0)) [
  | inl e ↦ rw e v
  | inr e ↦
      rw (e, absorb)
        (elim (Bool-cases c) [
          | inl t ↦ rw t (larger e)
          | inr t ↦ rw t (
              stash-Good _ outs (extract_fds cmsgs (max_fds - length s.pending_fds)) (larger e)
                (subst (λ n. FitsFrom n outs) (sym (length-append s.buf bytes)) f.1)
                (λ fds closed q. extract_fds-le cmsgs _ q))
        ])
]
  where
    larger :
        (length bytes == 0) ≡ false
        → IsValid (record { buf = s.buf ++ bytes; pending_fds = s.pending_fds; in_progress = true })
    larger e = ground (arith, length-append s.buf bytes, f.0)

loop-IsValid :
    (s : RecvState) (outs : List Outcome)
    → IsValid s
    → FitsFrom (length s.buf) outs
    → IsValid (loop s outs).state
unfolding loop
loop-IsValid s [] v f =
    turn_cases (λ d. IsValid d.state) s [] _ (parse s) (λ m s' e. parse-IsValid s v e) (λ _ _. v)
      (λ _ _. v) (λ _ _. v)
loop-IsValid s (o ∷ outs) v f =
    turn_cases (λ d. IsValid d.state) s (o ∷ outs) _ (parse s) (λ m s' e. parse-IsValid s v e)
      (λ _ _. v) (λ _ _. v)
      λ _ _.
        resume_cases (λ d. IsValid d.state) _ outs (receive s o)
          (λ s' q.
            let g : Good outs (again s') = subst (Good outs) q (receive-Good s o outs v f) in
            loop-IsValid s' outs g.0 g.1)
          λ r s' closed q. subst (Good outs) q (receive-Good s o outs v f)

-- From a state within bounds, and with a kernel that never returns more bytes than the call asked
-- for, every call leaves the state within bounds, on all paths: at most 8192 bytes and at most
-- eight descriptors, with `in_progress` set exactly when bytes are buffered.
pub read-IsValid :
    (buf_len : ℕ) (s : RecvState) (outs : List Outcome)
    → IsValid s
    → FitsFrom (length s.buf) outs
    → IsValid (read buf_len s outs).state
unfolding read
read-IsValid buf_len s outs v f = elim (Bool-cases (ltb buf_len max_message)) [
  | inl e ↦ rw (e, read) v
  | inr e ↦ rw (e, read) (loop-IsValid s outs v f)
]
