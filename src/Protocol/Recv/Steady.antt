-- ===== src/Protocol/Recv/Steady.antt =====
-- src/protocol/isz_protocol.c, `isz_proto_recv_state_read` on a healthy connection: bytes keep
-- arriving, in pieces of any size, and no more descriptors than one message may carry.
use ishizue.Base.{
  ℕ, ◌+◌, ◌-◌, ◌≤◌, ◌<◌, ◌≡◌, refl, sym, ap, ◌∙◌, Bool, true, false, some, List, [], ◌∷◌, ◌++◌,
  arith, ge→ltb, length, length-append, append_assoc, append-nil, take, drop,
}
use ishizue.Protocol.{
  Errno, eintr, emsgsize, decode, incomplete, bad, message, max_message, max_fds, header_size,
}
use ishizue.Protocol.Frame.{decode-append_bad}
use ishizue.Protocol.Recv.{
  RecvState, Outcome, arrived, failed, Cmsg, fds_of, collect, extract_fds, Message, more, fatal,
  complete, parse, Reply, got, wait, error, peer_closed, again, receive, Done, loop, read,
  turn_cases, resume, is_full,
}
use ishizue.Protocol.Recv.Stream.{stream, arriving, complete-Reads, parse-Agrees_at}

-- The descriptors that the results to come deliver.
abbrev pub arriving_fds : List Outcome → List ℕ
arriving_fds [] = []
arriving_fds (arrived bytes c cmsgs ∷ outs) = fds_of cmsgs ++ arriving_fds outs
arriving_fds (failed e ∷ outs) = arriving_fds outs

-- Each `recvmsg` brings a byte at least, with its control data whole, or is interrupted.
abbrev pub IsSteady : List Outcome → Type 0
IsSteady [] = Unit
IsSteady (arrived bytes c cmsgs ∷ outs) = (0 < length bytes) × (c ≡ false) × IsSteady outs
IsSteady (failed e ∷ outs) = (e ≡ eintr) × IsSteady outs

abbrev pub handed_out : Reply → List ℕ
handed_out (got m) = m.fds
handed_out wait = []
handed_out (error e) = []
handed_out peer_closed = []

-- The reply is what the decoder says of the whole stream `xs`.
abbrev pub Exact : List ℕ → Reply → RecvState → List Outcome → Type 0
Exact xs (got m) s rest =
    (decode xs ≡ message m.total m.msg_id (drop header_size m.out_buf))
    × (m.out_buf ≡ take m.total xs)
    × (stream s rest ≡ drop m.total xs)
Exact xs wait s rest = (decode xs ≡ incomplete) × (s.buf ≡ xs) × (rest ≡ [])
Exact xs (error e) s rest = decode xs ≡ bad e
Exact xs peer_closed s rest = ⊥

-- ... and of the descriptors `fds`, none is lost or closed.
pub record IsExact (xs fds : List ℕ) (d : Done) : Type 0 where
  pub reply_exact : Exact xs d.reply d.state d.rest
  pub fds_kept : handed_out d.reply ++ (d.state.pending_fds ++ arriving_fds d.rest) ≡ fds
  pub none_closed : d.closed ≡ []
  pub still_steady : IsSteady d.rest

collect_fits : (room : ℕ) (fds : List ℕ) → length fds ≤ room → collect room fds ≡ (fds, [])
unfolding collect
collect_fits room [] h = refl
collect_fits room (fd ∷ fds) h = ground (arith, collect_fits (room - 1) fds)

extract_fits :
    (cmsgs : List Cmsg) (cap : ℕ)
    → length (fds_of cmsgs) ≤ cap
    → extract_fds cmsgs cap ≡ (some (fds_of cmsgs), [])
unfolding extract_fds
extract_fits cmsgs cap h = rw (collect_fits cap (fds_of cmsgs) h)

-- The state after a piece has arrived.
abbrev grown : RecvState → List ℕ → List Cmsg → RecvState
grown s bytes cmsgs = record {
  buf = s.buf ++ bytes;
  pending_fds = s.pending_fds ++ fds_of cmsgs;
  in_progress = true;
}

receive_steady :
    (s : RecvState) (bytes : List ℕ) (c : Bool) (cmsgs : List Cmsg)
    → 0 < length bytes
    → c ≡ false
    → length s.pending_fds + length (fds_of cmsgs) ≤ max_fds
    → receive s (arrived bytes c cmsgs) ≡ again (grown s bytes cmsgs)
unfolding receive
receive_steady s bytes c cmsgs h e room =
    ground (arith, extract_fits cmsgs (max_fds - length s.pending_fds))

receive_intr : (s : RecvState) → receive s (failed eintr) ≡ again s
unfolding receive
receive_intr s = refl

-- A buffer that holds no complete message is not full: the test behind it never succeeds.
pub more-not_full : (s : RecvState) → parse s ≡ more → length s.buf < max_message
unfolding parse
more-not_full s h = ground arith

-- What `parse` hands out are the pending descriptors.
parse_fds :
    (s : RecvState) {m : Message} {s' : RecvState}
    → parse s ≡ complete m s'
    → (m.fds ≡ s.pending_fds) × (s'.pending_fds ≡ [])
unfolding parse
parse_fds s h = ground arith

module _ (s : RecvState) (outs : List Outcome) (st : IsSteady outs) where
  abbrev Meets : Done → Type 0
  Meets = IsExact (stream s outs) (s.pending_fds ++ arriving_fds outs)

  complete-Meets :
      (m : Message) (s' : RecvState)
      → parse s ≡ complete m s'
      → Meets (record { reply = got m; state = s'; closed = []; rest = outs })
  complete-Meets m s' e = record {
    reply_exact = complete-Reads s outs m s' (parse-Agrees_at s e);
    fds_kept = ground (arith, parse_fds s e);
    none_closed = refl;
    still_steady = st;
  }

  fatal-Meets :
      (e : Errno)
      → parse s ≡ fatal e
      → Meets (record { reply = error e; state = s; closed = []; rest = outs })
  fatal-Meets e q = record {
    reply_exact = decode-append_bad s.buf (arriving outs) (parse-Agrees_at s q);
    fds_kept = refl;
    none_closed = refl;
    still_steady = st;
  }

  full-Meets :
      parse s ≡ more
      → is_full s ≡ true
      → Meets (record { reply = error emsgsize; state = s; closed = []; rest = outs })
  full-Meets q e = absurd (ground (arith, more-not_full s q))

loop-IsExact :
    (s : RecvState) (outs : List Outcome)
    → IsSteady outs
    → length s.pending_fds + length (arriving_fds outs) ≤ max_fds
    → IsExact (stream s outs) (s.pending_fds ++ arriving_fds outs) (loop s outs)
unfolding loop resume
loop-IsExact s [] st h =
    turn_cases (Meets s [] st) s [] _ (parse s) (complete-Meets s [] st) (fatal-Meets s [] st)
      (full-Meets s [] st)
      λ e _. record {
        reply_exact =
            (ap decode (append-nil s.buf) ∙ parse-Agrees_at s e, sym (append-nil s.buf), refl);
        fds_kept = refl;
        none_closed = refl;
        still_steady = tt;
      }
loop-IsExact s (arrived bytes c cmsgs ∷ outs) st h =
    turn_cases (Meets s (arrived bytes c cmsgs ∷ outs) st) s (arrived bytes c cmsgs ∷ outs) _
      (parse s) (complete-Meets s _ st) (fatal-Meets s _ st) (full-Meets s _ st)
      λ _ _.
        rw (receive_steady s bytes c cmsgs st.0 st.1 now, resume)
          (rw
            (
              ← append_assoc s.buf bytes (arriving outs),
              ← append_assoc s.pending_fds (fds_of cmsgs) (arriving_fds outs),
            )
            (loop-IsExact (grown s bytes cmsgs) outs st.2 later))
  where
    split :
        length (fds_of cmsgs ++ arriving_fds outs)
        ≡ length (fds_of cmsgs) + length (arriving_fds outs)
    split = length-append (fds_of cmsgs) (arriving_fds outs)

    now : length s.pending_fds + length (fds_of cmsgs) ≤ max_fds
    now = omega (arith, split)

    later : length (s.pending_fds ++ fds_of cmsgs) + length (arriving_fds outs) ≤ max_fds
    later = omega (arith, split, length-append s.pending_fds (fds_of cmsgs))
loop-IsExact s (failed e ∷ outs) st h =
    turn_cases (Meets s (failed e ∷ outs) st) s (failed e ∷ outs) _ (parse s)
      (complete-Meets s _ st) (fatal-Meets s _ st) (full-Meets s _ st)
      λ _ _. rw (st.0, resume) (rw (receive_intr s) (loop-IsExact s outs st.1 h))

-- On a connection whose bytes keep arriving (in pieces of any size, with interruptions) with no
-- more than eight descriptors in all, one call with a buffer of 8192 bytes or more replies exactly
-- as the stateless decoder does on the whole stream: a message if it begins with one, an error if
-- it begins with a bad length, and otherwise "wait", with all of it buffered. After a message the
-- rest of the stream is left for the next call. Every descriptor that was pending or arrives is
-- handed out, pending or yet to come, in order, and none is closed.
pub read-IsExact :
    (buf_len : ℕ) (s : RecvState) (outs : List Outcome)
    → max_message ≤ buf_len
    → IsSteady outs
    → length s.pending_fds + length (arriving_fds outs) ≤ max_fds
    → IsExact (stream s outs) (s.pending_fds ++ arriving_fds outs) (read buf_len s outs)
unfolding read
read-IsExact buf_len s outs big st h =
    rw (ge→ltb buf_len max_message big) (loop-IsExact s outs st h)
