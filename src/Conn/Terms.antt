-- ===== src/Conn/Terms.antt =====
-- src/protocol/isz_conn.c: sending and draining touch only the queue and the `dead` flag.
use ishizue.Base.{ℕ, ◌≡◌, refl, Option, none, some, List, [], ◌∷◌, leb, ◌==◌, if_cases, length}
use ishizue.Protocol.{Result, ok, err, encode, max_message, bytes_of}
use ishizue.Protocol.Socket.{SendResult, Sent, sent, would_block, send_error, send_frame, cut_of}
use ishizue.Status.{invalid_arg, commit_pending}
use ishizue.Conn.{
  Conn, Node, Env, Outcome, outcome, send, drain, drain_from, send_or_queue, after_direct, enqueue,
  link_node, pop_node, with_sent, dup_all, max_events, cut_off,
}

abbrev pub SameTerms : Conn → Conn → Type 0
SameTerms c c' = (c'.handshake_done ≡ c.handshake_done) × (c'.version ≡ c.version)

abbrev Same : Conn → Outcome → Type 0
Same c o = SameTerms c o.conn

module _ (c : Conn) (env : Env) (buf : List ℕ) where
  link_node-Same : (r : Option (List ℕ) × List ℕ) → Same c (link_node c buf r)
  unfolding link_node
  link_node-Same (none, closed) = (refl, refl)
  link_node-Same (some fds, closed) = (refl, refl)

  enqueue-Same : (fds : List ℕ) → Same c (enqueue c env buf fds)
  unfolding enqueue
  enqueue-Same fds =
      if_cases (Same c) (leb max_events c.queued_events) (λ _. (refl, refl))
        λ _.
          if_cases (Same c) env.malloc_ok (λ _. link_node-Same (dup_all fds env.dups []))
            (λ _. (refl, refl))

  after_direct-Same :
      (total : ℕ) (fds : List ℕ) (s : Sent) → Same c (after_direct c env buf total fds s)
  unfolding after_direct
  after_direct-Same total fds (sent n) =
      if_cases (Same c) (n == total) (λ _. (refl, refl))
        (λ _. if_cases (Same c) (n == 0) (λ _. enqueue-Same fds) (λ _. (refl, refl)))
  after_direct-Same total fds would_block = enqueue-Same fds
  after_direct-Same total fds (send_error e) = (refl, refl)

  send_or_queue-Same :
      (total : ℕ) (fds : Option (List ℕ)) (q : List Node)
      → Same c (send_or_queue c env buf total fds q)
  unfolding send_or_queue
  send_or_queue-Same total fds [] = after_direct-Same total (bytes_of fds) _
  send_or_queue-Same total fds (n ∷ ns) = enqueue-Same (bytes_of fds)

pub send-Same :
    (c : Conn) (env : Env) (id : ℕ) (p : Option (List ℕ)) (n : ℕ) (fds : Option (List ℕ))
    → SameTerms c (send c env id p n fds).conn
unfolding send
send-Same c env id p n fds =
    if_cases (Same c) c.dead (λ _. (refl, refl)) (λ _. encoded (encode max_message id p n))
  where
    encoded :
        (r : Result (ℕ × List ℕ))
        → Same c (elim r [
          | err e ↦ outcome invalid_arg c [] []
          | ok (total, buf) ↦ send_or_queue c env buf total fds c.queue
        ])
    encoded (err e) = (refl, refl)
    encoded (ok (total, buf)) = send_or_queue-Same c env buf total fds c.queue

drain_from-Same : (c : Conn) (q : List Node) (ks : List SendResult) → Same c (drain_from c q ks)
unfolding drain_from
drain_from-Same c [] ks = (refl, refl)
drain_from-Same c (n ∷ rest) [] = (refl, refl)
drain_from-Same c (n ∷ rest) (k ∷ ks) =
    step (send_frame (length n.frame) (some n.fds) (length n.fds) k)
      (drain_from-Same (pop_node c rest) rest ks)
  where
    step :
        (s : Sent)
        → Same c (drain_from (pop_node c rest) rest ks)
        → Same c (elim s [
          | would_block ↦ outcome commit_pending c [] []
          | send_error e ↦ cut_off c (cut_of n.frame (send_error e) k)
          | sent m ↦ with_sent n (drain_from (pop_node c rest) rest ks)
        ])
    step would_block ih = (refl, refl)
    step (send_error x) ih = (refl, refl)
    step (sent m) ih = ih

pub drain-Same : (c : Conn) (ks : List SendResult) → SameTerms c (drain c ks).conn
unfolding drain
drain-Same c ks = if_cases (Same c) c.dead (λ _. (refl, refl)) (λ _. drain_from-Same c c.queue ks)
