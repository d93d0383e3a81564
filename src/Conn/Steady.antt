-- ===== src/Conn/Steady.antt =====
-- src/protocol/isz_conn.c: a send leaves the object table alone.
use ishizue.Base.{ℕ, ◌≡◌, refl, Option, none, some, List, [], ◌∷◌, leb, ◌==◌, if_cases}
use ishizue.Protocol.{Result, ok, err, max_message, encode, bytes_of}
use ishizue.Protocol.Socket.{Sent, sent, would_block, send_error}
use ishizue.Status.{invalid_arg}
use ishizue.Conn.{
  Conn, Node, Env, Outcome, outcome, send, send_or_queue, after_direct, enqueue, link_node,
  push_node, dup_all, max_events,
}

-- The same table, and the same id to come.
abbrev pub SameObjects : Conn → Conn → Type 0
SameObjects c c' =
    (c'.objects ≡ c.objects)
    × (c'.objects_cap ≡ c.objects_cap)
    × (c'.next_object_id ≡ c.next_object_id)
    × (c'.handshake_done ≡ c.handshake_done)

module _ (c : Conn) (env : Env) (buf : List ℕ) where
  abbrev Keeps : Outcome → Type 0
  Keeps o = SameObjects c o.conn

  link_node-Keeps : (r : Option (List ℕ) × List ℕ) → Keeps (link_node c buf r)
  unfolding link_node push_node
  link_node-Keeps (none, closed) = (refl, refl, refl, refl)
  link_node-Keeps (some fds, closed) = (refl, refl, refl, refl)

  enqueue-Keeps : (fds : List ℕ) → Keeps (enqueue c env buf fds)
  unfolding enqueue
  enqueue-Keeps fds =
      if_cases (λ (o : Outcome). Keeps o) (leb max_events c.queued_events)
        (λ _. (refl, refl, refl, refl))
        λ _.
          if_cases (λ (o : Outcome). Keeps o) env.malloc_ok
            (λ _. link_node-Keeps (dup_all fds env.dups [])) (λ _. (refl, refl, refl, refl))

  after_direct-Keeps :
      (total : ℕ) (fds : List ℕ) (s : Sent) → Keeps (after_direct c env buf total fds s)
  unfolding after_direct
  after_direct-Keeps total fds (sent n) =
      if_cases (λ (o : Outcome). Keeps o) (n == total) (λ _. (refl, refl, refl, refl))
        λ _.
          if_cases (λ (o : Outcome). Keeps o) (n == 0) (λ _. enqueue-Keeps fds)
            (λ _. (refl, refl, refl, refl))
  after_direct-Keeps total fds would_block = enqueue-Keeps fds
  after_direct-Keeps total fds (send_error x) = (refl, refl, refl, refl)

  send_or_queue-Keeps :
      (total : ℕ) (fds : Option (List ℕ)) (q : List Node)
      → Keeps (send_or_queue c env buf total fds q)
  unfolding send_or_queue
  send_or_queue-Keeps total fds [] = after_direct-Keeps total (bytes_of fds) _
  send_or_queue-Keeps total fds (n ∷ ns) = enqueue-Keeps (bytes_of fds)

encoded-SameObjects :
    (c : Conn) (env : Env) (fds : Option (List ℕ)) (r : Result (ℕ × List ℕ))
    → let o : Outcome = elim r [
      | err e ↦ outcome invalid_arg c [] []
      | ok (total, buf) ↦ send_or_queue c env buf total fds c.queue
    ] in
      SameObjects c o.conn
encoded-SameObjects c env fds (err e) = (refl, refl, refl, refl)
encoded-SameObjects c env fds (ok (total, buf)) = send_or_queue-Keeps c env buf total fds c.queue

pub send-SameObjects :
    (c : Conn) (env : Env) (msg_id : ℕ) (payload : Option (List ℕ)) (n : ℕ) (fds : Option (List ℕ))
    → SameObjects c (send c env msg_id payload n fds).conn
unfolding send
send-SameObjects c env msg_id payload n fds =
    if_cases (λ (o : Outcome). SameObjects c o.conn) c.dead (λ _. (refl, refl, refl, refl))
      (λ _. encoded-SameObjects c env fds (encode max_message msg_id payload n))
