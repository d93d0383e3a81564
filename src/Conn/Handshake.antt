-- ===== src/Conn/Handshake.antt =====
-- src/protocol/isz_handshake.c: the server side of the opening handshake. The lists of outputs and
-- of seats are the source's stubs, which are empty. The kernel's results are parameters.
use ishizue.Base.{
  ℕ, ◌≤◌, ◌<◌, ◌≡◌, refl, ◌∙◌, Bool, true, false, ◌||◌, Option, none, some, List, [], ◌∷◌, ◌++◌,
  arith, ltb, ◌==◌, if◌then◌else◌, if_cases,
}
use ishizue.Status.{Status, status_ok, commit_pending, client_disconnected, invalid_arg}
use ishizue.Protocol.Socket.{
  SendResult, RecvResult, Transfer, all_of_it, broken, blocked, Hello, hello, hello_broken,
  hello_wrong_magic, hello_blocked, send_magic, recv_version_reply, protocol_version,
}
use ishizue.Conn.{Conn, Node, Env, send, drain}
use ishizue.Conn.Terms.{SameTerms, send-Same, drain-Same}

-- ISZ_MSG_HANDSHAKE_DONE and ISZ_MSG_CAPABILITIES.
abbrev pub msg_handshake_done : ℕ
msg_handshake_done = 1

abbrev pub msg_capabilities : ℕ
msg_capabilities = 3

-- The system's part in one `isz_handshake_send`.
pub record SendEnv : Type 0 where
  pub env : Env
  pub drains : List SendResult

-- ... and in the whole handshake.
pub record HandshakeEnv : Type 0 where
  pub magic_sends : List SendResult
  pub version_recvs : List RecvResult
  pub capabilities : SendEnv
  pub done : SendEnv

drained : Status → Bool
drained status_ok = true
drained commit_pending = true
drained s = false

sent_ok : Status → Bool
sent_ok status_ok = true
sent_ok s = false

-- `isz_handshake_send`: whether it returned 0, the connection, and what left through the socket.
unfoldable pub handshake_send : Conn → SendEnv → ℕ → Option (List ℕ) → ℕ → Bool × Conn × List Node
unfolding drained sent_ok
handshake_send c e msg_id payload payload_len =
    let s = send c e.env msg_id payload payload_len none in
    let d = drain s.conn e.drains in
    if sent_ok s.status
    then (drained d.status, d.conn, s.wire ++ d.wire)
    else (false, s.conn, s.wire)

-- What the handshake returns: a status and the connection, or it blocks. `opening` is what it sent
-- before any message, and `wire` the messages that it sent.
pub record Handshake : Type 0 where
  pub status : Option Status
  pub conn : Conn
  pub opening : List ℕ
  pub wire : List Node

abbrev give_up : Conn → List ℕ → List Node → Handshake
give_up c opening wire = record {
  status = some client_disconnected;
  conn = record c { dead = true };
  opening = opening;
  wire = wire;
}

-- The payload of the capabilities message: no capability, and a cursor of size 0.
abbrev pub no_capabilities : List ℕ
no_capabilities = 0 ∷ 0 ∷ 0 ∷ 0 ∷ 0 ∷ 0 ∷ 0 ∷ 0 ∷ 0 ∷ 0 ∷ 0 ∷ 0 ∷ []

-- Step 6: handshake_done, and the end.
finish : List ℕ → List Node → Bool × Conn × List Node → Handshake
finish opening wire (false, c, w) = give_up c opening (wire ++ w)
finish opening wire (true, c, w) = record {
  status = some status_ok;
  conn = record c { handshake_done = true };
  opening = opening;
  wire = wire ++ w;
}

send_done : List ℕ → SendEnv → Bool × Conn × List Node → Handshake
unfolding finish
send_done opening e (false, c, w) = give_up c opening w
send_done opening e (true, c, w) = finish opening w (handshake_send c e msg_handshake_done none 0)

-- Steps 3 to 6, at the client's version reply. With no output and no seat, step 4 sends nothing.
negotiate : Conn → List ℕ → HandshakeEnv → Hello → Handshake
unfolding send_done
negotiate c opening env hello_blocked = record {
  status = none;
  conn = c;
  opening = opening;
  wire = [];
}
negotiate c opening env hello_broken = give_up c opening []
negotiate c opening env hello_wrong_magic = give_up c opening []
negotiate c opening env (hello version) =
    if version == 0 || ltb protocol_version version
    then give_up c opening []
    else send_done opening env.done (
        handshake_send (record c { version = version }) env.capabilities msg_capabilities
          (some no_capabilities) 12)

after_magic : Conn → HandshakeEnv → Transfer × List ℕ → Handshake
unfolding negotiate
after_magic c env (all_of_it, out) = negotiate c out env (recv_version_reply env.version_recvs)
after_magic c env (broken, out) = give_up c out []
after_magic c env (blocked, out) = record { status = none; conn = c; opening = out; wire = [] }

-- `isz_handshake_server_side`.
unfoldable pub handshake : Conn → HandshakeEnv → Handshake
unfolding after_magic
handshake c env =
    if c.handshake_done
    then record { status = some invalid_arg; conn = c; opening = []; wire = [] }
    else after_magic c env (send_magic protocol_version env.magic_sends)

-- How a handshake ends that was entered with the flag unset.
abbrev pub Ends : HandshakeEnv → Option Status → Conn → Type 0
Ends env none c = c.handshake_done ≡ false
Ends env (some status_ok) c =
    (c.handshake_done ≡ true)
    × (0 < c.version)
    × (c.version ≤ protocol_version)
    × (recv_version_reply env.version_recvs ≡ hello c.version)
Ends env (some s) c = (s ≡ client_disconnected) × (c.handshake_done ≡ false) × (c.dead ≡ true)

abbrev EndsAt : HandshakeEnv → Handshake → Type 0
EndsAt env h = Ends env h.status h.conn

handshake_send-Same :
    (c : Conn) (e : SendEnv) (id : ℕ) (p : Option (List ℕ)) (n : ℕ)
    → SameTerms c (handshake_send c e id p n).1
unfolding handshake_send
handshake_send-Same c e id p n =
    let s = send c e.env id p n none in
    if_cases (λ (r : Bool × Conn × List Node). SameTerms c r.1) (sent_ok s.status)
      (λ _.
        let d = drain-Same s.conn e.drains in
        let k = send-Same c e.env id p n none in (d.0 ∙ k.0, d.1 ∙ k.1))
      (λ _. send-Same c e.env id p n none)

finish-Ends :
    (env : HandshakeEnv) (opening : List ℕ) (wire : List Node) (r : Bool × Conn × List Node)
    → r.1.handshake_done ≡ false
    → (0 < r.1.version) × (r.1.version ≤ protocol_version)
    → recv_version_reply env.version_recvs ≡ hello r.1.version
    → EndsAt env (finish opening wire r)
unfolding finish
finish-Ends env opening wire (false, c, w) h v e = (refl, h, refl)
finish-Ends env opening wire (true, c, w) h v e = (refl, v.0, v.1, e)

send_done-Ends :
    (env : HandshakeEnv) (opening : List ℕ) (r : Bool × Conn × List Node)
    → r.1.handshake_done ≡ false
    → (0 < r.1.version) × (r.1.version ≤ protocol_version)
    → recv_version_reply env.version_recvs ≡ hello r.1.version
    → EndsAt env (send_done opening env.done r)
unfolding send_done
send_done-Ends env opening (false, c, w) h v e = (refl, h, refl)
send_done-Ends env opening (true, c, w) h v e =
    let k = handshake_send-Same c env.done msg_handshake_done none 0 in
    finish-Ends env opening w _ (k.0 ∙ h) (rw k.1 v) (rw k.1 e)

negotiate-Ends :
    (c : Conn) (opening : List ℕ) (env : HandshakeEnv) (r : Hello)
    → c.handshake_done ≡ false
    → recv_version_reply env.version_recvs ≡ r
    → EndsAt env (negotiate c opening env r)
unfolding negotiate
negotiate-Ends c opening env hello_blocked h e = h
negotiate-Ends c opening env hello_broken h e = (refl, h, refl)
negotiate-Ends c opening env hello_wrong_magic h e = (refl, h, refl)
negotiate-Ends c opening env (hello version) h e =
    if_cases (EndsAt env) (version == 0 || ltb protocol_version version) (λ _. (refl, h, refl))
      λ good.
        let k =
          handshake_send-Same (record c { version = version }) env.capabilities msg_capabilities
            (some no_capabilities) 12 in
        send_done-Ends env opening
          (handshake_send (record c { version = version }) env.capabilities msg_capabilities
            (some no_capabilities) 12)
          (k.0 ∙ h) (rw k.1 (ground arith)) (rw k.1 e)

-- The handshake of a connection that has not had one, whatever the kernel does: if it returns
-- ISZ_OK the connection is marked done, and its version is the one that the client replied, between
-- 1 and the server's; if it returns an error, this is "client disconnected", the connection is dead
-- and not marked done; as long as it blocks the connection is not marked done.
pub handshake-Ends :
    (c : Conn) (env : HandshakeEnv)
    → c.handshake_done ≡ false
    → let h = handshake c env in Ends env h.status h.conn
unfolding handshake after_magic
handshake-Ends c env h =
    if_cases (EndsAt env) c.handshake_done (λ e. cc)
      (λ _. magic (send_magic protocol_version env.magic_sends))
  where
    magic : (t : Transfer × List ℕ) → EndsAt env (after_magic c env t)
    magic (all_of_it, out) = negotiate-Ends c out env _ h refl
    magic (broken, out) = (refl, h, refl)
    magic (blocked, out) = h
