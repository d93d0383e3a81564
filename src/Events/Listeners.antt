-- ===== src/Events/Listeners.antt =====
-- src/isz_listeners.c: listeners in one ring of nodes for each type of event. The head of a bucket and
-- the node in a listener are addresses of one memory; what a listener does when it is called is a
-- parameter.
pub mod Rounds
mod Tests
use ishizue.Base.{
  ℕ, zero, suc, ◌==◌, leb, Bool, true, false, ◌||◌, Option, none, some, List, [], ◌∷◌, ltb,
  if◌then◌else◌,
}
use ishizue.Base.Int.{ℤ, pos, negsuc}
use ishizue.Status.{Status, status_ok, invalid_arg, no_memory}
use ishizue.Events.IntrusiveList.{Memory, push_back, remove}

-- The part of `struct isz_server` with the listeners, and what is in each `struct isz_listener`.
pub record Server : Type 0 where
  pub memory : Memory
  pub heads : ℕ → ℕ
  pub fns : ℕ → ℕ
  pub userdata : ℕ → ℕ
  pub destroying : Bool

-- ISZ_LISTENER_BUCKETS.
abbrev pub buckets : ℕ
buckets = 32

-- `listener_bucket`, of a positive type.
unfoldable pub listener_bucket : ℕ → ℕ
listener_bucket t = if ltb t buckets then t else 0

-- `isz_add_listener`: a function 0 is NULL, `fresh` is the result of `malloc`.
add_node : Server → ℕ → ℕ → ℕ → Option ℕ → Status × Server
add_node srv l fn userdata none = (no_memory, srv)
add_node srv l fn userdata (some n) = (
  status_ok,
  record srv {
    memory = push_back srv.memory l n;
    fns = λ x. if x == n then fn else srv.fns x;
    userdata = λ x. if x == n then userdata else srv.userdata x;
  },
)

unfoldable pub add_listener : Server → ℤ → ℕ → ℕ → Option ℕ → Status × Server
unfolding add_node
add_listener srv (negsuc t) fn userdata fresh = (invalid_arg, srv)
add_listener srv (pos t) fn userdata fresh =
    if fn == 0 || t == 0
    then (invalid_arg, srv)
    else add_node srv (srv.heads (listener_bucket t)) fn userdata fresh

-- The loop of `isz_remove_listener` from a node on, with the nodes that are freed.
remove_from : ℕ → Server → ℕ → ℕ → ℕ → List ℕ × Server
remove_from zero srv l n fn = ([], srv)
remove_from (suc fuel) srv l n fn =
    let next = (srv.memory n).next in
    let kept = remove_from fuel srv l next fn in
    let (freed, out) = remove_from fuel (record srv { memory = remove srv.memory n }) l next fn in
    if n == l then ([], srv) else if srv.fns n == fn then (n ∷ freed, out) else kept

-- `isz_remove_listener`.
unfoldable pub remove_listener : ℕ → Server → ℤ → ℕ → Status × List ℕ × Server
unfolding remove_from
remove_listener fuel srv (negsuc t) fn = (invalid_arg, [], srv)
remove_listener fuel srv (pos t) fn =
    let l = srv.heads (listener_bucket t) in
    if fn == 0 || t == 0
    then (invalid_arg, [], srv)
    else (let (freed, out) = remove_from fuel srv l (srv.memory l).next fn in
        (status_ok, freed, out))

-- The loop of `isz_server_emit_event` from a node on, with the nodes whose listeners are called.
call_from : ℕ → (Server → ℕ → Server) → Server → ℕ → ℕ → List ℕ × Server
call_from zero call srv l n = ([], srv)
call_from (suc fuel) call srv l n =
    let (called, after) = call_from fuel call (call srv n) l (srv.memory n).next in
    if n == l then ([], srv) else (n ∷ called, after)

-- `isz_server_emit_event`.
unfoldable pub emit_event : ℕ → (Server → ℕ → Server) → Server → ℕ → List ℕ × Server
unfolding call_from
emit_event fuel call srv t =
    let l = srv.heads (listener_bucket t) in
    if srv.destroying then ([], srv) else call_from fuel call srv l (srv.memory l).next
