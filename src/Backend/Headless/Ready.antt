-- ===== src/Backend/Headless/Ready.antt =====
-- src/backend/isz_headless.c behind src/backend/isz_backend.c: the headless backend keeps the contract
-- of the state machine, and is always ready for the next commit.
use ishizue.Base.{
  ℕ, ◌≡◌, ◌≢◌, ap, sym, ◌∙◌, refl, Bool, true, false, Option, none, some, List, [], ◌∷◌, if_cases,
}
use ishizue.Status.{Status, status_ok}
use ishizue.Backend.{
  BackendState, ready, committing, error, finished, Backend, create_backend, created, finish_commit,
  commit_in, commit_backend, settled, read_backend, read_in,
}
use ishizue.Backend.States.{Moves, stays, finishes, KeepsContract}
use ishizue.Backend.Session.{Call, commits, reads_events, call, run_calls}
use ishizue.Backend.Headless.{
  Headless, Setup, Impl, headless_ops, headless_init, headless_commit, with_first,
}

with_first-Moves : (b : Backend Impl) (r : Status × Headless) → Moves b (with_first b r).1
unfolding with_first
with_first-Moves b (status_ok, st) = stays (some st)
with_first-Moves b (s, st) = stays none

init-Moves : (c : Setup) (b : Backend Impl) → Moves b (headless_init c b).1
unfolding headless_init
init-Moves c b =
    if_cases (λ (r : Status × Backend Impl). Moves b r.1) c.state_ok (λ _. with_first-Moves b _)
      (λ _. stays b.impl)

done : (b : Backend Impl) → b.state ≡ committing → finished b.state ≢ error
done b e = rw e (λ k. cc)

-- The headless backend keeps the contract of the backend interface, whatever its configuration and
-- whether its allocations succeed: it only changes its own state or finishes a commit, and a commit
-- that succeeds leaves no fatal error.
pub headless_ops-KeepsContract : (c : Setup) → KeepsContract (headless_ops c)
unfolding headless_ops headless_commit finish_commit
headless_ops-KeepsContract c = record {
  init_moves = init-Moves c;
  commit_moves = λ b out flags. finishes (stays b.impl);
  read_moves = λ b. stays b.impl;
  commit_success = λ b out flags e k. done b e;
}

commit-ready :
    (c : Setup) (b : Backend Impl) (out flags : ℕ)
    → b.state ≡ ready
    → commit_backend (headless_ops c) b out flags ≡ (status_ok, b)
unfolding commit_backend commit_in headless_ops headless_commit finish_commit settled
commit-ready c b out flags e =
    let step : commit_in b.state (headless_ops c) b out flags
        ≡ commit_in ready (headless_ops c) b out flags =
      ap (λ s. commit_in s (headless_ops c) b out flags) e in
    step ∙ ap (λ s. (status_ok, record b { state = s })) (sym e)

call-ready :
    (c : Setup) (b : Backend Impl) (k : Call)
    → b.state ≡ ready
    → (call (headless_ops c) b k).state ≡ ready
unfolding read_backend read_in headless_ops
call-ready c b (commits out flags) e = ap (λ r. r.1.state) (commit-ready c b out flags e) ∙ e
call-ready c b reads_events e = rw e refl

state_of : Option (Backend Impl) → BackendState
state_of none = ready
state_of (some b) = b.state

created-ready :
    (r : Status × Backend Impl) (b : Backend Impl) → created r ≡ some b → b.state ≡ ready
unfolding created state_of
created-ready (status_ok, b') b e = ap state_of (sym e)
created-ready (s, b') b e = cc

stays_ready :
    (c : Setup) (b : Backend Impl) (ks : List Call) (out flags : ℕ)
    → b.state ≡ ready
    → let b' = run_calls (headless_ops c) b ks in
      (b'.state ≡ ready) × (commit_backend (headless_ops c) b' out flags ≡ (status_ok, b'))
unfolding run_calls
stays_ready c b [] out flags e = (e, commit-ready c b out flags e)
stays_ready c b (k ∷ ks) out flags e =
    stays_ready c (call (headless_ops c) b k) ks out flags (call-ready c b k e)

-- A headless backend that was created is never busy: after any sequence of commits and reads of
-- events it is READY, and the next commit, of any output and flags, succeeds and leaves it so.
pub run_calls-ready :
    (c : Setup) (calloc_ok : Bool) (b : Backend Impl) (ks : List Call) (out flags : ℕ)
    → create_backend (headless_ops c) calloc_ok none ≡ some b
    → let b' = run_calls (headless_ops c) b ks in
      (b'.state ≡ ready) × (commit_backend (headless_ops c) b' out flags ≡ (status_ok, b'))
unfolding create_backend
run_calls-ready c false b ks out flags e = cc
run_calls-ready c true b ks out flags e = stays_ready c b ks out flags (created-ready _ b e)
