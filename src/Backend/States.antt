-- ===== src/Backend/States.antt =====
-- src/backend/isz_backend.c: what the state machine promises of any backend that keeps its contract.
use ishizue.Base.{ℕ, ◌≡◌, ◌≢◌, ◌⊎◌, refl, ap, inl, inr}
use ishizue.Status.{Status, status_ok, commit_pending, invalid_arg}
use ishizue.Backend.{
  BackendState, uninitialized, ready, committing, error, Backend, Ops, finish_commit, finished,
  set_error, settled, cached, commit_in, commit_backend, read_in,
}

-- What an operation of a backend does to it: it changes its own state, finishes a commit, or reports
-- a fatal error with `isz_backend_set_error`, in some order.
pub data Moves {I : Type 0} : Backend I → Backend I → Type 0 where
  stays : {b : Backend I} (i : I) → Moves b (record b { impl = i })
  finishes : {b c : Backend I} → Moves b c → Moves b (finish_commit c)
  fails : {b c : Backend I} (e : Status) → e ≢ status_ok → Moves b c → Moves b (set_error c e)

-- The contract of isz_backend.h: only these moves, and success means no fatal error.
pub record KeepsContract {I : Type 0} (ops : Ops I) : Type 0 where
  pub init_moves : (b : Backend I) → Moves b (ops.init b).1
  pub commit_moves : (b : Backend I) (out flags : ℕ) → Moves b (ops.commit_op b out flags).1
  pub read_moves : (b : Backend I) → Moves b (ops.read_events_op b).1
  pub commit_success :
      (b : Backend I) (out flags : ℕ)
      → b.state ≡ committing
      → (ops.commit_op b out flags).0 ≡ status_ok
      → (ops.commit_op b out flags).1.state ≢ error

finished-started : (s : BackendState) → s ≢ uninitialized → finished s ≢ uninitialized
finished-started uninitialized h = h
finished-started ready h = λ e. cc
finished-started committing h = λ e. cc
finished-started error h = λ e. cc

finished-error : (s : BackendState) → finished s ≡ error → s ≡ error
finished-error uninitialized h = cc
finished-error ready h = cc
finished-error committing h = cc
finished-error error h = refl

cached_error : (s : Status) → s ≢ status_ok → cached s ≡ s
cached_error status_ok h = absurd (h refl)
cached_error _ h = refl

succeeded : (s : BackendState) → s ≢ uninitialized → s ≢ error → (s ≡ ready) ⊎ (s ≡ committing)
succeeded uninitialized u e = absurd (u refl)
succeeded ready u e = inl refl
succeeded committing u e = inr refl
succeeded error u e = absurd (e refl)

failed : (s : BackendState) → s ≢ uninitialized → (finished s ≡ ready) ⊎ (finished s ≡ error)
failed uninitialized u = absurd (u refl)
failed ready u = inl refl
failed committing u = inl refl
failed error u = inr refl

module _ {I : Type 0} where
  -- A fatal error is on record, and the backend was initialised.
  pub record IsValid (b : Backend I) : Type 0 where
    pub started : b.state ≢ uninitialized
    pub on_record : b.state ≡ error → b.last_error ≢ status_ok

  finish_commit-IsValid : (b : Backend I) → IsValid b → IsValid (finish_commit b)
  unfolding finish_commit
  finish_commit-IsValid b v = record {
    started = finished-started b.state v.started;
    on_record = λ e. v.on_record (finished-error b.state e);
  }

  pub Moves-IsValid : {b c : Backend I} → Moves b c → IsValid b → IsValid c
  unfolding set_error
  Moves-IsValid (stays i) v = record { started = v.started; on_record = v.on_record }
  Moves-IsValid (finishes m) v = finish_commit-IsValid _ (Moves-IsValid m v)
  Moves-IsValid (fails e ne m) v = record { started = λ k. cc; on_record = λ _. ne }

  -- A fatal error stays.
  pub Moves-error : {b c : Backend I} → Moves b c → b.state ≡ error → c.state ≡ error
  unfolding set_error finish_commit
  Moves-error (stays i) e = e
  Moves-error (finishes m) e = ap finished (Moves-error m e)
  Moves-error (fails x ne m) e = refl

  -- What a commit promises, by the state that it finds.
  abbrev pub Commits : Backend I → BackendState → Status × Backend I → Type 0
  Commits b uninitialized r = r ≡ (invalid_arg, b)
  Commits b committing r = r ≡ (commit_pending, b)
  Commits b error r = r ≡ (b.last_error, b)
  Commits b ready r =
      IsValid r.1
      × ((r.0 ≡ status_ok) × ((r.1.state ≡ ready) ⊎ (r.1.state ≡ committing))
          ⊎ (r.0 ≢ status_ok) × ((r.1.state ≡ ready) ⊎ (r.1.state ≡ error)))

  module _ (b : Backend I) where
    settled-Commits :
        (s : Status) (c : Backend I)
        → IsValid c
        → (s ≡ status_ok → c.state ≢ error)
        → Commits b ready (settled (s, c))
    unfolding settled finish_commit
    settled-Commits status_ok c v k = (v, inl (refl, succeeded c.state v.started (k refl)))
    settled-Commits s c v k = (finish_commit-IsValid c v, inr ((λ e. cc), failed c.state v.started))

  module _ (ops : Ops I) (contract : KeepsContract ops) where
    commit_in-Commits :
        (s : BackendState) (b : Backend I) (out flags : ℕ)
        → b.state ≡ s
        → IsValid b
        → Commits b s (commit_in s ops b out flags)
    unfolding commit_in
    commit_in-Commits uninitialized b out flags e v = refl
    commit_in-Commits committing b out flags e v = refl
    commit_in-Commits error b out flags e v =
        ap (λ x. (x, b)) (cached_error b.last_error (v.on_record e))
    commit_in-Commits ready b out flags e v =
        let b' : Backend I = record b { state = committing } in
        let v' : IsValid b' = record { started = λ k. cc; on_record = λ k. cc } in
        let r = ops.commit_op b' out flags in
        settled-Commits b r.0 r.1 (Moves-IsValid (contract.commit_moves b' out flags) v')
          (contract.commit_success b' out flags refl)

    -- `isz_backend_commit` on an initialised backend that keeps its contract. A commit that is
    -- pending makes it ISZ_ERR_COMMIT_PENDING, a fatal error makes it that error, and nothing
    -- changes. On a ready backend it succeeds and leaves it READY or COMMITTING, or it fails and
    -- leaves it READY or, behind a fatal error, in ERROR: a failed commit is never pending.
    pub commit_backend-Commits :
        (b : Backend I) (out flags : ℕ)
        → IsValid b
        → Commits b b.state (commit_backend ops b out flags)
    unfolding commit_backend
    commit_backend-Commits b out flags v = commit_in-Commits b.state b out flags refl v

    pub Commits-IsValid :
        (s : BackendState) (b : Backend I) (r : Status × Backend I)
        → IsValid b
        → Commits b s r
        → IsValid r.1
    Commits-IsValid uninitialized b r v c = rw c v
    Commits-IsValid committing b r v c = rw c v
    Commits-IsValid error b r v c = rw c v
    Commits-IsValid ready b r v c = c.0

    pub read_in-Moves : (s : BackendState) (b : Backend I) → Moves b (read_in s ops b).1
    unfolding read_in
    read_in-Moves uninitialized b = stays b.impl
    read_in-Moves s b = contract.read_moves b
