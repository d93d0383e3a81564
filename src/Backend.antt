-- ===== src/Backend.antt =====
-- src/backend/isz_backend.c: the state machine that every backend goes through. A backend's own
-- operations are a table of functions on the backend with its private state.
pub mod States
pub mod Session
pub mod Headless
mod Tests
use ishizue.Base.{ℕ, Bool, true, false, Option, none, some}
use ishizue.Status.{Status, status_ok, commit_failed, commit_pending, invalid_arg}

-- `enum isz_backend_state`.
pub data BackendState : Type 0 where
  uninitialized ready committing error : BackendState

-- `struct isz_backend`, with the private state behind `impl`.
pub record Backend (I : Type 0) : Type 0 where
  pub state : BackendState
  pub last_error : Status
  pub impl : I

-- `struct isz_backend_ops`: `init`, `commit` for an output and flags, and `read_events`.
pub record Ops (I : Type 0) : Type 0 where
  pub init : Backend I → Status × Backend I
  pub commit_op : Backend I → ℕ → ℕ → Status × Backend I
  pub read_events_op : Backend I → Status × Backend I

-- The answer to a commit behind a fatal error.
abbrev pub cached : Status → Status
cached status_ok = commit_failed
cached s = s

-- The state where a commit ends, whether it was pending or not.
abbrev pub finished : BackendState → BackendState
finished committing = ready
finished s = s

module _ {I : Type 0} where
  created : Status × Backend I → Option (Backend I)
  created (status_ok, b) = some (record b { state = ready })
  created (s, b) = none

  -- `isz_backend_create` with the operations of its type; `impl` stands for the zeroed pointer.
  pub create_backend : Ops I → Bool → I → Option (Backend I)
  unfolding created
  create_backend ops calloc_ok impl = elim calloc_ok [
    | true ↦
        created (ops.init (record { state = uninitialized; last_error = status_ok; impl = impl }))
    | false ↦ none
  ]

  -- `isz_backend_finish_commit`.
  pub finish_commit : Backend I → Backend I
  finish_commit b = record b { state = finished b.state }

  -- `isz_backend_set_error`.
  pub set_error : Backend I → Status → Backend I
  set_error b e = record b { state = error; last_error = e }

  -- Behind the operation: a failure that is not fatal goes back to READY.
  settled : Status × Backend I → Status × Backend I
  settled (status_ok, b) = (status_ok, b)
  settled (s, b) = (s, record b { state = finished b.state })

  pub commit_in : BackendState → Ops I → Backend I → ℕ → ℕ → Status × Backend I
  unfolding settled
  commit_in uninitialized ops b out flags = (invalid_arg, b)
  commit_in error ops b out flags = (cached b.last_error, b)
  commit_in committing ops b out flags = (commit_pending, b)
  commit_in ready ops b out flags =
      settled (ops.commit_op (record b { state = committing }) out flags)

  -- `isz_backend_commit`.
  unfoldable pub commit_backend : Ops I → Backend I → ℕ → ℕ → Status × Backend I
  unfolding commit_in
  commit_backend ops b out flags = commit_in b.state ops b out flags

  pub read_in : BackendState → Ops I → Backend I → Status × Backend I
  read_in uninitialized ops b = (invalid_arg, b)
  read_in s ops b = ops.read_events_op b

  -- `isz_backend_read_events`.
  pub read_backend : Ops I → Backend I → Status × Backend I
  unfolding read_in
  read_backend ops b = read_in b.state ops b
