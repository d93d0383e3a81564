-- ===== src/Backend/Session.antt =====
-- src/backend/isz_backend.c: any sequence of commits and reads of events on a backend.
use ishizue.Base.{ℕ, ◌≡◌, ◌≢◌, refl, ap, sym, ◌∙◌, subst, List, [], ◌∷◌}
use ishizue.Status.{status_ok}
use ishizue.Backend.{error, Backend, Ops, commit_in, commit_backend, read_backend}
use ishizue.Backend.States.{
  KeepsContract, IsValid, Moves-IsValid, Moves-error, Commits, commit_backend-Commits,
  Commits-IsValid, read_in-Moves,
}

-- The calls of the server on its backend, in any order.
pub data Call : Type 0 where
  commits : ℕ → ℕ → Call
  reads_events : Call

module _ {I : Type 0} where
  abbrev pub call : Ops I → Backend I → Call → Backend I
  call ops b (commits out flags) = (commit_backend ops b out flags).1
  call ops b reads_events = (read_backend ops b).1

  unfoldable pub run_calls : Ops I → Backend I → List Call → Backend I
  run_calls ops b [] = b
  run_calls ops b (c ∷ cs) = run_calls ops (call ops b c) cs

  module _ (ops : Ops I) (contract : KeepsContract ops) where
    call-IsValid : (b : Backend I) (c : Call) → IsValid b → IsValid (call ops b c)
    unfolding read_backend
    call-IsValid b (commits out flags) v =
        Commits-IsValid ops contract b.state b (commit_backend ops b out flags) v
          (commit_backend-Commits ops contract b out flags v)
    call-IsValid b reads_events v = Moves-IsValid (read_in-Moves ops contract b.state b) v

    call-error : (b : Backend I) (c : Call) → b.state ≡ error → (call ops b c).state ≡ error
    unfolding read_backend commit_backend commit_in
    call-error b (commits out flags) e = rw e refl
    call-error b reads_events e = Moves-error (read_in-Moves ops contract b.state b) e

    -- A fatal error is final: whatever commits and reads of events follow, the backend stays in ERROR
    -- and every further commit fails, and changes nothing.
    pub run_calls-error :
        (b : Backend I) (cs : List Call) (out flags : ℕ)
        → IsValid b
        → b.state ≡ error
        → let b' = run_calls ops b cs in
          let r = commit_backend ops b' out flags in
          (b'.state ≡ error) × (r.0 ≢ status_ok) × (r.1 ≡ b')
    unfolding run_calls
    run_calls-error b [] out flags v e =
        let r : commit_backend ops b out flags ≡ (b.last_error, b) =
          subst (λ s. Commits b s (commit_backend ops b out flags)) e
            (commit_backend-Commits ops contract b out flags v) in
        (e, (λ k. v.on_record e (sym (ap (λ x. x.0) r) ∙ k)), ap (λ x. x.1) r)
    run_calls-error b (c ∷ cs) out flags v e =
        run_calls-error (call ops b c) cs out flags (call-IsValid b c v) (call-error b c e)
