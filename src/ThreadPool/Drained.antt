-- ===== src/ThreadPool/Drained.antt =====
-- src/util/isz_thread_pool.c: when a destroyed pool has been joined, all its work is done.
use ishizue.Base.{ℕ, ◌<◌, ◌≡◌, ◌≢◌, sym, ◌∙◌, subst, ◌⊎◌, inl, inr, [], ◌++◌, append-nil, ap}
use ishizue.ThreadPool.{
  WorkItem, Worker, worker_working, worker_finished, worker_exited, ThreadPool, create_pool,
  IsJoined, PoolReach,
}
use ishizue.ThreadPool.Histories.{Has}
use ishizue.ThreadPool.Places.{Holds}
use ishizue.ThreadPool.Steps.{IsValid, PoolReach-IsValid}

-- The queue is empty, the items were taken in the order of submission, and each was called and
-- signalled.
pub record IsDrained (p : ThreadPool) : Type 0 where
  pub no_queue : p.queue ≡ []
  pub in_order : p.taken ≡ p.accepted
  pub was_run : (x : WorkItem) → Has x p.accepted → Has x p.ran
  pub was_signalled : (x : WorkItem) → Has x p.accepted → Has x p.signalled

-- No worker of a joined pool stands for an item.
settled_by :
    {P : Type 0} (p : ThreadPool) (w : Worker)
    → IsJoined p
    → w ≢ worker_exited
    → P ⊎ Holds p.n_spawned p.workers w
    → P
settled_by p w j ne (inl m) = m
settled_by p w j ne (inr h) = absurd (ne (sym h.place ∙ j h.at h.spawned))

joined-IsDrained : (p : ThreadPool) → 0 < p.n_spawned → IsJoined p → IsValid p → IsDrained p
joined-IsDrained p some_worker j v = record {
  no_queue = empty;
  in_order = order;
  was_run = run;
  was_signalled = λ x h. signal x (run x h);
}
  where
    empty : p.queue ≡ []
    empty = (v.drained 0 (j 0 some_worker)).1

    order : p.taken ≡ p.accepted
    order = sym (append-nil p.taken) ∙ ap (λ l. p.taken ++ l) (sym empty) ∙ v.fifo

    run : (x : WorkItem) → Has x p.accepted → Has x p.ran
    run x h =
        settled_by p (worker_working x) j (λ e. cc) (v.held x (subst (λ l. Has x l) (sym order) h))

    signal : (x : WorkItem) → Has x p.ran → Has x p.signalled
    signal x h = settled_by p (worker_finished x) j (λ e. cc) (v.called x h)

-- However a pool with a worker came to be joined, its queue is empty, its work was taken from the
-- queue in the order of submission, and every accepted item was called and its fence signalled, in
-- whatever order the workers did so.
pub PoolReach-IsDrained :
    (n : ℕ) (p : ThreadPool)
    → PoolReach (create_pool n) p
    → 0 < p.n_spawned
    → IsJoined p
    → IsDrained p
PoolReach-IsDrained n p r some_worker j = joined-IsDrained p some_worker j (PoolReach-IsValid n r)
