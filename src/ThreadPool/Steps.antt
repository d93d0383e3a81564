-- ===== src/ThreadPool/Steps.antt =====
-- src/util/isz_thread_pool.c: whatever the threads do, in any order, the pool keeps its promises.
use ishizue.Base.{
  ℕ, ◌<◌, ◌==◌, ◌≡◌, refl, sym, ◌∙◌, ap, subst, ◌⊎◌, inl, inr, Bool, true, false, Option, none,
  some, List, [], ◌∷◌, ◌++◌, append_assoc, if_cases,
}
use ishizue.ThreadPool.{
  WorkItem, Worker, worker_waiting, worker_working, worker_finished, worker_exited, ThreadPool,
  create_pool, submit_work, put_worker, run_worker, PoolStep, submits, works, destroys, PoolReach,
  here, next, advance_worker, take_item, submit_fd, submit_item, refuse_work, Submitted,
}
use ishizue.ThreadPool.Places.{Holds, moved, kept, settle, entrust}
use ishizue.ThreadPool.Histories.{Has, Has-add, Has_last, Has_split}

-- Items are taken in the order of submission, and each that is taken is run and then signalled, or
-- a worker is about to do so; a worker that has returned left nothing behind.
pub record IsValid (p : ThreadPool) : Type 0 where
  pub fifo : p.taken ++ p.queue ≡ p.accepted
  pub drained : (i : ℕ) → p.workers i ≡ worker_exited → (p.shutdown ≡ true) × (p.queue ≡ [])
  pub held :
      (x : WorkItem)
      → Has x p.taken
      → (Has x p.ran) ⊎ Holds p.n_spawned p.workers (worker_working x)
  pub called :
      (x : WorkItem)
      → Has x p.ran
      → (Has x p.signalled) ⊎ Holds p.n_spawned p.workers (worker_finished x)
  pub done : (i : ℕ) (x : WorkItem) → p.workers i ≡ worker_finished x → Has x p.ran
  pub fence : (x : WorkItem) → Has x p.signalled → Has x p.ran

create_pool-IsValid : (n : ℕ) → IsValid (create_pool n)
create_pool-IsValid n = record {
  fifo = refl;
  drained = λ i e. absurd (cc);
  held = λ x h. absurd h;
  called = λ x h. absurd h;
  done = λ i x e. absurd (cc);
  fence = λ x h. absurd h;
}

module _ (p : ThreadPool) (v : IsValid p) (i : ℕ) (lt : i < p.n_spawned) where
  exit-IsValid :
      p.workers i ≡ worker_waiting
      → p.shutdown ≡ true
      → p.queue ≡ []
      → IsValid (put_worker p i worker_exited)
  exit-IsValid e sd q = record {
    fifo = v.fifo;
    drained = λ j.
        moved p.n_spawned p.workers i worker_exited j worker_exited (λ _. (sd, q)) (v.drained j);
    held = λ x h.
        kept p.n_spawned p.workers i worker_exited (worker_working x) (λ r. absurd (cc))
          (v.held x h);
    called = λ x h.
        kept p.n_spawned p.workers i worker_exited (worker_finished x) (λ r. absurd (cc))
          (v.called x h);
    done = λ j x.
        moved p.n_spawned p.workers i worker_exited j (worker_finished x) (λ r. absurd (cc))
          (v.done j x);
    fence = v.fence;
  }

  take-IsValid :
      (item : WorkItem) (rest : List WorkItem)
      → p.workers i ≡ worker_waiting
      → p.queue ≡ item ∷ rest
      → IsValid (take_item p i (item ∷ rest))
  unfolding take_item
  take-IsValid item rest e q = record {
    fifo = append_assoc p.taken (item ∷ []) rest ∙ ap (λ l. p.taken ++ l) (sym q) ∙ v.fifo;
    drained = λ j.
        moved p.n_spawned p.workers i (worker_working item) j worker_exited (λ r. absurd (cc))
          (λ r. absurd (let d = (v.drained j r).1 in cc));
    held = λ x.
        entrust p.n_spawned p.workers i (worker_working item) worker_working item x p.taken refl lt
          (λ r. absurd (cc)) v.held;
    called = λ x h.
        kept p.n_spawned p.workers i (worker_working item) (worker_finished x) (λ r. absurd (cc))
          (v.called x h);
    done = λ j x.
        moved p.n_spawned p.workers i (worker_working item) j (worker_finished x) (λ r. absurd (cc))
          (v.done j x);
    fence = v.fence;
  }

  call-IsValid :
      (item : WorkItem)
      → p.workers i ≡ worker_working item
      → IsValid (put_worker (record p { ran = p.ran ++ item ∷ [] }) i (worker_finished item))
  call-IsValid item e = record {
    fifo = v.fifo;
    drained = λ j.
        moved p.n_spawned p.workers i (worker_finished item) j worker_exited (λ r. absurd (cc))
          (v.drained j);
    held = λ x h.
        settle p.n_spawned p.workers i (worker_finished item) worker_working item x p.ran e
          (λ r. cc) (v.held x h);
    called = λ x.
        entrust p.n_spawned p.workers i (worker_finished item) worker_finished item x p.ran refl lt
          (λ r. absurd (cc)) v.called;
    done = λ j x.
        moved p.n_spawned p.workers i (worker_finished item) j (worker_finished x)
          (λ r. subst (λ y. Has y (p.ran ++ item ∷ [])) (cc) (Has_last item p.ran))
          (λ r. Has-add x item p.ran (v.done j x r));
    fence = λ x h. Has-add x item p.ran (v.fence x h);
  }

  signal-IsValid :
      (item : WorkItem)
      → p.workers i ≡ worker_finished item
      → IsValid (put_worker (record p { signalled = p.signalled ++ item ∷ [] }) i worker_waiting)
  signal-IsValid item e = record {
    fifo = v.fifo;
    drained = λ j.
        moved p.n_spawned p.workers i worker_waiting j worker_exited (λ r. absurd (cc))
          (v.drained j);
    held = λ x h.
        kept p.n_spawned p.workers i worker_waiting (worker_working x) (λ r. absurd (cc))
          (v.held x h);
    called = λ x h.
        settle p.n_spawned p.workers i worker_waiting worker_finished item x p.signalled e (λ r. cc)
          (v.called x h);
    done = λ j x.
        moved p.n_spawned p.workers i worker_waiting j (worker_finished x) (λ r. absurd (cc))
          (v.done j x);
    fence = λ x h. elim (Has_split x item p.signalled h) [
      | inl m ↦ v.fence x m
      | inr s ↦ subst (λ y. Has y p.ran) (sym s) (v.done i item e)
    ];
  }

  take_item-IsValid :
      (q : List WorkItem) → p.workers i ≡ worker_waiting → p.queue ≡ q → IsValid (take_item p i q)
  unfolding take_item
  take_item-IsValid [] e q = if_cases IsValid p.shutdown (λ sd. exit-IsValid e sd q) (λ _. v)
  take_item-IsValid (item ∷ rest) e q = take-IsValid item rest e q

  advance_worker-IsValid : (w : Worker) → p.workers i ≡ w → IsValid (advance_worker p i w)
  unfolding advance_worker
  advance_worker-IsValid worker_waiting e = take_item-IsValid p.queue e refl
  advance_worker-IsValid (worker_working item) e = call-IsValid item e
  advance_worker-IsValid (worker_finished item) e = signal-IsValid item e
  advance_worker-IsValid worker_exited e = v

submit-IsValid :
    (p : ThreadPool) (fn ctx : ℕ) (efd : Option ℕ) (alloc_ok : Bool)
    → p.shutdown ≡ false
    → IsValid p
    → IsValid (submit_work p fn ctx efd alloc_ok).pool
unfolding submit_work submit_fd submit_item refuse_work
submit-IsValid p fn ctx efd alloc_ok sd v =
    if_cases (λ (s : Submitted). IsValid s.pool) (fn == 0) (λ _. v) (λ _. by_fd efd)
  where
    by_fd : (efd : Option ℕ) → IsValid (submit_fd p fn ctx efd alloc_ok).pool
    by_fd none = v
    by_fd (some fd) =
        let item : WorkItem = record { fn = fn; ctx = ctx; fence_fd = fd } in
        if_cases (λ (s : Submitted). IsValid s.pool) alloc_ok
          (λ _. record {
            fifo = sym (append_assoc p.taken p.queue (item ∷ [])) ∙ ap (λ l. l ++ item ∷ []) v.fifo;
            drained = λ i r. absurd (let d = (v.drained i r).0 in cc);
            held = v.held;
            called = v.called;
            done = v.done;
            fence = v.fence;
          })
          (λ _. v)

PoolStep-IsValid : {p q : ThreadPool} → PoolStep p q → IsValid p → IsValid q
unfolding run_worker
PoolStep-IsValid (submits p fn ctx efd alloc_ok sd) v = submit-IsValid p fn ctx efd alloc_ok sd v
PoolStep-IsValid (works p i lt) v = advance_worker-IsValid p v i lt (p.workers i) refl
PoolStep-IsValid (destroys p) v = record {
  fifo = v.fifo;
  drained = λ i e. (refl, (v.drained i e).1);
  held = v.held;
  called = v.called;
  done = v.done;
  fence = v.fence;
}

-- Whatever the threads of a pool do, in any order: items are taken in the order of submission; an
-- item that was taken was called or a worker is about to call it; one that was called was signalled
-- or a worker is about to signal it; no fence is signalled before its call; and a worker that has
-- returned left an empty queue.
pub PoolReach-IsValid : (n : ℕ) {p : ThreadPool} → PoolReach (create_pool n) p → IsValid p
PoolReach-IsValid n here = create_pool-IsValid n
PoolReach-IsValid n (next r st) = PoolStep-IsValid st (PoolReach-IsValid n r)
