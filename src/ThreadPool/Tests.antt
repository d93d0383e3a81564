-- ===== src/ThreadPool/Tests.antt =====
-- src/util/isz_thread_pool.c: a pool with one worker that runs an item and is destroyed.
use ishizue.Base.{◌<◌, ◌≡◌, refl, sym, subst, true, false, some, [], ◌∷◌, arith}
use ishizue.ThreadPool.{
  WorkItem, worker_exited, ThreadPool, create_pool, submit_work, submit_fd, submit_item,
  refuse_work, run_worker, advance_worker, take_item, begin_destroy, IsJoined, submits, works,
  destroys, PoolReach, here, next,
}
use ishizue.ThreadPool.Steps.{IsValid, PoolReach-IsValid}
use ishizue.ThreadPool.Drained.{IsDrained, PoolReach-IsDrained}

abbrev item : WorkItem
item = record { fn = 7; ctx = 9; fence_fd = 5 }

abbrev loaded : ThreadPool
loaded = (submit_work (create_pool 1) 7 9 (some 5) true).pool

abbrev worked : ThreadPool
worked = run_worker (run_worker (run_worker loaded 0) 0) 0

abbrev ended : ThreadPool
ended = run_worker (begin_destroy worked) 0

loaded_reached : PoolReach (create_pool 1) loaded
loaded_reached = next here (submits (create_pool 1) 7 9 (some 5) true refl)

ended_reached : PoolReach (create_pool 1) ended
unfolding run_worker advance_worker take_item submit_work submit_fd submit_item refuse_work
ended_reached =
    next
      (next
        (next
          (next (next loaded_reached (works loaded 0 (omega arith)))
            (works (run_worker loaded 0) 0 (omega arith)))
          (works (run_worker (run_worker loaded 0) 0) 0 (omega arith)))
        (destroys worked))
      (works (begin_destroy worked) 0 (omega arith))

one_worker : 0 < ended.n_spawned
unfolding run_worker advance_worker take_item submit_work submit_fd submit_item refuse_work
one_worker = omega arith

ended-IsJoined : IsJoined ended
unfolding run_worker advance_worker take_item submit_work submit_fd submit_item refuse_work
ended-IsJoined i lt =
    let first : i ≡ 0 = omega arith in subst (λ k. ended.workers k ≡ worker_exited) (sym first) refl

ended_history : ended.signalled ≡ item ∷ []
unfolding run_worker advance_worker take_item submit_work submit_fd submit_item refuse_work
ended_history = refl

-- A null function is refused, and without memory the fence is closed again.
no_memory_closes : (submit_work (create_pool 1) 7 9 (some 5) false).closed ≡ 5 ∷ []
unfolding submit_work submit_fd refuse_work
no_memory_closes = refl

PoolReach-IsDrained_example : IsDrained ended
PoolReach-IsDrained_example = PoolReach-IsDrained 1 ended ended_reached one_worker ended-IsJoined

PoolReach-IsValid_example : IsValid loaded
PoolReach-IsValid_example = PoolReach-IsValid 1 loaded_reached
