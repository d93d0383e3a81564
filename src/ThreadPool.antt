-- ===== src/ThreadPool.antt =====
-- src/util/isz_thread_pool.{h,c}: the queue of work and the loop of a worker, for a build with
-- workers. A worker is at one of the places where it holds no lock; `accepted`, `taken`, `ran` and
-- `signalled` are the histories of what was submitted, taken from the queue, called, and signalled.
mod Histories
mod Places
mod Steps
mod Drained
mod Tests
use ishizue.Base.{
  ℕ, ◌<◌, ◌==◌, ◌≡◌, Bool, true, false, Option, none, some, List, [], ◌∷◌, ◌++◌, if◌then◌else◌,
}

-- `struct isz_work_item`.
pub record WorkItem : Type 0 where
  pub fn : ℕ
  pub ctx : ℕ
  pub fence_fd : ℕ

-- A worker waits for the queue, has an item to call, has one to signal, or has returned.
pub data Worker : Type 0 where
  worker_waiting : Worker
  worker_working : WorkItem → Worker
  worker_finished : WorkItem → Worker
  worker_exited : Worker

-- `struct isz_thread_pool`, its threads and the histories.
pub record ThreadPool : Type 0 where
  pub queue : List WorkItem
  pub shutdown : Bool
  pub workers : ℕ → Worker
  pub n_spawned : ℕ
  pub accepted : List WorkItem
  pub taken : List WorkItem
  pub ran : List WorkItem
  pub signalled : List WorkItem

-- `isz_thread_pool_create`, when every thread could be started; 0 asks for the default number.
abbrev pub create_pool : ℕ → ThreadPool
create_pool n = record {
  queue = [];
  shutdown = false;
  workers = λ i. worker_waiting;
  n_spawned = if n == 0 then 4 else n;
  accepted = [];
  taken = [];
  ran = [];
  signalled = [];
}

pub record Submitted : Type 0 where
  pub fd : Option ℕ
  pub closed : List ℕ
  pub pool : ThreadPool

refuse_work : ThreadPool → List ℕ → Submitted
refuse_work p fds = record { fd = none; closed = fds; pool = p }

-- `isz_thread_pool_submit_work`: a function 0 is NULL, `efd` is the result of `eventfd`, `alloc_ok`
-- says whether `malloc` succeeds.
submit_item : ThreadPool → WorkItem → Submitted
submit_item p item = record {
  fd = some item.fence_fd;
  closed = [];
  pool = record p { queue = p.queue ++ item ∷ []; accepted = p.accepted ++ item ∷ [] };
}

submit_fd : ThreadPool → ℕ → ℕ → Option ℕ → Bool → Submitted
unfolding refuse_work submit_item
submit_fd p fn ctx none alloc_ok = refuse_work p []
submit_fd p fn ctx (some fd) alloc_ok =
    if alloc_ok
    then submit_item p (record { fn = fn; ctx = ctx; fence_fd = fd })
    else refuse_work p (fd ∷ [])

pub submit_work : ThreadPool → ℕ → ℕ → Option ℕ → Bool → Submitted
unfolding submit_fd
submit_work p fn ctx efd alloc_ok =
    if fn == 0 then refuse_work p [] else submit_fd p fn ctx efd alloc_ok

-- A worker moves on.
abbrev pub put_worker : ThreadPool → ℕ → Worker → ThreadPool
put_worker p i w = record p { workers = λ j. if j == i then w else p.workers j }

-- Under the lock: an item, or the end of the thread, or the wait goes on.
take_item : ThreadPool → ℕ → List WorkItem → ThreadPool
take_item p i [] = if p.shutdown then put_worker p i worker_exited else p
take_item p i (item ∷ rest) =
    put_worker (record p { queue = rest; taken = p.taken ++ item ∷ [] }) i (worker_working item)

-- `isz_thread_pool_worker`, from one of its places to the next: the lock section, the call of the
-- work function, the write to the fence.
advance_worker : ThreadPool → ℕ → Worker → ThreadPool
unfolding take_item
advance_worker p i worker_waiting = take_item p i p.queue
advance_worker p i (worker_working item) =
    put_worker (record p { ran = p.ran ++ item ∷ [] }) i (worker_finished item)
advance_worker p i (worker_finished item) =
    put_worker (record p { signalled = p.signalled ++ item ∷ [] }) i worker_waiting
advance_worker p i worker_exited = p

pub run_worker : ThreadPool → ℕ → ThreadPool
unfolding advance_worker
run_worker p i = advance_worker p i (p.workers i)

-- `isz_thread_pool_destroy` up to its joins, which wait until `IsJoined`.
abbrev pub begin_destroy : ThreadPool → ThreadPool
begin_destroy p = record p { shutdown = true }

abbrev pub IsJoined : ThreadPool → Type 0
IsJoined p = (i : ℕ) → i < p.n_spawned → p.workers i ≡ worker_exited

-- The threads in any order. No work is submitted once the pool is being destroyed, which frees it.
pub data PoolStep : ThreadPool → ThreadPool → Type 0 where
  submits :
      (p : ThreadPool) (fn ctx : ℕ) (efd : Option ℕ) (alloc_ok : Bool)
      → p.shutdown ≡ false
      → PoolStep p (submit_work p fn ctx efd alloc_ok).pool
  works : (p : ThreadPool) (i : ℕ) → i < p.n_spawned → PoolStep p (run_worker p i)
  destroys : (p : ThreadPool) → PoolStep p (begin_destroy p)

pub data PoolReach (s : ThreadPool) : ThreadPool → Type 0 where
  here : PoolReach s s
  next : {p q : ThreadPool} → PoolReach s p → PoolStep p q → PoolReach s q
