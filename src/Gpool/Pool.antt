-- ===== src/Gpool/Pool.antt =====
-- gpool/pool.go and the loop of a worker in gpool/worker.go, cut where the code takes or gives up
-- the pool's lock: what stands between two cuts runs with no other goroutine in between.
pub mod Steps
pub mod Retrieve
pub mod Invariant
pub mod Capacity
pub mod Calls
use gocommon.Base.{
  ℕ, zero, suc, ◌+◌, ◌-◌, ◌<◌, ◌≤◌, ◌≡◌, Bool, true, false, not, ◌&&◌, ◌||◌, Option, none, some,
  ltb, leb, ◌==◌, nat_eq, int_eq, if◌then◌else◌, ℤ, pos, negsuc, ltb_ℤ, leb_ℤ, sub_ℕ, pos_part,
  to_int32,
}
use gocommon.Gpool.Worker.{GoWorker, QueueError}
use gocommon.Gpool.WorkerArray
use gocommon.Gpool.WorkerArray.{WorkerArray, new_worker_array, stack_type, loop_queue_type}

-- `Options`, without the panic handler and the logger. A duration is in nanoseconds; it may be
-- negative until `NewPool` has seen it.
pub record Options : Type 0 where
  pub expiry_duration : ℤ
  pub pre_alloc : Bool
  pub max_blocking_tasks : ℤ
  pub nonblocking : Bool

pub data PoolType : Type 0 where
  pool_type_worker pool_type_worker_func : PoolType

-- `Pool`. `state` is `closed`. The atomic `running` counts goroutines, and each takes away only
-- what it has added.
pub record Pool : Type 0 where
  pub capacity : ℤ
  pub running : ℕ
  pub workers : WorkerArray
  pub closed : Bool
  pub blocking_num : ℕ
  pub options : Options
  pub pool_type : PoolType

pub data PoolError : Type 0 where
  lack_pool_func invalid_pool_expiry pool_closed pool_overload invalid_pre_alloc_size : PoolError

pub data Result {ℓ} (A : Type ℓ) : Type ℓ where
  ok : A → Result A
  err : PoolError → Result A

-- `DefaultCleanIntervalTime`, a second
abbrev pub default_clean_interval_time : ℕ
default_clean_interval_time = 1_000_000_000

-- `if size <= 0 { size = -1 }`
abbrev pub normal_size : ℤ → ℤ
normal_size size = if leb_ℤ size (pos 0) then negsuc 0 else size

make_pool : ℤ → Options → PoolType → WorkerArray → Pool
make_pool size opts type workers = record {
  capacity = to_int32 size;
  running = 0;
  workers = workers;
  closed = false;
  blocking_num = 0;
  options = opts;
  pool_type = type;
}

-- The expiry of 0 stands for the default.
abbrev pub with_expiry : Options → Options
with_expiry opts = record opts {
  expiry_duration =
      if opts.expiry_duration == pos 0
      then pos default_clean_interval_time
      else opts.expiry_duration;
}

-- The choice of the array, after which `NewPool` and `NewPoolWithFunc` cannot fail.
choose_array : ℤ → Options → PoolType → Result Pool
unfolding make_pool
choose_array size opts type =
    if opts.pre_alloc
    then (if size == negsuc 0
        then err invalid_pre_alloc_size
        else ok (make_pool size opts type (new_worker_array loop_queue_type (pos_part size))))
    else ok (make_pool size opts type (new_worker_array stack_type 0))

-- The part that `NewPool` and `NewPoolWithFunc` share.
build_pool : ℤ → Options → PoolType → Result Pool
unfolding choose_array
build_pool size opts type =
    if ltb_ℤ opts.expiry_duration (pos 0)
    then err invalid_pool_expiry
    else choose_array size (with_expiry opts) type

unfoldable pub new_pool : ℤ → Options → Result Pool
unfolding build_pool
new_pool size opts = build_pool (normal_size size) opts pool_type_worker

-- The Boolean says whether `pf` is nil.
unfoldable pub new_pool_with_func : ℤ → Bool → Options → Result Pool
unfolding build_pool
new_pool_with_func size pf_nil opts =
    if pf_nil then err lack_pool_func else build_pool (normal_size size) opts pool_type_worker_func

-- `Free`: -1 for a pool without limit.
unfoldable pub free : Pool → ℤ
free p = if ltb_ℤ p.capacity (pos 0) then negsuc 0 else sub_ℕ (pos_part p.capacity) p.running

-- The condition under which `Tune` returns at once.
abbrev pub tune_ignored : ℤ → Pool → Bool
tune_ignored size p =
    p.capacity == negsuc 0 || leb_ℤ size (pos 0) || size == p.capacity || p.options.pre_alloc

unfoldable pub tune : ℤ → Pool → Pool
tune size p = if tune_ignored size p then p else record p { capacity = to_int32 size }

unfoldable pub reboot : Pool → Pool
reboot p = if p.closed then record p { closed = false } else p

-- The two parts of `Release`: the store of the state, and the reset under the lock.
unfoldable pub close : Pool → Pool
close p = record p { closed = true }

unfoldable pub reset_workers : ℕ → Pool → Option (ℕ × Pool)
reset_workers fuel p = elim (WorkerArray.reset fuel p.workers) [
  | none ↦ none
  | some (sent, left) ↦ some (sent, record p { workers = left })
]

unfoldable pub inc_running : Pool → Pool
inc_running p = record p { running = p.running + 1 }

unfoldable pub dec_running : Pool → Pool
dec_running p = record p { running = p.running - 1 }

-- How a part of `retrieveWorker` ends: with a worker; with the decision to spawn one, carried out
-- after the lock is given up; with nil; or in `cond.Wait`, where the caller keeps the capacity that
-- it read before.
pub data Retrieval : Type 0 where
  got : GoWorker → Retrieval
  spawn : Retrieval
  refused : Retrieval
  wait : ℤ → Retrieval

-- The head of the `for` loop, up to `cond.Wait`.
unfoldable pub block : ℤ → Pool → Retrieval × Pool
block capacity p =
    let limit = p.options.max_blocking_tasks in
    if not (limit == pos 0) && leb_ℤ limit (pos p.blocking_num)
    then (refused, p)
    else (wait capacity, record p { blocking_num = p.blocking_num + 1 })

-- `retrieveWorker` from its entry to where it first gives up the lock.
unfoldable pub retrieve_enter : Pool → Retrieval × Pool
unfolding block
retrieve_enter p =
    let (found, left) = WorkerArray.detach p.workers in
    elim found [
      | some w ↦ (got w, record p { workers = left })
      | none ↦
          let p' = record p { workers = left } in
          if p.capacity == negsuc 0 || ltb_ℤ (pos p.running) p.capacity
          then (spawn, p')
          else if p.options.nonblocking
          then (refused, p')
          else block p.capacity p'
    ]

-- `retrieveWorker` from behind `blockingNum--` to where it gives up the lock again.
unfoldable pub retrieve_again : ℤ → Pool → Retrieval × Pool
unfolding block
retrieve_again capacity p =
    if p.running == 0
    then (if p.closed then refused else spawn, p)
    else let (found, left) = WorkerArray.detach p.workers in
      elim found [
        | some w ↦ (got w, record p { workers = left })
        | none ↦
            let p' = record p { workers = left } in
            if ltb_ℤ (pos p.running) capacity then (spawn, p') else block capacity p'
      ]

-- `retrieveWorker` from where `cond.Wait` returns.
unfoldable pub retrieve_wake : ℤ → Pool → Retrieval × Pool
unfolding retrieve_again
retrieve_wake capacity p = retrieve_again capacity (record p { blocking_num = p.blocking_num - 1 })

-- The test at the head of `revertWorker`, before it takes the lock.
unfoldable pub revert_allowed : Pool → Bool
revert_allowed p = not ((ltb_ℤ (pos 0) p.capacity && ltb_ℤ p.capacity (pos p.running)) || p.closed)

-- `revertWorker` under the lock. The worker was stamped before, with the time `now`.
unfoldable pub revert_insert : ℕ → GoWorker → Pool → Bool × Pool
revert_insert now w p =
    if p.closed
    then (false, p)
    else let (e, left) = WorkerArray.insert (record w { recycle_time = now }) p.workers in
      elim e [
        | none ↦ (true, record p { workers = left })
        | some _ ↦ (false, record p { workers = left })
      ]

-- `revertWorker` with no other goroutine in between.
unfoldable pub revert_worker : ℕ → GoWorker → Pool → Bool × Pool
unfolding revert_allowed revert_insert
revert_worker now w p = if revert_allowed p then revert_insert now w p else (false, p)

-- One round of the clean-up: the number of workers that it stops, and the pool.
unfoldable pub purge : ℕ → Pool → Option (ℕ × Pool)
purge now p =
    elim (WorkerArray.retrieve_expiry now (pos_part p.options.expiry_duration) p.workers) [
      | none ↦ none
      | some (out, left) ↦ some (out, record p { workers = left })
    ]

-- `Submit` and `Invoke`, up to the hand-over of the task: the error that they return at once, or
-- how the retrieval of a worker goes on.
unfoldable pub submit : Pool → Result Retrieval × Pool
unfolding retrieve_enter
submit p =
    if p.closed
    then (err pool_closed, p)
    else let (r, p') = retrieve_enter p in
      elim r [
        | got w ↦ (ok (got w), p')
        | spawn ↦ (ok spawn, p')
        | wait c ↦ (ok (wait c), p')
        | refused ↦ (err pool_overload, p')
      ]
