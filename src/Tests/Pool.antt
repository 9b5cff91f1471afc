-- ===== src/Tests/Pool.antt =====
-- Runs of the pool.
use gocommon.Base.{◌≡◌, ◌≢◌, ◌↔◌, refl, [], ◌∷◌, true, false, pos, length, to_int32}
use gocommon.Gpool.Worker.{GoWorker}
use gocommon.Gpool.WorkerStack.{new_worker_stack}
use gocommon.Gpool.WorkerArray.{stack, new_worker_array}
use gocommon.Gpool.Pool.{
  Pool, Options, got, spawn, pool_overload, ok, err, pool_type_worker, new_pool, submit,
  retrieve_enter,
}
use gocommon.Gpool.Pool.Steps.{settle, here, next, enter, start_of}
use gocommon.Gpool.Pool.Retrieve.{Sound}
use gocommon.Gpool.Pool.Calls.{new_pool-Sound, submit_nonblocking, has_room}

abbrev nonblocking : Options
nonblocking = record {
  expiry_duration = pos 1000;
  pre_alloc = false;
  max_blocking_tasks = pos 0;
  nonblocking = true;
}

abbrev worker : GoWorker
worker = record { id = 1; recycle_time = 10 }

-- A pool of two goroutines, one of them idle.
abbrev one_idle : Pool
one_idle = record {
  capacity = pos 2;
  running = 1;
  workers = stack (record { items = worker ∷ []; expiry = []; size = 0 });
  closed = false;
  blocking_num = 0;
  options = nonblocking;
  pool_type = pool_type_worker;
}

-- The pool that `NewPool` makes for the size 2.
abbrev fresh : Pool
fresh = record {
  capacity = pos 2;
  running = 0;
  workers = stack (record { items = []; expiry = []; size = 0 });
  closed = false;
  blocking_num = 0;
  options = nonblocking;
  pool_type = pool_type_worker;
}

made : new_pool (pos 2) nonblocking ≡ ok fresh
unfolding new_pool to_int32 new_worker_array new_worker_stack
made = refl

new_pool-Sound_example : Sound (settle (retrieve_enter fresh) (start_of fresh))
new_pool-Sound_example =
    new_pool-Sound (pos 2) nonblocking made (next here (enter (start_of fresh)))

submit_nonblocking_example :
    (((submit one_idle).0 ≡ err pool_overload)
      ↔ ((length (worker ∷ []) ≡ 0) × (has_room one_idle ≡ false)))
    × (((submit one_idle).0 ≡ ok spawn) ↔ ((length (worker ∷ []) ≡ 0) × (has_room one_idle ≡ true)))
    × (((w : GoWorker) × ((submit one_idle).0 ≡ ok (got w))) ↔ (length (worker ∷ []) ≢ 0))
submit_nonblocking_example = submit_nonblocking one_idle 1 refl refl refl
