-- ===== src/Tests/Queue.antt =====
-- Runs of the circular queue.
use gocommon.Base.{◌≡◌, refl, none, some, [], ◌∷◌, map, arith}
use gocommon.Gpool.Worker.{GoWorker, queue_is_full}
use gocommon.Gpool.LoopQueue.{
  LoopQueue, new_worker_loop_queue, insert, detach, retrieve_expiry, reset,
}
use gocommon.Gpool.LoopQueue.Repr.{
  Repr, put, get, new_worker_loop_queue-Repr, insert_refines, detach_refines,
}
use gocommon.Gpool.LoopQueue.Expiry.{expired_prefix, fresh_suffix, retrieve_expiry_lem}
use gocommon.Gpool.LoopQueue.Release.{reset_never_returns}

abbrev early : GoWorker
early = record { id = 1; recycle_time = 10 }

abbrev late : GoWorker
late = record { id = 2; recycle_time = 90 }

-- Two slots, both taken.
abbrev two_taken : LoopQueue
two_taken = (insert late (insert early (new_worker_loop_queue 2)).1).1

one_taken-Repr : Repr (insert early (new_worker_loop_queue 2)).1 (early ∷ [])
unfolding insert put new_worker_loop_queue
one_taken-Repr = (insert_refines early (new_worker_loop_queue-Repr 2 (omega arith))).1

two_taken-Repr : Repr two_taken (early ∷ late ∷ [])
unfolding insert put new_worker_loop_queue
two_taken-Repr = (insert_refines late one_taken-Repr).1

insert_refines_example :
    ((insert early two_taken).0 ≡ (put two_taken.size early (early ∷ late ∷ [])).0)
    × Repr (insert early two_taken).1 (put two_taken.size early (early ∷ late ∷ [])).1
insert_refines_example = insert_refines early two_taken-Repr

insert_full : (insert early two_taken).0 ≡ some queue_is_full
unfolding insert new_worker_loop_queue
insert_full = refl

detach_refines_example :
    ((detach two_taken).0 ≡ (get (early ∷ late ∷ [])).0)
    × Repr (detach two_taken).1 (get (early ∷ late ∷ [])).1
detach_refines_example = detach_refines (early ∷ late ∷ []) two_taken-Repr

-- At the time 100 the worker of the time 10 has been idle for more than 50, the other has not.
retrieve_expiry_lem_example :
    (left : LoopQueue) × (retrieve_expiry 100 50 two_taken
      ≡ some (map some (expired_prefix 100 50 (early ∷ late ∷ [])), left))
    × Repr left (fresh_suffix 100 50 (early ∷ late ∷ []))
retrieve_expiry_lem_example = retrieve_expiry_lem 100 50 (early ∷ late ∷ []) two_taken-Repr

reset_never_returns_example : reset 1000 two_taken ≡ none
reset_never_returns_example = reset_never_returns two_taken-Repr 1000
