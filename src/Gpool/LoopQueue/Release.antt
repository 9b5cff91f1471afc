-- ===== src/Gpool/LoopQueue/Release.antt =====
-- `reset` of gpool/worker_loop_queue.go on a queue that holds workers.
use gocommon.Base.{ℕ, zero, suc, ◌≡◌, refl, none, some, List, [], ◌∷◌, ◌++◌, arith}
use gocommon.Gpool.Worker.{GoWorker}
use gocommon.Gpool.LoopQueue.{LoopQueue, notify, reset}
use gocommon.Gpool.LoopQueue.Repr.{Repr, get, is_empty-cons, detach_refines}

notify_never_ends :
    (fuel : ℕ) (w : GoWorker) (sent : List GoWorker) → notify fuel (some w) sent ≡ none
unfolding notify
notify_never_ends zero w sent = refl
notify_never_ends (suc fuel) w sent = notify_never_ends fuel w (sent ++ w ∷ [])

-- On a queue that holds at least one worker `reset` does not return, whatever the fuel: its loop
-- detaches once, and sends nil to that one worker for ever.
pub reset_never_returns :
    {wq : LoopQueue} {w : GoWorker} {ws : List GoWorker}
    → Repr wq (w ∷ ws)
    → (fuel : ℕ) → reset fuel wq ≡ none
unfolding reset get
reset_never_returns {wq} {w} {ws} r fuel =
    ground (arith, is_empty-cons r, (detach_refines (w ∷ ws) r).0, notify_never_ends fuel w [])
