-- ===== src/Gpool/Worker.antt =====
-- The data that both stores of idle workers share (gpool/worker.go).
use gocommon.Base.{ℕ, ◌+◌, Bool, not, ltb}

-- `goWorker`: a pointer with the time at which it was last put back, in nanoseconds. The channel
-- of the worker is the pool's business.
pub record GoWorker : Type 0 where
  pub id : ℕ
  pub recycle_time : ℕ

-- `errQueueIsFull`, `errQueueIsReleased`
pub data QueueError : Type 0 where
  queue_is_full queue_is_released : QueueError

-- `expiryTime.Before(w.recycleTime)` for `expiryTime = now - duration`, the difference brought to
-- the other side, since it may be negative.
unfoldable pub is_fresh : ℕ → ℕ → GoWorker → Bool
is_fresh now duration w = ltb now (w.recycle_time + duration)

-- The workers that the clean-up is meant to stop.
unfoldable pub is_expired : ℕ → ℕ → GoWorker → Bool
unfolding is_fresh
is_expired now duration w = not (is_fresh now duration w)
