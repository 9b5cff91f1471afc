-- ===== src/Gpool/Pool/Steps.antt =====
-- The goroutines around a pool as interleaved steps. `cond.Wait` may return at any time, which
-- allows more than `Signal` and `Broadcast` do.
use gocommon.Base.{ℕ, suc, ◌+◌, ◌≡◌, true, some, List, [], ◌∷◌, ◌++◌, ℤ}
use gocommon.Gpool.Worker.{GoWorker}
use gocommon.Gpool.Pool.{
  Pool, Retrieval, got, spawn, refused, wait, tune, reboot, close, reset_workers, inc_running,
  dec_running, retrieve_enter, retrieve_wake, revert_insert, purge,
}

-- A pool with the goroutines that act on it: callers between the decision to spawn a worker and
-- `incRunning`, workers that run a task or are about to end, and callers in `cond.Wait` with the
-- capacity that each has read.
pub record System : Type 0 where
  pub pool : Pool
  pub spawning : ℕ
  pub busy : ℕ
  pub waiters : List ℤ

-- What becomes of a caller that gives up the lock.
unfoldable pub settle : Retrieval × Pool → System → System
settle (got w, p) s = record s { pool = p; busy = s.busy + 1 }
settle (spawn, p) s = record s { pool = p; spawning = s.spawning + 1 }
settle (refused, p) s = record s { pool = p }
settle (wait c, p) s = record s { pool = p; waiters = c ∷ s.waiters }

pub data Step : System → System → Type 0 where
  enter : (s : System) → Step s (settle (retrieve_enter s.pool) s)
  wake :
      (s : System) (before after : List ℤ) (c : ℤ)
      → s.waiters ≡ before ++ c ∷ after
      → Step s (settle (retrieve_wake c s.pool) (record s { waiters = before ++ after }))
  -- `spawnWorker`
  start :
      (s : System) (n : ℕ)
      → s.spawning ≡ suc n
      → Step s (record s { pool = inc_running s.pool; spawning = n; busy = s.busy + 1 })
  -- A worker is put back.
  put_back :
      (s : System) (n now : ℕ) (w : GoWorker)
      → s.busy ≡ suc n
      → (revert_insert now w s.pool).0 ≡ true
      → Step s (record s { pool = (revert_insert now w s.pool).1; busy = n })
  -- A worker ends, after nil, a panic, or a failed `revertWorker`.
  finish :
      (s : System) (n : ℕ)
      → s.busy ≡ suc n
      → Step s (record s { pool = dec_running s.pool; busy = n })
  -- The clean-up takes workers out, which are sent nil.
  clean :
      (s : System) (now out : ℕ) (p : Pool)
      → purge now s.pool ≡ some (out, p)
      → Step s (record s { pool = p; busy = s.busy + out })
  resize : (s : System) (size : ℤ) → Step s (record s { pool = tune size s.pool })
  shut : (s : System) → Step s (record s { pool = close s.pool })
  -- The reset of `Release`, if it returns.
  empty :
      (s : System) (fuel sent : ℕ) (p : Pool)
      → reset_workers fuel s.pool ≡ some (sent, p)
      → Step s (record s { pool = p; busy = s.busy + sent })
  restart : (s : System) → Step s (record s { pool = reboot s.pool })

pub data Reach (s : System) : System → Type 0 where
  here : Reach s s
  next : {t u : System} → Reach s t → Step t u → Reach s u

-- A pool on which nothing has happened yet.
abbrev pub start_of : Pool → System
start_of p = record { pool = p; spawning = 0; busy = 0; waiters = [] }
