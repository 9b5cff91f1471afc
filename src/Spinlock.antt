-- ===== src/Spinlock.antt =====
-- util/sync/spinlock.go, a call of sync/atomic at a time: the lock, and the goroutines that use it.
-- A goroutine that does not hold the lock does not give it up.
pub mod Exclusion
pub mod Waiting
use gocommon.Base.{ℕ, zero, suc, ◌*◌, ◌≡◌, Bool, true, false, ◌==◌, nat_eq, if◌then◌else◌, ltb}

-- `Spinlock`
pub record Spinlock : Type 0 where
  pub state : ℕ

-- `NewSpinLock`
unfoldable pub new_spin_lock : Spinlock
new_spin_lock = record { state = 0 }

-- `TryToAcquire`: the swap writes 1 whatever the state is.
unfoldable pub try_to_acquire : Spinlock → Bool × Spinlock
try_to_acquire sl = (sl.state == 0, record sl { state = 1 })

-- `Release`, and `Unlock`.
unfoldable pub release : Spinlock → Spinlock
release sl = record sl { state = 0 }

-- `CompareAndSwapUint32` of `Lock`.
unfoldable pub compare_and_swap : Spinlock → Bool × Spinlock
compare_and_swap sl = if sl.state == 0 then (true, record sl { state = 1 }) else (false, sl)

abbrev pub max_backoff : ℕ
max_backoff = 64

-- The end of a round of `Lock`.
unfoldable pub next_backoff : ℕ → ℕ
next_backoff backoff = if ltb backoff max_backoff then backoff * 2 else backoff

-- Where a goroutine stands: it does not hold the lock; it is before the compare-and-swap of `Lock`;
-- it has to yield `i` times; it holds the lock.
pub data Pc : Type 0 where
  outside : Pc
  trying : (backoff : ℕ) → Pc
  yielding : (backoff i : ℕ) → Pc
  inside : Pc

-- One step of a goroutine, with the lock before and after it.
pub data Move (l : Spinlock) : Pc → Spinlock → Pc → Type 0 where
  lock : Move l outside l (trying 1)
  win : {b : ℕ} → (compare_and_swap l).0 ≡ true → Move l (trying b) (compare_and_swap l).1 inside
  lose :
      {b : ℕ}
      → (compare_and_swap l).0 ≡ false
      → Move l (trying b) (compare_and_swap l).1 (yielding b b)
  yield : {b i : ℕ} → Move l (yielding b (suc i)) l (yielding b i)
  back_off : {b i : ℕ} → i ≡ 0 → Move l (yielding b i) l (trying (next_backoff b))
  acquire : (try_to_acquire l).0 ≡ true → Move l outside (try_to_acquire l).1 inside
  refuse : (try_to_acquire l).0 ≡ false → Move l outside (try_to_acquire l).1 outside
  unlock : Move l inside (release l) outside

-- A goroutine's new place.
abbrev pub move_to : (ℕ → Pc) → ℕ → Pc → ℕ → Pc
move_to pc i p j = if j == i then p else pc j

pub record System : Type 0 where
  pub sl : Spinlock
  pub pc : ℕ → Pc

pub data Step (s : System) : System → Type 0 where
  pick :
      (i : ℕ) {l : Spinlock} {p : Pc}
      → Move s.sl (s.pc i) l p
      → Step s (record { sl = l; pc = move_to s.pc i p })

abbrev pub init : System
init = record { sl = new_spin_lock; pc = λ _. outside }

-- The states that goroutines reach from a new lock, in any order.
pub data Reach : System → Type 0 where
  start : Reach init
  later : {s t : System} → Reach s → Step s t → Reach t
