-- ===== src/Tests/Locks.antt =====
-- Tests of the spinlock, and its theorems at concrete states.
use gocommon.Base.{ℕ, ◌≡◌, ◌≤◌, ◌<◌, refl, true, false}
use gocommon.Spinlock.{
  new_spin_lock, try_to_acquire, compare_and_swap, next_backoff, outside, trying, yielding, inside,
  lock, win, lose, move_to, System, pick, Reach, start, later,
}
use gocommon.Spinlock.Exclusion.{holds, mutual_exclusion}
use gocommon.Spinlock.Waiting.{Alone, Lock-ends}

-- The swap of a lock that is held leaves it held.
try_again : try_to_acquire (try_to_acquire new_spin_lock).1 ≡ (false, record { state = 1 })
unfolding try_to_acquire new_spin_lock
try_again = refl

-- The backoff stays at 64.
last_backoff : next_backoff 64 ≡ 64
unfolding next_backoff
last_backoff = refl

-- The first goroutine waits.
abbrev waiting : System
waiting = record { sl = new_spin_lock; pc = move_to (λ _. outside) 0 (trying 1) }

-- It has the lock, and a second one waits.
abbrev contended : System
contended = record {
  sl = record { state = 1 };
  pc = move_to (move_to (move_to waiting.pc 0 inside) 1 (trying 1)) 1 (yielding 1 1);
}

waiting-Reach : Reach waiting
waiting-Reach = later start (pick 0 lock)

contended-Reach : Reach contended
unfolding compare_and_swap new_spin_lock
contended-Reach =
    later (later (later waiting-Reach (pick 0 (win refl))) (pick 1 lock)) (pick 1 (lose refl))

mutual_exclusion_example :
    ((i j : ℕ) → holds (contended.pc i) ≡ true → holds (contended.pc j) ≡ true → i ≡ j)
    × (0 < contended.sl.state → (i : ℕ) × (holds (contended.pc i) ≡ true))
    × ((i : ℕ) → contended.sl.state ≡ 0 → holds (contended.pc i) ≡ false)
mutual_exclusion_example = mutual_exclusion contended-Reach

Lock-ends_example :
    (n : ℕ) × (n ≤ 66) × Alone new_spin_lock (trying 1) n (compare_and_swap new_spin_lock).1 inside
unfolding new_spin_lock
Lock-ends_example = Lock-ends waiting-Reach 0 refl refl
