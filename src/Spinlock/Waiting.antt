-- ===== src/Spinlock/Waiting.antt =====
-- How long a goroutine waits for a free lock of util/sync/spinlock.go.
use gocommon.Base.{ℕ, zero, suc, ◌≡◌, ◌≤◌, refl, Bool, true, false, arith}
use gocommon.Spinlock.{
  Spinlock, compare_and_swap, next_backoff, Pc, outside, trying, yielding, inside, Move, win, yield,
  back_off, System, Reach,
}
use gocommon.Spinlock.Exclusion.{InBounds, Reach-Inv}

-- The steps of one goroutine alone, and their number.
pub data Alone : Spinlock → Pc → ℕ → Spinlock → Pc → Type 0 where
  none : {l : Spinlock} {p : Pc} → Alone l p 0 l p
  more :
      {n : ℕ} {l l' l'' : Spinlock} {p p' p'' : Pc}
      → Move l p l' p'
      → Alone l' p' n l'' p''
      → Alone l p (suc n) l'' p''

trying-wins :
    (l : Spinlock) (b : ℕ) → l.state ≡ 0 → Alone l (trying b) 1 (compare_and_swap l).1 inside
unfolding compare_and_swap
trying-wins l b e = more (win (ground arith)) none

yielding-wins :
    (l : Spinlock) (b i : ℕ)
    → l.state ≡ 0
    → Alone l (yielding b i) (suc (suc i)) (compare_and_swap l).1 inside
yielding-wins l b zero e = more (back_off refl) (trying-wins l (next_backoff b) e)
yielding-wins l b (suc i) e = more yield (yielding-wins l b i e)

-- The places of a goroutine in `Lock`.
abbrev pub waits : Pc → Bool
waits (trying b) = true
waits (yielding b i) = true
waits _ = false

waiting-wins :
    (l : Spinlock) (p : Pc)
    → InBounds p
    → waits p ≡ true
    → l.state ≡ 0
    → (n : ℕ) × (n ≤ 66) × Alone l p n (compare_and_swap l).1 inside
waiting-wins l (trying b) h w e = (1, omega arith, trying-wins l b e)
waiting-wins l (yielding b i) h w e = (suc (suc i), ground (arith, h), yielding-wins l b i e)
waiting-wins l outside h w e = cc
waiting-wins l inside h w e = cc

-- In every state that goroutines reach from a new lock, a goroutine that waits in `Lock` holds the
-- lock after at most 66 steps of its own, if the lock is free and no other goroutine moves.
pub Lock-ends :
    {s : System}
    → Reach s
    → (i : ℕ) → waits (s.pc i) ≡ true
    → s.sl.state ≡ 0
    → (n : ℕ) × (n ≤ 66) × Alone s.sl (s.pc i) n (compare_and_swap s.sl).1 inside
Lock-ends {s} r i w e = waiting-wins s.sl (s.pc i) ((Reach-Inv r).bounds i) w e
