-- ===== src/Spinlock/Exclusion.antt =====
-- At most one goroutine holds the lock of util/sync/spinlock.go.
use gocommon.Base.{
  ℕ, ◌≡◌, ◌≤◌, ◌<◌, refl, Bool, true, false, ◌==◌, nat_eq, arith, any, [], ◌∷◌, ◌↔◌, if_both, subst,
}
use gocommon.Spinlock.{
  Spinlock, new_spin_lock, try_to_acquire, release, compare_and_swap, next_backoff, Pc, outside,
  trying, yielding, inside, Move, lock, win, lose, yield, back_off, acquire, refuse, unlock,
  move_to, System, pick, init, Reach, start, later,
}

abbrev pub holds : Pc → Bool
holds inside = true
holds _ = false

-- The backoffs that `Lock` can have.
abbrev pub is_backoff : ℕ → Bool
is_backoff b = any (λ p. b == p) (1 ∷ 2 ∷ 4 ∷ 8 ∷ 16 ∷ 32 ∷ 64 ∷ [])

abbrev pub InBounds : Pc → Type 0
InBounds outside = Unit
InBounds (trying b) = is_backoff b ≡ true
InBounds (yielding b i) = (is_backoff b ≡ true) × (i ≤ b)
InBounds inside = Unit

pub record Inv (l : Spinlock) (pc : ℕ → Pc) : Type 0 where
  pub free : (i : ℕ) → l.state ≡ 0 → holds (pc i) ≡ false
  pub unique : (i j : ℕ) → holds (pc i) ≡ true → holds (pc j) ≡ true → i ≡ j
  pub taken : 0 < l.state → (i : ℕ) × (holds (pc i) ≡ true)
  pub bounds : (i : ℕ) → InBounds (pc i)

next_backoff-is_backoff : (b : ℕ) → is_backoff b ≡ true → is_backoff (next_backoff b) ≡ true
unfolding next_backoff
next_backoff-is_backoff b h = ground arith

Move-bounds : {l l' : Spinlock} {p p' : Pc} → Move l p l' p' → InBounds p → InBounds p'
Move-bounds lock h = refl
Move-bounds (win e) h = tt
Move-bounds (lose e) h = (h, omega arith)
Move-bounds yield h = (h.0, omega (arith, h.1))
Move-bounds (back_off {b} e) h = next_backoff-is_backoff b h.0
Move-bounds (acquire e) h = tt
Move-bounds (refuse e) h = tt
Move-bounds unlock h = tt

Inv-init : Inv init.sl init.pc
unfolding new_spin_lock
Inv-init = record {
  free = λ i e. refl;
  unique = λ i j p q. cc;
  taken = λ h. absurd (omega arith);
  bounds = λ i. tt;
}

moved-bounds :
    (pc : ℕ → Pc) (i : ℕ) (p : Pc)
    → ((j : ℕ) → InBounds (pc j))
    → InBounds p
    → (j : ℕ) → InBounds (move_to pc i p j)
moved-bounds pc i p h hp j = if_both InBounds (j == i) p (pc j) hp (h j)

-- A goroutine that neither takes nor gives up the lock.
Inv-stay :
    {l : Spinlock} {pc : ℕ → Pc} (l' : Spinlock) (i : ℕ) (p : Pc)
    → Inv l pc
    → holds (pc i) ≡ false
    → holds p ≡ false
    → (l.state ≡ 0) ↔ (l'.state ≡ 0)
    → InBounds p
    → Inv l' (move_to pc i p)
Inv-stay {l} {pc} l' i p inv a b same hp = record {
  free = λ j e. ground (arith, inv.free j, same, b, e);
  unique = λ j k x y. ground (arith, inv.unique j k, x, y, b);
  taken = λ h. let (j, held) = inv.taken (ground (arith, same)) in (j, ground (arith, held, a));
  bounds = moved-bounds pc i p inv.bounds hp;
}

-- A goroutine that takes a free lock.
Inv-take :
    {l : Spinlock} {pc : ℕ → Pc} (l' : Spinlock) (i : ℕ)
    → Inv l pc
    → l.state ≡ 0
    → l'.state ≡ 1
    → Inv l' (move_to pc i inside)
Inv-take {l} {pc} l' i inv e e' = record {
  free = λ j z. absurd (omega arith);
  unique = λ j k x y. ground (arith, inv.free j e, inv.free k e, x, y);
  taken = λ h. (i, ground arith);
  bounds = moved-bounds pc i inside inv.bounds tt;
}

-- The goroutine that holds the lock gives it up.
Inv-leave :
    {l : Spinlock} {pc : ℕ → Pc} (l' : Spinlock) (i : ℕ)
    → Inv l pc
    → holds (pc i) ≡ true
    → l'.state ≡ 0
    → Inv l' (move_to pc i outside)
Inv-leave {l} {pc} l' i inv h e = record {
  free = λ j z. ground (arith, inv.unique j i, h);
  unique = λ j k x y. ground (arith, inv.unique j i, inv.unique k i, h, x, y);
  taken = λ z. absurd (omega (arith, e));
  bounds = moved-bounds pc i outside inv.bounds tt;
}

Move-Inv :
    {l l' : Spinlock} {pc : ℕ → Pc} (i : ℕ) {p p' : Pc}
    → Move l p l' p'
    → pc i ≡ p
    → Inv l pc
    → Inv l' (move_to pc i p')
unfolding compare_and_swap try_to_acquire release
Move-Inv {l} i lock q inv = Inv-stay l i (trying 1) inv (rw q refl) refl ((λ x. x), (λ x. x)) refl
Move-Inv {l} {pc} i (win {b} e) q inv =
    Inv-take (compare_and_swap l).1 i inv (ground (arith, e)) (ground (arith, e))
Move-Inv {l} {pc} i (lose {b} e) q inv =
    Inv-stay (compare_and_swap l).1 i (yielding b b) inv (rw q refl) refl (ground (arith, e))
      (Move-bounds {l = l} (lose e) (subst InBounds q (inv.bounds i)))
Move-Inv {l} {pc} i (yield {b} {i = k}) q inv =
    Inv-stay l i (yielding b k) inv (rw q refl) refl ((λ x. x), (λ x. x))
      (Move-bounds {l = l} yield (subst InBounds q (inv.bounds i)))
Move-Inv {l} {pc} i (back_off {b} e) q inv =
    Inv-stay l i (trying (next_backoff b)) inv (rw q refl) refl ((λ x. x), (λ x. x))
      (Move-bounds {l = l} (back_off e) (subst InBounds q (inv.bounds i)))
Move-Inv {l} i (acquire e) q inv = Inv-take (try_to_acquire l).1 i inv (ground (arith, e)) refl
Move-Inv {l} i (refuse e) q inv =
    Inv-stay (try_to_acquire l).1 i outside inv (rw q refl) refl (ground (arith, e)) tt
Move-Inv {l} i unlock q inv = Inv-leave (release l) i inv (rw q refl) refl

pub Reach-Inv : {s : System} → Reach s → Inv s.sl s.pc
Reach-Inv start = Inv-init
Reach-Inv (later r (pick i mv)) = Move-Inv i mv refl (Reach-Inv r)

-- In every state that goroutines reach from a new lock by any steps of `Lock`, `TryToAcquire` and
-- the release of a lock that they hold, two goroutines never hold the lock together, and some
-- goroutine holds it where the state is not 0, none where it is 0.
pub mutual_exclusion :
    {s : System}
    → Reach s
    → ((i j : ℕ) → holds (s.pc i) ≡ true → holds (s.pc j) ≡ true → i ≡ j)
      × (0 < s.sl.state → (i : ℕ) × (holds (s.pc i) ≡ true))
      × ((i : ℕ) → s.sl.state ≡ 0 → holds (s.pc i) ≡ false)
mutual_exclusion r = let inv = Reach-Inv r in (inv.unique, inv.taken, inv.free)
