-- ===== src/Gpool/LoopQueue/Window.antt =====
-- The slots of a circular queue, read from an index on.
use gocommon.Base.{
  ℕ, zero, suc, ◌+◌, ◌-◌, ◌≤◌, ◌<◌, ◌≡◌, refl, ap, ap₂, sym, ◌≢◌, Option, none, List, [], ◌∷◌, ◌++◌,
  arith, leb, if◌then◌else◌, length, get_or, set, get_or-set_ne,
}
use gocommon.Gpool.Worker.{GoWorker}
use gocommon.Gpool.LoopQueue.{next}

-- The `n` slots from index `h` on, round at `size`.
abbrev pub window : List (Option GoWorker) → ℕ → ℕ → ℕ → List (Option GoWorker)
window items size h zero = []
window items size h (suc n) = get_or items h none ∷ window items size (next size h) n

-- How many steps lead from index `h` to index `i`.
abbrev pub steps : ℕ → ℕ → ℕ → ℕ
steps size h i = if leb h i then i - h else i + size - h

pub length-window :
    (items : List (Option GoWorker)) (size h n : ℕ) → length (window items size h n) ≡ n
length-window items size h zero = refl
length-window items size h (suc n) = ap suc (length-window items size (next size h) n)

steps-next :
    (size h i m : ℕ)
    → h < size
    → i < size
    → suc m ≤ steps size h i
    → (h ≢ i) × (next size h < size) × (steps size h i ≡ suc (steps size (next size h) i))
steps-next size h i m a b c = ground arith

-- A write behind the window leaves it alone.
pub window-set_outside :
    (items : List (Option GoWorker)) (size h i n : ℕ) (v : Option GoWorker)
    → h < size
    → i < size
    → n ≤ steps size h i
    → window (set items i v) size h n ≡ window items size h n
window-set_outside items size h i zero v a b c = refl
window-set_outside items size h i (suc m) v a b c =
    let (ne, lt, st) = steps-next size h i m a b c in
    ap₂ ◌∷◌ (get_or-set_ne items i h v none (λ e. ne (sym e)))
      (window-set_outside items size (next size h) i m v lt b (omega arith))

steps_zero : (size h i : ℕ) → h < size → i < size → steps size h i ≡ 0 → h ≡ i
steps_zero size h i a b c = ground arith

-- A window that reaches index `i` ends in the slot `i`.
pub window_end :
    (items : List (Option GoWorker)) (size h i n : ℕ)
    → h < size
    → i < size
    → steps size h i ≡ n
    → window items size h (suc n) ≡ window items size h n ++ get_or items i none ∷ []
window_end items size h i zero a b c =
    ap (λ k. get_or items k none ∷ []) (steps_zero size h i a b c)
window_end items size h i (suc m) a b c =
    let (ne, lt, st) = steps-next size h i m a b (omega arith) in
    ap (λ t. get_or items h none ∷ t) (window_end items size (next size h) i m lt b (omega arith))
