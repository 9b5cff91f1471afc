-- ===== src/Client/Attempts.antt =====
-- How many attempts `Call` of client/rpc_client.go makes, and which one it answers with.
use gocommon.Base.{
  ℕ, zero, suc, ◌+◌, ◌≡◌, ◌≤◌, ◌<◌, ◌⊎◌, inl, inr, refl, ap, sym, ◌∙◌, subst, Bool, true, false,
  Option, none, Option-cases, is_some, arith,
}
use native.Mathlib.Nat.{eq-or-lt_of_le}
use gocommon.Registry.{Node}
use gocommon.Selector.{Selected}
use gocommon.Client.{CallError, attempt, call_loop}

module _ {E W : Type 0} (backoff : ℕ → W → E ⊎ ℕ) (sleep : ℕ → W → W) (next : W → Selected Node × W)
    (rcall : Node → W → Option E × W) (mark : Node → Option E → W → W) (start : W) where
  -- The world after so many attempts.
  abbrev pub after : ℕ → W
  after zero = start
  after (suc i) = (attempt backoff sleep next rcall mark i (after i)).1

  -- The error of an attempt, if the ones before it have been made.
  abbrev pub error_of : ℕ → Option (CallError E)
  error_of i = (attempt backoff sleep next rcall mark i (after i)).0

  module _ (done : ℕ → W → Bool) (retry : W → E ⊎ Bool)
      (in_time : (i : ℕ) (w : W) → done i w ≡ false) (again : (w : W) → retry w ≡ inr true) where
    call_loop-success :
        (n i : ℕ) (gerr : Option (CallError E))
        → error_of i ≡ none
        → call_loop backoff sleep next rcall mark done retry (suc n) i gerr (after i)
          ≡ (none, after (suc i))
    unfolding call_loop
    call_loop-success n i gerr e = rw (in_time i (after (suc i)), e) refl

    call_loop-failure :
        (n i : ℕ) (gerr : Option (CallError E))
        → is_some (error_of i) ≡ true
        → call_loop backoff sleep next rcall mark done retry (suc n) i gerr (after i)
          ≡ call_loop backoff sleep next rcall mark done retry n
              (suc i)
              (error_of i)
              (after (suc i))
    unfolding call_loop
    call_loop-failure n i gerr e = elim (Option-cases (error_of i)) [
      | inl n ↦ ground (arith, n, e)
      | inr (x, m) ↦ rw (in_time i (after (suc i)), m, again (after (suc i))) refl
    ]

    -- As long as no deadline is met and `Retry` agrees: if the attempt `m` is the first one without an
    -- error, and the loop has at least so many rounds, `Call` makes the attempts up to it and no more,
    -- and returns no error.
    pub call_loop-first :
        (n i m : ℕ) (gerr : Option (CallError E))
        → i ≤ m
        → m < i + n
        → ((j : ℕ) → i ≤ j → j < m → is_some (error_of j) ≡ true)
        → error_of m ≡ none
        → call_loop backoff sleep next rcall mark done retry n i gerr (after i)
          ≡ (none, after (suc m))
    call_loop-first zero i m gerr a b f e = absurd (omega arith)
    call_loop-first (suc n) i m gerr a b f e = elim (eq-or-lt_of_le a) [
      | inl q ↦
          subst
            (λ k.
              call_loop backoff sleep next rcall mark done retry (suc n) k gerr (after k)
              ≡ (none, after (suc m)))
            (sym q) (call_loop-success n m gerr e)
      | inr l ↦
          call_loop-failure n i gerr (f i (omega arith) l)
          ∙ call_loop-first n (suc i) m (error_of i) l (omega arith) (λ j x y. f j (omega arith) y)
              e
    ]

    rest-exhausts :
        (n i m : ℕ)
        → m ≡ i + n
        → ((j : ℕ) → j ≤ m → is_some (error_of j) ≡ true)
        → call_loop backoff sleep next rcall mark done retry n (suc i) (error_of i) (after (suc i))
          ≡ (error_of m, after (suc m))
    unfolding call_loop
    rest-exhausts zero i m e f = ap (λ k. (error_of k, after (suc k))) {x = i} {y = m} (omega arith)
    rest-exhausts (suc n) i m e f =
        call_loop-failure n (suc i) (error_of i) (f (suc i) (omega arith))
        ∙ rest-exhausts n (suc i) m (omega arith) f

    -- As long as no deadline is met and `Retry` agrees: if every attempt has an error, `Call` makes one
    -- attempt more than there are retries and returns the error of the last one.
    pub call_loop-exhausts :
        (retries : ℕ)
        → ((j : ℕ) → j ≤ retries → is_some (error_of j) ≡ true)
        → call_loop backoff sleep next rcall mark done retry (suc retries) 0 none start
          ≡ (error_of retries, after (suc retries))
    call_loop-exhausts retries f =
        call_loop-failure retries 0 none (f 0 (omega arith))
        ∙ rest-exhausts retries 0 retries (omega arith) f
