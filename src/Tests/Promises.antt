-- ===== src/Tests/Promises.antt =====
-- Tests of promises, and their theorems at concrete inputs.
use gocommon.Base.{
  ℕ, zero, suc, ◌≡◌, ◌<◌, inl, refl, true, none, some, List, [], ◌∷◌, any, nat_eq, ◌==◌, arith,
}
use gocommon.Promise.{Promise, value, awaited, new_promise, await}
use gocommon.Promise.Once.{Settling, resolving, rejecting, settle_all, settle_all-await}

abbrev settlings : List (Settling ℕ ℕ)
settlings = resolving (awaited (inl 4)) ∷ rejecting 4 ∷ resolving (value 8) ∷ []

settle_all-await_example :
    (p : Promise ℕ ℕ) × ((settle_all settlings new_promise ≡ some p)
      × (await p ≡ some (none, some 4)))
settle_all-await_example = settle_all-await settlings

abbrev data_at : ℕ → ℕ
data_at zero = 5
data_at (suc i) = 6

abbrev arrivals : List (ℕ × ℕ)
arrivals = (1, 6) ∷ (0, 5) ∷ []

all_indices : (i : ℕ) → i < 2 → any (λ (x : ℕ × ℕ). i == x.0) arrivals ≡ true
all_indices zero h = refl
all_indices (suc zero) h = refl
all_indices (suc (suc i)) h = absurd (omega arith)
