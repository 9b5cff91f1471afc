-- ===== src/Rcache/Retry.antt =====
-- The pauses between the attempts of `run` in rcache/rcache.go.
use gocommon.Base.{ℕ, zero, suc, ◌≤◌, List, [], ◌∷◌, All, arith, nat_eq}
use gocommon.Rcache.{backoff, fail_once}

fail_once-bounded :
    (attempts : ℕ) → attempts ≤ 4 → ((fail_once attempts).0 ≤ 10000) × ((fail_once attempts).1 ≤ 4)
unfolding fail_once backoff
fail_once-bounded zero h = (omega arith, omega arith)
fail_once-bounded (suc zero) h = (omega arith, omega arith)
fail_once-bounded (suc (suc zero)) h = (omega arith, omega arith)
fail_once-bounded (suc (suc (suc zero))) h = (omega arith, omega arith)
fail_once-bounded (suc (suc (suc (suc zero)))) h = (omega arith, omega arith)
fail_once-bounded (suc (suc (suc (suc (suc n))))) h = absurd (omega arith)

-- The pauses, in milliseconds, of `n` failures in a row.
unfoldable pub pauses : ℕ → ℕ → List ℕ
unfolding fail_once
pauses zero attempts = []
pauses (suc n) attempts = (fail_once attempts).0 ∷ pauses n (fail_once attempts).1

-- From at most four failures on, no pause is longer than ten seconds, however often an attempt fails.
pub pauses-bounded :
    (n attempts : ℕ) → attempts ≤ 4 → All (λ (p : ℕ). p ≤ 10000) (pauses n attempts)
unfolding pauses
pauses-bounded zero attempts h = _
pauses-bounded (suc n) attempts h =
    let (short, few) = fail_once-bounded attempts h in (short, pauses-bounded n _ few)
