-- ===== src/Rabbitmq/Backoff.antt =====
-- The delays of the loop of rabbitmq/rabbitmq.go that subscribes again.
use gocommon.Base.{◌≡◌, refl, ap, ℕ, suc, ◌*◌, ◌^◌, min, arith, List, [], ◌∷◌, ◌++◌}
use native.Mathlib.Numerals.{unary_clauses}
use gocommon.Rabbitmq.{
  Round, unsubscribed, shut_down, not_connected, failed, consumed, Action, slept,
  min_resubscribe_delay, max_resubscribe_delay, deliveries_of, capped, resubscribe,
}

-- The loop as it is meant: after `k` failures in a row it sleeps 100 ms times 2 to the power of `k`, but
-- at most 30 s; a round that consumes ends the row.
abbrev pub exponential : {D : Type 0} → ℕ → List (Round D) → List (Action D)
exponential k [] = []
exponential k (unsubscribed ∷ rounds) = []
exponential k (shut_down ∷ rounds) = []
exponential k (not_connected ∷ rounds) = exponential k rounds
exponential k (failed ∷ rounds) =
    slept (min (min_resubscribe_delay * 2 ^ k) max_resubscribe_delay) ∷ exponential (suc k) rounds
exponential k (consumed ds ∷ rounds) = deliveries_of ds ++ exponential 0 rounds

capped-min : (delay x : ℕ) → min delay 30000 ≡ min x 30000 → capped delay ≡ min x 30000
capped-min delay x e = grind arith

power_double : (k : ℕ) → 2 ^ suc k ≡ 2 ^ k * 2
power_double k = simp unary_clauses (omega arith)

doubled :
    (delay k : ℕ)
    → min delay 30000 ≡ min (100 * 2 ^ k) 30000
    → min (capped delay * 2) 30000 ≡ min (100 * 2 ^ suc k) 30000
doubled delay k e = let c = capped-min delay (100 * 2 ^ k) e in rw c (omega (arith, power_double k))

module _ {D : Type 0} where
  resubscribe-delays :
      (delay k : ℕ) (rounds : List (Round D))
      → min delay 30000 ≡ min (100 * 2 ^ k) 30000
      → resubscribe delay rounds ≡ exponential k rounds
  unfolding resubscribe
  resubscribe-delays delay k [] e = refl
  resubscribe-delays delay k (unsubscribed ∷ rounds) e = refl
  resubscribe-delays delay k (shut_down ∷ rounds) e = refl
  resubscribe-delays delay k (not_connected ∷ rounds) e = resubscribe-delays delay k rounds e
  resubscribe-delays delay k (failed ∷ rounds) e =
      let rest = resubscribe-delays (capped delay * 2) (suc k) rounds (doubled delay k e) in
      rw (rest, capped-min delay (100 * 2 ^ k) e) refl
  resubscribe-delays delay k (consumed ds ∷ rounds) e =
      ap (λ rest. deliveries_of ds ++ rest) (resubscribe-delays 100 0 rounds refl)

  -- The loop that subscribes again sleeps as `exponential` says, with no failure before it: the delay
  -- doubles from 100 ms with each failure in a row, up to 30 s, a lost connection changes nothing,
  -- and a round that consumes starts it again at 100 ms.
  pub resubscribe-exponential :
      (rounds : List (Round D)) → resubscribe min_resubscribe_delay rounds ≡ exponential 0 rounds
  resubscribe-exponential rounds = resubscribe-delays 100 0 rounds refl
