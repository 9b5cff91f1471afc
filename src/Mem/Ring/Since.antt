-- ===== src/Mem/Ring/Since.antt =====
-- `Since` of util/mem/ring/buffer.go.
use gocommon.Base.{
  ℕ, ◌≤◌, ◌<◌, ◌≡◌, refl, ap, sym, List, [], ◌∷◌, if◌then◌else◌, ltb, arith, All, keep, Bool-cases,
  inl, inr, nat_eq, ◌==◌,
}
use gocommon.Mem.Ring.{Entry, Buffer, since, since_loop}

module _ {ℓ} {V : Type ℓ} where
  -- No entry of the list is older than `t`.
  abbrev pub NotBefore : ℕ → List (Entry V) → Type 0
  NotBefore t [] = Unit
  NotBefore t (w ∷ vals) = (t ≤ w.timestamp) × NotBefore t vals

  -- The entries stand in the order of their times.
  abbrev pub IsOrdered : List (Entry V) → Type 0
  IsOrdered [] = Unit
  IsOrdered (v ∷ vals) = NotBefore v.timestamp vals × IsOrdered vals

  keep_all :
      (t u : ℕ) (vals : List (Entry V))
      → t < u
      → NotBefore u vals
      → keep (λ (v : Entry V). ltb t v.timestamp) vals ≡ vals
  keep_all t u [] lt h = refl
  keep_all t u (v ∷ vals) lt h = ground (arith, lt, h.0, keep_all t u vals lt h.1)

  since_loop-keep :
      (t : ℕ) (vals : List (Entry V))
      → IsOrdered vals
      → since_loop t vals ≡ keep (λ (v : Entry V). ltb t v.timestamp) vals
  unfolding since_loop
  since_loop-keep t [] h = refl
  since_loop-keep t (v ∷ vals) h = elim (Bool-cases (ltb t v.timestamp)) [
    | inl lt ↦ rw lt (ap (λ r. v ∷ r) (sym (keep_all t v.timestamp vals (ground (arith, lt)) h.0)))
    | inr le ↦ rw le (since_loop-keep t vals h.1)
  ]

  -- On a ring whose entries stand in the order of their times, none of them in the future, `since`
  -- gives exactly the entries that are younger than `t`; for the zero time it gives all.
  pub since-keep :
      (now t : ℕ) (b : Buffer V)
      → IsOrdered b.vals
      → All (λ (v : Entry V). v.timestamp ≤ now) b.vals
      → since now t b
        ≡ (if t == 0 then b.vals else keep (λ (v : Entry V). ltb t v.timestamp) b.vals)
  unfolding since
  since-keep now t b o past = elim (Bool-cases (ltb now t)) [
    | inl future ↦
        ap (λ r. if t == 0 then b.vals else r)
          (rw future (sym (none_left t now b.vals (ground (arith, future)) past)))
    | inr fine ↦ ap (λ r. if t == 0 then b.vals else r) (rw fine (since_loop-keep t b.vals o))
  ]
    where
      none_left :
          (t now : ℕ) (vals : List (Entry V))
          → now < t
          → All (λ (v : Entry V). v.timestamp ≤ now) vals
          → keep (λ (v : Entry V). ltb t v.timestamp) vals ≡ []
      none_left t now [] lt h = refl
      none_left t now (v ∷ vals) lt h = ground (arith, lt, h.0, none_left t now vals lt h.1)
