-- ===== src/Gpool/WorkerStack/Search.antt =====
-- `binarySearch` of gpool/work_stack.go.
use gocommon.Base.{
  ℕ, zero, suc, ◌+◌, ◌-◌, ◌/◌, ◌≤◌, ◌<◌, ◌≡◌, true, false, Option, none, some, List, arith, ltb,
  length, get_elem?, Bool-cases, Option-cases, sym, ◌∙◌, get_elem?_of_lt, inl, inr,
}
use gocommon.Gpool.Worker.{GoWorker, is_fresh}
use gocommon.Gpool.WorkerStack.{binary_search}

-- The workers stand in the order in which they were put back.
abbrev pub IsSorted : List GoWorker → Type 0
IsSorted items =
    (i j : ℕ) (v w : GoWorker)
    → i ≤ j
    → get_elem? items i ≡ some v
    → get_elem? items j ≡ some w
    → v.recycle_time ≤ w.recycle_time

module _ (now duration : ℕ) (items : List GoWorker) where
  -- Before `k` every worker has expired.
  abbrev pub ExpiredBelow : ℕ → Type 0
  ExpiredBelow k =
      (i : ℕ) (w : GoWorker) → i < k → get_elem? items i ≡ some w → is_fresh now duration w ≡ false

  -- From `k` on no worker has expired.
  abbrev pub FreshFrom : ℕ → Type 0
  FreshFrom k =
      (i : ℕ) (w : GoWorker) → k ≤ i → get_elem? items i ≡ some w → is_fresh now duration w ≡ true

  -- What a search between `l` and `r` may answer.
  abbrev Within : ℕ → ℕ → Option ℕ → Type 0
  Within l r none = ⊥
  Within l r (some k) = (l ≤ k) × (k ≤ r)

  binary_search-Within :
      (fuel l r : ℕ)
      → l ≤ r
      → r ≤ length items
      → r < fuel + l
      → Within l r (binary_search fuel items l r now duration)
  unfolding binary_search
  binary_search-Within zero l r a b h = absurd (omega arith)
  binary_search-Within (suc fuel) l r a b h = ground (
    arith,
    λ (p : (l + (r - 1)) / 2 < length items). get_elem?_of_lt items ((l + (r - 1)) / 2) p,
    binary_search-Within fuel l ((l + (r - 1)) / 2),
    binary_search-Within fuel ((l + (r - 1)) / 2 + 1) r,
  )

  -- With one round for each index the search ends, inside the bounds that it was given.
  pub binary_search_total :
      (fuel l r : ℕ)
      → l ≤ r
      → r ≤ length items
      → r < fuel + l
      → (k : ℕ) × (binary_search fuel items l r now duration ≡ some k) × (l ≤ k) × (k ≤ r)
  binary_search_total fuel l r a b h =
      elim (Option-cases (binary_search fuel items l r now duration)) [
        | inl e ↦ absurd (rw e at (binary_search-Within fuel l r a b h))
        | inr (k, e) ↦ (
          k,
          e,
          (rw e at (binary_search-Within fuel l r a b h)).0,
          (rw e at (binary_search-Within fuel l r a b h)).1,
        )
      ]

  binary_search_stop :
      (fuel l r : ℕ) → ltb l r ≡ false → binary_search (suc fuel) items l r now duration ≡ some r
  unfolding binary_search
  binary_search_stop fuel l r t = ground arith

  binary_search_left :
      (fuel l r : ℕ) (w : GoWorker)
      → ltb l r ≡ true
      → get_elem? items ((l + (r - 1)) / 2) ≡ some w
      → is_fresh now duration w ≡ true
      → binary_search (suc fuel) items l r now duration
        ≡ binary_search fuel items l ((l + (r - 1)) / 2) now duration
  unfolding binary_search
  binary_search_left fuel l r w t g f = ground arith

  binary_search_right :
      (fuel l r : ℕ) (w : GoWorker)
      → ltb l r ≡ true
      → get_elem? items ((l + (r - 1)) / 2) ≡ some w
      → is_fresh now duration w ≡ false
      → binary_search (suc fuel) items l r now duration
        ≡ binary_search fuel items ((l + (r - 1)) / 2 + 1) r now duration
  unfolding binary_search
  binary_search_right fuel l r w t g f = ground arith

  binary_search_out :
      (fuel l r : ℕ)
      → ltb l r ≡ true
      → get_elem? items ((l + (r - 1)) / 2) ≡ none
      → binary_search (suc fuel) items l r now duration ≡ none
  unfolding binary_search
  binary_search_out fuel l r t g = ground arith

  FreshFrom-of_fresh :
      IsSorted items
      → (m : ℕ) (w : GoWorker) → get_elem? items m ≡ some w
      → is_fresh now duration w ≡ true
      → FreshFrom m
  unfolding is_fresh
  FreshFrom-of_fresh s m w g f i v le h = ground (arith, s m i w v le g h)

  ExpiredBelow-of_expired :
      IsSorted items
      → (m : ℕ) (w : GoWorker) → get_elem? items m ≡ some w
      → is_fresh now duration w ≡ false
      → ExpiredBelow (m + 1)
  unfolding is_fresh
  ExpiredBelow-of_expired s m w g f i v lt h = ground (arith, s i m v w (omega arith) h g)

  -- In a sorted stack the answer parts the expired workers from the others.
  pub binary_search_lem :
      IsSorted items
      → (fuel l r k : ℕ) → l ≤ r
      → ExpiredBelow l
      → FreshFrom r
      → binary_search fuel items l r now duration ≡ some k
      → ExpiredBelow k × FreshFrom k
  binary_search_lem s zero l r k a e f h = absurd (unfold binary_search in (cc))
  binary_search_lem s (suc fuel) l r k a e f h = elim (Bool-cases (ltb l r)) [
    | inl t ↦ elim (Option-cases (get_elem? items ((l + (r - 1)) / 2))) [
      | inl g ↦ absurd (cc (binary_search_out fuel l r t g))
      | inr (w, g) ↦ elim (Bool-cases (is_fresh now duration w)) [
        | inl fr ↦
            binary_search_lem s fuel l ((l + (r - 1)) / 2) k (ground arith) e
              (FreshFrom-of_fresh s ((l + (r - 1)) / 2) w g fr)
              (sym (binary_search_left fuel l r w t g fr) ∙ h)
        | inr ex ↦
            binary_search_lem s fuel ((l + (r - 1)) / 2 + 1) r k (ground arith)
              (ExpiredBelow-of_expired s ((l + (r - 1)) / 2) w g ex) f
              (sym (binary_search_right fuel l r w t g ex) ∙ h)
      ]
    ]
    | inr t ↦ stopped (ground (arith, binary_search_stop fuel l r t))
  ]
    where
      stopped : (l ≡ k) × (r ≡ k) → ExpiredBelow k × FreshFrom k
      stopped p = (rw p.0 at e, rw p.1 at f)
