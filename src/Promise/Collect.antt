-- ===== src/Promise/Collect.antt =====
-- What `All` of util/process/progoroutine.go resolves to.
use gocommon.Base.{
  ℕ, ◌≡◌, ◌<◌, refl, subst, ap, sym, ◌∙◌, ◌⊎◌, inl, inr, true, Option, none, some, List, [], ◌∷◌,
  nat_eq, ◌==◌, length, set, get_elem?, replicate, length-set, length-replicate, get_elem?-set_self,
  get_elem?-set_ne, Bool-cases, arith, any, All,
}
use gocommon.Promise.{collect, all}

module _ {A : Type 0} where
  -- The slots after the arrivals.
  abbrev filled : List (ℕ × A) → List (Option A) → List (Option A)
  filled [] slots = slots
  filled ((i, a) ∷ xs) slots = filled xs (set slots i (some a))

  set_at :
      (d : ℕ → A) (slots : List (Option A)) (i j : ℕ) (a : A)
      → i < length slots
      → a ≡ d j
      → i ≡ j
      → get_elem? (set slots j (some a)) i ≡ some (some (d i))
  set_at d slots i j a l h e =
      subst (λ k. get_elem? (set slots k (some a)) i ≡ some (some (d i))) e
        (get_elem?-set_self slots i (some a) l ∙ ap (λ x. some (some x)) (h ∙ ap d (sym e)))

  filled-keeps :
      (d : ℕ → A) (xs : List (ℕ × A)) (slots : List (Option A)) (i : ℕ)
      → All (λ x. x.1 ≡ d x.0) xs
      → i < length slots
      → get_elem? slots i ≡ some (some (d i))
      → get_elem? (filled xs slots) i ≡ some (some (d i))
  filled-keeps d [] slots i h l g = g
  filled-keeps d ((j, a) ∷ xs) slots i h l g =
      filled-keeps d xs (set slots j (some a)) i h.1 (rw (length-set slots j (some a)) l)
        (elim (Bool-cases (i == j)) [
          | inl t ↦ set_at d slots i j a l h.0 ((nat_eq.same_iff i j).0 t)
          | inr f ↦ get_elem?-set_ne slots j i (some a) (λ e. ground (arith, e, f)) ∙ g
        ])

  get_elem?-filled :
      (d : ℕ → A) (xs : List (ℕ × A)) (slots : List (Option A)) (i : ℕ)
      → All (λ x. x.1 ≡ d x.0) xs
      → i < length slots
      → any (λ x. i == x.0) xs ≡ true
      → get_elem? (filled xs slots) i ≡ some (some (d i))
  get_elem?-filled d [] slots i h l q = ground (arith, q)
  get_elem?-filled d ((j, a) ∷ xs) slots i h l q = elim (Bool-cases (i == j)) [
    | inl t ↦
        filled-keeps d xs (set slots j (some a)) i h.1 (rw (length-set slots j (some a)) l)
          (set_at d slots i j a l h.0 ((nat_eq.same_iff i j).0 t))
    | inr f ↦
        get_elem?-filled d xs (set slots j (some a)) i h.1 (rw (length-set slots j (some a)) l)
          (ground (arith, f, q))
  ]

module _ {A E : Type 0} where
  -- Arrivals without an error.
  abbrev pub fulfilled : List (ℕ × A) → List (E ⊎ (ℕ × A))
  fulfilled [] = []
  fulfilled (x ∷ xs) = inr x ∷ fulfilled xs

  collect-filled :
      (xs : List (ℕ × A)) (slots : List (Option A))
      → collect {E = E} (length xs) (fulfilled xs) slots ≡ some (inr (filled xs slots))
  unfolding collect
  collect-filled [] slots = refl
  collect-filled ((i, a) ∷ xs) slots = collect-filled xs (set slots i (some a))

  -- If as many results arrive as there are promises, in whatever order, each with the data that `d`
  -- gives for its index, and every index is among them, then `All` resolves to the data in the order
  -- of the promises.
  pub all-fulfilled :
      (d : ℕ → A) (n : ℕ) (xs : List (ℕ × A))
      → length xs ≡ n
      → All (λ x. x.1 ≡ d x.0) xs
      → ((i : ℕ) → i < n → any (λ x. i == x.0) xs ≡ true)
      → (rs : List (Option A)) × ((all {E = E} n (fulfilled xs) ≡ some (inr rs))
          × ((i : ℕ) → i < n → get_elem? rs i ≡ some (some (d i))))
  unfolding all
  all-fulfilled d n xs l h every =
      let slots : List (Option A) = replicate n none in
      (
        filled xs slots,
        (
          subst (λ k. collect {E = E} k (fulfilled xs) slots ≡ some (inr (filled xs slots))) l
              (collect-filled xs slots),
          λ i b.
              get_elem?-filled d xs slots i h (rw (length-replicate {A = Option A} n none) b)
                (every i b),
        ),
      )
