-- ===== src/Mem/Slab/Parts.antt =====
-- Lists cut and joined as util/mem/SlabBuffer.go cuts and joins slices.
use gocommon.Base.{
  ℕ, zero, suc, ◌+◌, ◌-◌, ◌≤◌, ◌≡◌, refl, ap, sym, ◌∙◌, List, [], ◌∷◌, ◌++◌, arith, length, take,
  drop,
}

module _ {ℓ} {A : Type ℓ} where
  pub length-take-le : (k : ℕ) (xs : List A) → k ≤ length xs → length (take k xs) ≡ k
  length-take-le zero xs h = refl
  length-take-le (suc k) [] h = absurd (omega arith)
  length-take-le (suc k) (x ∷ xs) h = ap suc (length-take-le k xs (omega arith))

  -- Of what is put together from a part and more, a part that is no longer.
  pub take-append-le : (k : ℕ) (xs ys : List A) → k ≤ length xs → take k (xs ++ ys) ≡ take k xs
  take-append-le zero xs ys h = refl
  take-append-le (suc k) [] ys h = absurd (omega arith)
  take-append-le (suc k) (x ∷ xs) ys h = ap (λ l. x ∷ l) (take-append-le k xs ys (omega arith))

  pub take-take : (k j : ℕ) (xs : List A) → k ≤ j → take k (take j xs) ≡ take k xs
  take-take zero j xs h = refl
  take-take (suc k) zero xs h = absurd (omega arith)
  take-take (suc k) (suc j) [] h = refl
  take-take (suc k) (suc j) (x ∷ xs) h = ap (λ l. x ∷ l) (take-take k j xs (omega arith))

  pub take-length : (xs : List A) → take (length xs) xs ≡ xs
  take-length [] = refl
  take-length (x ∷ xs) = ap (λ l. x ∷ l) (take-length xs)

  take-nil : (n : ℕ) → take {A = A} n [] ≡ []
  take-nil zero = refl
  take-nil (suc n) = refl

  drop-nil : (n : ℕ) → drop {A = A} n [] ≡ []
  drop-nil zero = refl
  drop-nil (suc n) = refl

  take-written :
      (on n : ℕ) (xs p ys : List A)
      → on ≤ length xs
      → n ≡ on + length p
      → take n (take on xs ++ p ++ ys) ≡ take on xs ++ p
  take-written zero n xs p ys h e =
      let all : n ≡ length p = omega arith in
      rw all (take-append-le (length p) p ys (omega arith) ∙ take-length p)
  take-written (suc on) n [] p ys h e = absurd (omega arith)
  take-written (suc on) zero (x ∷ xs) p ys h e = absurd (omega arith)
  take-written (suc on) (suc n) (x ∷ xs) p ys h e =
      ap (λ l. x ∷ l) (take-written on n xs p ys (omega arith) (omega arith))

  -- The bytes between `off` and the end of what is written at `on`.
  pub window-written :
      (off on n k : ℕ) (xs p ys : List A)
      → off ≤ on
      → on ≤ length xs
      → n ≡ on + length p - off
      → k ≡ on - off
      → take n (drop off (take on xs ++ p ++ ys)) ≡ take k (drop off xs) ++ p
  window-written zero on n k xs p ys h l e f =
      let same : k ≡ on = omega arith in rw same (take-written on n xs p ys l (omega arith))
  window-written (suc off) zero n k xs p ys h l e f = absurd (omega arith)
  window-written (suc off) (suc on) n k [] p ys h l e f = absurd (omega arith)
  window-written (suc off) (suc on) n k (x ∷ xs) p ys h l e f =
      window-written off on n k xs p ys (omega arith) (omega arith) (omega arith) (omega arith)

  pub drop-take : (n k j : ℕ) (xs : List A) → j ≡ k - n → drop n (take k xs) ≡ take j (drop n xs)
  drop-take zero k j xs e = let same : j ≡ k = omega arith in rw same refl
  drop-take (suc n) zero j xs e = let none_left : j ≡ 0 = omega arith in rw none_left refl
  drop-take (suc n) (suc k) j [] e = sym (take-nil j)
  drop-take (suc n) (suc k) j (x ∷ xs) e = drop-take n k j xs (omega arith)

  pub drop-drop : (j k n : ℕ) (xs : List A) → n ≡ k + j → drop j (drop k xs) ≡ drop n xs
  drop-drop j zero n xs e = let same : n ≡ j = omega arith in rw same refl
  drop-drop j (suc k) n [] e = drop-nil j ∙ sym (drop-nil n)
  drop-drop j (suc k) zero (x ∷ xs) e = absurd (omega arith)
  drop-drop j (suc k) (suc n) (x ∷ xs) e = drop-drop j k n xs (omega arith)
