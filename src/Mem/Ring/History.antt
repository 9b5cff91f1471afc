-- ===== src/Mem/Ring/History.antt =====
-- The entries that the ring of util/mem/ring/buffer.go holds after a sequence of puts.
use gocommon.Base.{
  ℕ, zero, suc, ◌+◌, ◌-◌, ◌≤◌, ◌≡◌, refl, ◌∙◌, ap, sym, Bool, Option, none, some, List, [], ◌∷◌,
  ◌++◌, String, if◌then◌else◌, ℤ, pos, pos_part, ltb_ℤ, length, drop, length-append, length-drop,
  Bool-cases, Option-cases, ◌||◌, inl, inr, append-nil, append_assoc, arith,
}
use gocommon.Mem.Ring.{Entry, Buffer, new, trim, put, get}

-- How many entries `Get` returns, of `len` entries.
abbrev kept : ℕ → ℕ → ℕ
kept len n = if ltb_ℤ (pos len) (pos n) || ltb_ℤ (pos n) (pos 0) then len else n

kept_lem : (k s n : ℕ) → n ≤ s → (k - s) + (k - (k - s) - kept (k - (k - s)) n) ≡ k - n
kept_lem k s n le = ground arith

module _ {ℓ} {V : Type ℓ} where
  -- The last `n` entries of a list.
  abbrev pub last : ℕ → List (Entry V) → List (Entry V)
  last n xs = drop (length xs - n) xs

  drop-snoc :
      (k : ℕ) (xs : List (Entry V)) (x : Entry V)
      → k ≤ length xs
      → drop k (xs ++ x ∷ []) ≡ drop k xs ++ x ∷ []
  drop-snoc zero xs x h = refl
  drop-snoc (suc k) [] x h = elim h [ ]
  drop-snoc (suc k) (y ∷ xs) x h = drop-snoc k xs x (omega arith)

  drop-drop : (k : ℕ) (xs : List (Entry V)) → drop 1 (drop k xs) ≡ drop (suc k) xs
  drop-drop zero xs = refl
  drop-drop (suc k) [] = refl
  drop-drop (suc k) (x ∷ xs) = drop-drop k xs

  length-last-snoc :
      (s : ℕ) (xs : List (Entry V)) (x : Entry V)
      → length (last s xs ++ x ∷ []) ≡ length xs - (length xs - s) + 1
  length-last-snoc s xs x =
      omega (arith, length-append {ℓ} (last s xs) (x ∷ []), length-drop {ℓ} (length xs - s) xs)

  trim-last :
      (size : ℤ) (xs : List (Entry V)) (x : Entry V)
      → trim size (last (pos_part size) xs ++ x ∷ []) ≡ last (pos_part size) (xs ++ x ∷ [])
  unfolding trim
  trim-last size xs x =
      let s = pos_part size in
      let n = length xs in
      let m = length-last-snoc s xs x in
      let n' : length (xs ++ x ∷ []) ≡ n + 1 = length-append xs (x ∷ []) in
      let front = drop-snoc (n - s) xs x (omega arith) in
      elim (Bool-cases (ltb_ℤ size (pos (length (last s xs ++ x ∷ []))))) [
        | inl t ↦
            let e : length (xs ++ x ∷ []) - s ≡ suc (n - s) = ground (arith, t, m, n') in
            rw t (
              ap (drop 1) (sym front)
              ∙ drop-drop (n - s) (xs ++ x ∷ [])
              ∙ ap (λ k. drop k (xs ++ x ∷ [])) (sym e))
        | inr t ↦
            let e : length (xs ++ x ∷ []) - s ≡ n - s = ground (arith, t, m, n') in
            rw t (sym front ∙ ap (λ k. drop k (xs ++ x ∷ [])) (sym e))
      ]

  put-some :
      (choose : String → Bool) (now : ℕ) (v : V) (b : Buffer V) {b' : Buffer V}
      → put choose now v b ≡ some b'
      → (b'.size ≡ b.size)
        × (b'.vals ≡ trim b.size (b.vals ++ record { value = v; timestamp = now } ∷ []))
  unfolding put
  put-some choose now v b h = ground (arith, h)

  -- The entries that a ring holds are the last `size` ones of its history (none, if the size is
  -- negative), and a `put` that returns extends the history.
  pub put-last :
      (choose : String → Bool) (now : ℕ) (v : V) (b : Buffer V) {b' : Buffer V}
      (history : List (Entry V))
      → b.vals ≡ last (pos_part b.size) history
      → put choose now v b ≡ some b'
      → b'.vals ≡ last (pos_part b'.size) (history ++ record { value = v; timestamp = now } ∷ [])
  put-last choose now v b history h e =
      let (same, vals) = put-some choose now v b e in
      rw (vals, h, same) (trim-last b.size history (record { value = v; timestamp = now }))

  -- A sequence of values with the times at which they are put.
  unfoldable pub put_all : (String → Bool) → List (Entry V) → Buffer V → Option (Buffer V)
  put_all choose [] b = some b
  put_all choose (e ∷ es) b = elim (put choose e.timestamp e.value b) [
    | none ↦ none
    | some b' ↦ put_all choose es b'
  ]

  put_all-nil :
      (choose : String → Bool) (b : Buffer V) {b' : Buffer V}
      → put_all choose [] b ≡ some b'
      → b ≡ b'
  unfolding put_all
  put_all-nil choose b e = cc

  put_all-none :
      (choose : String → Bool) (x : Entry V) (es : List (Entry V)) (b : Buffer V)
      → put choose x.timestamp x.value b ≡ none
      → put_all choose (x ∷ es) b ≡ none
  unfolding put_all
  put_all-none choose x es b p = rw (p, put_all)

  put_all-cons :
      (choose : String → Bool) (x : Entry V) (es : List (Entry V)) (b : Buffer V) {b₁ : Buffer V}
      → put choose x.timestamp x.value b ≡ some b₁
      → put_all choose (x ∷ es) b ≡ put_all choose es b₁
  unfolding put_all
  put_all-cons choose x es b p = rw (p, put_all)

  put_all-last :
      (choose : String → Bool) (es : List (Entry V)) (b : Buffer V) {b' : Buffer V}
      (history : List (Entry V))
      → b.vals ≡ last (pos_part b.size) history
      → put_all choose es b ≡ some b'
      → (b'.size ≡ b.size) × (b'.vals ≡ last (pos_part b.size) (history ++ es))
  put_all-last choose [] b history h e = rw (← put_all-nil choose b e, append-nil) (refl, h)
  put_all-last choose (x ∷ es) b {b' = b'} history h e =
      elim (Option-cases (put choose x.timestamp x.value b)) [
        | inl n ↦ absurd (cc (put_all-none choose x es b n, e))
        | inr (b₁, p) ↦
            let (same, _) = put-some choose x.timestamp x.value b p in
            let (size, vals) =
              put_all-last choose es b₁ {b' = b'} (history ++ x ∷ [])
                (put-last choose x.timestamp x.value b history h p)
                (sym (put_all-cons choose x es b p) ∙ e) in
            (size ∙ same, rw (same, append_assoc history (x ∷ []) es) at vals)
      ]

  drop-nil : (k : ℕ) → drop {A = Entry V} k [] ≡ []
  drop-nil zero = refl
  drop-nil (suc k) = refl

  drop-add : (j k : ℕ) (xs : List (Entry V)) → drop j (drop k xs) ≡ drop (k + j) xs
  drop-add j zero xs = ap (λ i. drop i xs) (omega arith)
  drop-add zero (suc k) [] = sym (drop-nil (suc k + 0))
  drop-add (suc j) (suc k) [] = sym (drop-nil (suc k + suc j))
  drop-add j (suc k) (x ∷ xs) =
      let e : suc (k + j) ≡ suc k + j = omega arith in drop-add j k xs ∙ ap (λ i. drop i (x ∷ xs)) e

  -- A new ring of size `s`, after any puts that return, gives the last `n` of the values that were put
  -- for any `n` up to `s`, each with its time, oldest first.
  pub get-put_all :
      (choose : String → Bool) (es : List (Entry V)) (s n : ℕ) {b : Buffer V}
      → n ≤ s
      → put_all choose es (new (pos s)) ≡ some b
      → get (pos n) b ≡ last n es
  unfolding get new
  get-put_all choose es s n {b = b} le e =
      let (_, vals) = put_all-last choose es (new (pos s)) [] (sym (drop-nil (0 - s))) e in
      let k = length es in
      rw (vals, length-drop (k - s) es)
        (drop-add (k - (k - s) - kept (k - (k - s)) n) (k - s) es
          ∙ ap (λ i. drop i es) (kept_lem k s n le))
