-- ===== src/FileCache/Expiry.antt =====
-- What `expirationCheck` of util/mem/cache/FileItems.go deletes, and when it runs again.
use gocommon.Base.{
  ℕ, ◌+◌, ◌-◌, ◌≡◌, ◌≤◌, ◌<◌, refl, ap, sym, ◌∙◌, subst, Bool, false, ◌||◌, Option, none, some,
  List, [], ◌∷◌, ◌++◌, String, string_eq, some-injective, lookup-absent, lookup-same, nat_eq, ◌==◌,
  ltb, arith, inl, inr, Option-cases, Bool-cases, if◌then◌else◌, any, lookup, lookup-remove, IsMap,
  if_cases, append-nil, append_assoc,
}
use gocommon.FileCache.{Os, FileItem}
use gocommon.FileCache.Table.{
  FileItems, is_outdated, scan, delete_internal, delete_outdated, expiration_check, idle_check,
}

module _ {F : Type 0} where
  abbrev outdated_keys : ℕ → List (String × FileItem F) → List String
  outdated_keys now [] = []
  outdated_keys now ((key, item) ∷ m) =
      if is_outdated now item then key ∷ outdated_keys now m else outdated_keys now m

  -- What a check leaves of an entry.
  abbrev pub still : ℕ → Option (FileItem F) → Option (FileItem F)
  still now none = none
  still now (some item) = if is_outdated now item then none else some item

  still-some :
      (now : ℕ) (item : FileItem F) (o : Option (FileItem F))
      → still now o ≡ some item
      → (o ≡ some item) × (is_outdated now item ≡ false)
  still-some now item none q = ground (arith, q)
  still-some now item (some x) q = elim (Bool-cases (is_outdated now x)) [
    | inl o ↦ absurd (ground (arith, o, q))
    | inr f ↦
        let e : some x ≡ some item = sym (rw (f) refl) ∙ q in
        (e, subst (λ y. is_outdated now y ≡ false) (some-injective x item e) f)
  ]

  scan-outdated_keys :
      (now : ℕ) (m : List (String × FileItem F)) (ks : List String) (s : ℕ)
      → (scan now m ks s).0 ≡ ks ++ outdated_keys now m
  unfolding scan
  scan-outdated_keys now [] ks s = sym (append-nil ks)
  scan-outdated_keys now ((key, item) ∷ m) ks s = elim (Bool-cases (is_outdated now item)) [
    | inl t ↦ rw (t) (
        scan-outdated_keys now m (ks ++ key ∷ []) s
        ∙ append_assoc ks (key ∷ []) (outdated_keys now m))
    | inr f ↦ rw (f) (scan-outdated_keys now m ks _)
  ]

  any-absent :
      (now : ℕ) (k : String) (m : List (String × FileItem F))
      → lookup k m ≡ none
      → any (λ x. k == x) (outdated_keys now m) ≡ false
  unfolding lookup
  any-absent now k [] h = refl
  any-absent now k ((key, item) ∷ m) h = elim (Bool-cases (k == key)) [
    | inl t ↦ ground (arith, t, h)
    | inr f ↦ elim (Bool-cases (is_outdated now item)) [
      | inl o ↦ rw (o, f) (any-absent now k m (ground (arith, f, h)))
      | inr o ↦ rw (o) (any-absent now k m (ground (arith, f, h)))
    ]
  ]

  any-outdated_keys :
      (now : ℕ) (k : String) (m : List (String × FileItem F))
      → IsMap m
      → (if any (λ x. k == x) (outdated_keys now m) then none else lookup k m)
        ≡ still now (lookup k m)
  unfolding lookup
  any-outdated_keys now k [] h = refl
  any-outdated_keys now k ((key, item) ∷ m) h = elim (Bool-cases (k == key)) [
    | inl t ↦ elim (Bool-cases (is_outdated now item)) [
      | inl o ↦ rw (t, o, t) refl
      | inr o ↦
          let absent = any-absent now k m (lookup-same k key m t ∙ h.0) in rw (t, o, absent) refl
    ]
    | inr f ↦ elim (Bool-cases (is_outdated now item)) [
      | inl o ↦ rw (o, f) (any-outdated_keys now k m h.1)
      | inr o ↦ rw (o, f) (any-outdated_keys now k m h.1)
    ]
  ]

  -- A check that has found some time does not find a longer one.
  scan-shrinks :
      (now : ℕ) (m : List (String × FileItem F)) (ks : List String) (s : ℕ)
      → 0 < s
      → (0 < (scan now m ks s).1) × ((scan now m ks s).1 ≤ s)
  unfolding scan
  scan-shrinks now [] ks s h = (h, omega arith)
  scan-shrinks now ((key, item) ∷ m) ks s h =
      let left = (item.accessed_on + item.life_span) - now in
      elim (Bool-cases (is_outdated now item)) [
        | inl o ↦ rw (o) (scan-shrinks now m (ks ++ key ∷ []) s h)
        | inr o ↦ elim (Bool-cases (s == 0 || ltb left s)) [
          | inl u ↦
              rw (o, u)
                (let r = scan-shrinks now m ks left (ground (arith, o)) in
                  (r.0, ground (arith, u, h, r.1)))
          | inr u ↦ rw (o, u) (scan-shrinks now m ks s h)
        ]
      ]

  scan-left :
      (now : ℕ) (k : String) (item : FileItem F) (m : List (String × FileItem F)) (ks : List String)
      (s : ℕ)
      → lookup k m ≡ some item
      → is_outdated now item ≡ false
      → (0 < (scan now m ks s).1) × (now + (scan now m ks s).1 ≤ item.accessed_on + item.life_span)
  unfolding scan lookup
  scan-left now k item [] ks s q f = ground (arith, q)
  scan-left now k item ((key, other) ∷ m) ks s q f = elim (Bool-cases (k == key)) [
    | inl t ↦
        let e : other ≡ item = some-injective other item (ground (arith, t, q)) in
        let o : is_outdated now other ≡ false = subst (λ x. is_outdated now x ≡ false) (sym e) f in
        let left = (other.accessed_on + other.life_span) - now in
        let s' = if s == 0 || ltb left s then left else s in
        let fresh : 0 < (other.accessed_on + other.life_span) - now = ground (arith, o) in
        let le : s' ≤ left =
          if_cases (λ x. x ≤ left) (s == 0 || ltb left s) left s (λ u. omega arith)
            (λ u. ground (arith, u)) in
        let r = scan-shrinks now m ks s' (
          if_cases (λ x. 0 < x) (s == 0 || ltb left s) left s (λ u. fresh)
            (λ u. ground (arith, u))) in
        subst
          (λ x.
            (0 < (scan now ((key, other) ∷ m) ks s).1)
            × (now + (scan now ((key, other) ∷ m) ks s).1 ≤ x.accessed_on + x.life_span))
          e (rw (o) (r.0, omega (arith, r.1, le, fresh)))
    | inr g ↦ elim (Bool-cases (is_outdated now other)) [
      | inl o ↦ rw (o) (scan-left now k item m (ks ++ key ∷ []) s (ground (arith, g, q)) f)
      | inr o ↦ rw (o) (scan-left now k item m ks _ (ground (arith, g, q)) f)
    ]
  ]

module _ {F D W : Type 0} (os : Os D W) (call : F → FileItem F → W → Bool × W) where
  lookup-delete_internal :
      (k key : String) (table : FileItems F) (w : W)
      → lookup k (delete_internal os call key (table, w)).0.items
        ≡ (if k == key then none else lookup k table.items)
  unfolding delete_internal
  lookup-delete_internal k key table w = elim (Option-cases (lookup key table.items)) [
    | inl n ↦ rw (n, delete_internal) (lookup-absent k key table.items n)
    | inr (item, n) ↦ rw (n, delete_internal) (lookup-remove key k table.items)
  ]

  lookup-delete_outdated :
      (k : String) (keys : List String) (tw : FileItems F × W)
      → lookup k (delete_outdated os call keys tw).0.items
        ≡ (if any (λ x. k == x) keys then none else lookup k tw.0.items)
  unfolding delete_outdated
  lookup-delete_outdated k [] tw = refl
  lookup-delete_outdated k (key ∷ keys) tw =
      lookup-delete_outdated k keys (delete_internal os call key tw)
      ∙ rw (lookup-delete_internal k key tw.0 tw.1) (elim (Bool-cases (k == key)) [
        | inl t ↦ elim (Bool-cases (any (λ x. k == x) keys)) [
          | inl u ↦ rw (t, u) refl
          | inr u ↦ rw (t, u) refl
        ]
        | inr f ↦ rw (f) refl
      ])

  -- `expirationCheck` deletes exactly the items whose span has passed since their access, and leaves
  -- the others as they are. Each key stands once.
  pub lookup-expiration_check :
      (now : ℕ) (table : FileItems F) (w : W)
      → IsMap table.items
      → (k : String)
      → lookup k (expiration_check os call now table w).0.items ≡ still now (lookup k table.items)
  unfolding expiration_check
  lookup-expiration_check now table w h k =
      lookup-delete_outdated k (scan now table.items [] 0).0 (table, w)
      ∙ rw (scan-outdated_keys now table.items [] 0) (any-outdated_keys now k table.items h)

  -- After `expirationCheck` the timer runs out no later than the span of any item that is left.
  pub expiration_check-timer :
      (now : ℕ) (table : FileItems F) (w : W)
      → IsMap table.items
      → (k : String) (item : FileItem F)
      → lookup k (expiration_check os call now table w).0.items ≡ some item
      → (d : ℕ) × (((expiration_check os call now table w).0.timer ≡ some d)
          × ((0 < d) × (now + d ≤ item.accessed_on + item.life_span)))
  unfolding expiration_check
  expiration_check-timer now table w h k item q =
      let kept =
        still-some now item (lookup k table.items)
          (sym (lookup-expiration_check now table w h k) ∙ q) in
      let bounds = scan-left now k item table.items [] 0 kept.0 kept.1 in
      let shortest = (scan now table.items [] 0).1 in
      (
        shortest,
        (
          ap some (
              if_cases (λ x. x ≡ shortest) (ltb 0 shortest) shortest idle_check (λ e. refl)
                (λ e. ground (arith, e, bounds.0))),
          bounds,
        ),
      )
