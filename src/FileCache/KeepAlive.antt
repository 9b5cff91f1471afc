-- ===== src/FileCache/KeepAlive.antt =====
-- Reads, additions and deletions of util/mem/cache/FileItems.go.
use gocommon.Base.{
  is_some, ℕ, ◌≡◌, refl, ap, sym, ◌∙◌, subst, Bool, false, not, Option, none, some, lookup-absent,
  lookup-same, List, [], ◌∷◌, String, string_eq, ◌==◌, inl, inr, Option-cases, Bool-cases,
  if◌then◌else◌, lookup, insert, lookup-remove, lookup-insert, IsMap, IsMap-insert,
}
use gocommon.FileCache.{Os, FileItem, add_count}
use gocommon.FileCache.Table.{
  FileItems, key_not_found, is_outdated, value, exists, expiration_check, delete,
}
use gocommon.FileCache.Expiry.{still, lookup-expiration_check}

module _ {F : Type 0} where
  -- The table after `Value` of several keys.
  abbrev pub after_values :
      Option (String → Option (FileItem F)) → List String → FileItems F → FileItems F
  after_values load [] table = table
  after_values load (key ∷ keys) table = after_values load keys (value load key table).1

  -- Whether there is an item that is not outdated.
  abbrev lives : ℕ → Option (FileItem F) → Bool
  lives now none = false
  lives now (some item) = not (is_outdated now item)

  -- What a read leaves of the items, by what it has found.
  abbrev counted :
      String → Option (FileItem F) → List (String × FileItem F) → List (String × FileItem F)
  counted key none m = m
  counted key (some item) m = insert key (add_count item) m

  value-counted :
      (load : Option (String → Option (FileItem F))) (key : String) (table : FileItems F)
      → (value load key table).1.items ≡ counted key (lookup key table.items) table.items
  unfolding value
  value-counted none key table = elim (Option-cases (lookup key table.items)) [
    | inl n ↦ rw (n, value) refl
    | inr (item, n) ↦ rw (n, value) refl
  ]
  value-counted (some load) key table = elim (Option-cases (lookup key table.items)) [
    | inl n ↦ elim (Option-cases (load key)) [
      | inl m ↦ rw (n, m, value) refl
      | inr (x, m) ↦ rw (n, m, value) refl
    ]
    | inr (item, n) ↦ rw (n, value) refl
  ]

  IsMap-counted :
      (key : String) (o : Option (FileItem F)) (m : List (String × FileItem F))
      → IsMap m
      → IsMap (counted key o m)
  IsMap-counted key none m h = h
  IsMap-counted key (some item) m h = IsMap-insert key (add_count item) m h

  lives-counted :
      (key k : String) (now : ℕ) (o : Option (FileItem F)) (m : List (String × FileItem F))
      → lookup key m ≡ o
      → lives now (lookup k (counted key o m)) ≡ lives now (lookup k m)
  unfolding add_count
  lives-counted key k now none m n = refl
  lives-counted key k now (some item) m n =
      rw (lookup-insert key k (add_count item) m) (elim (Bool-cases (k == key)) [
        | inl t ↦ rw (t, lookup-same k key m t ∙ n) refl
        | inr f ↦ rw (f) refl
      ])

  after_values-lives :
      (load : Option (String → Option (FileItem F))) (keys : List String) (table : FileItems F)
      → IsMap table.items
      → IsMap (after_values load keys table).items
        × ((k : String) (now : ℕ)
            → lives now (lookup k (after_values load keys table).items)
              ≡ lives now (lookup k table.items))
  after_values-lives load [] table h = (h, λ k now. refl)
  after_values-lives load (key ∷ keys) table h =
      let same = value-counted load key table in
      let rest =
        after_values-lives load keys (value load key table).1
          (subst IsMap (sym same) (IsMap-counted key (lookup key table.items) table.items h)) in
      (
        rest.0,
        λ k now.
            rest.1 k now
            ∙ ap (λ m. lives now (lookup k m)) same
            ∙ lives-counted key k now (lookup key table.items) table.items refl,
      )

  is_some-still : (now : ℕ) (o : Option (FileItem F)) → is_some (still now o) ≡ lives now o
  is_some-still now none = refl
  is_some-still now (some item) = elim (Bool-cases (is_outdated now item)) [
    | inl t ↦ rw (t) refl
    | inr f ↦ rw (f) refl
  ]

  exists-lives :
      (now : ℕ) (k : String) (table table' : FileItems F)
      → lookup k table'.items ≡ still now (lookup k table.items)
      → exists k table' ≡ lives now (lookup k table.items)
  unfolding exists
  exists-lives now k table table' e = rw (e, exists) (is_some-still now (lookup k table.items))

module _ {F D W : Type 0} (os : Os D W) (call : F → FileItem F → W → Bool × W) where
  -- `Value` does not keep an item alive: which keys the next `expirationCheck` leaves does not depend
  -- on how often, and on which keys, `Value` was called before. Each key stands once.
  pub exists-after_values :
      (load : Option (String → Option (FileItem F))) (keys : List String) (now : ℕ)
      (table : FileItems F) (w : W)
      → IsMap table.items
      → (k : String)
      → exists k (expiration_check os call now (after_values load keys table) w).0
        ≡ exists k (expiration_check os call now table w).0
  exists-after_values load keys now table w h k =
      let table' = after_values load keys table in
      let reads = after_values-lives load keys table h in
      exists-lives now k table' _ (lookup-expiration_check os call now table' w reads.0 k)
      ∙ reads.1 k now
      ∙ sym (exists-lives now k table _ (lookup-expiration_check os call now table w h k))

  -- `Delete` removes the item of the key and no other, and returns `ErrKeyNotFound` whether there was
  -- one or not.
  pub delete-lookup :
      (key : String) (calls_back : Bool) (table : FileItems F) (w : W)
      → ((delete os call key calls_back table w).0.1 ≡ some key_not_found)
        × ((k : String)
            → lookup k (delete os call key calls_back table w).1.items
              ≡ (if k == key then none else lookup k table.items))
  unfolding delete
  delete-lookup key calls_back table w = elim (Option-cases (lookup key table.items)) [
    | inl n ↦ rw (n, delete) (refl, λ k. lookup-absent k key table.items n)
    | inr (item, n) ↦ rw (n, delete) (refl, λ k. lookup-remove key k table.items)
  ]
