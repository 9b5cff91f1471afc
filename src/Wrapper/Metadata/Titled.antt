-- ===== src/Wrapper/Metadata/Titled.antt =====
-- What is found of a key of the metadata after Set and Delete of service-wrapper/metadata.go.
use gocommon.Base.{
  ◌≡◌, refl, sym, none, some, [], ◌∷◌, String, string_eq, ◌==◌, if◌then◌else◌, lookup, insert,
  remove, lookup-insert, lookup-remove, lookup-same, IsMap, IsMap-insert, IsMap-remove, Bool-cases,
  Option-cases, inl, inr, arith, ◌∙◌, if_cases,
}
use gocommon.Wrapper.Metadata.{
  first_of-none, MetaData, Context, or_empty, first_of, get_key, capitalise, from_context, set, get,
}

module _ (title : String → String) (twice : (k : String) → title (title k) ≡ title k) where
  -- Every key is a title, and stands once.
  abbrev Titled : MetaData → Type 0
  Titled [] = Unit
  Titled ((k, v) ∷ m) = (title k ≡ k) × Titled m

  Titled-insert : (k v : String) (m : MetaData) → title k ≡ k → Titled m → Titled (insert k v m)
  unfolding insert
  Titled-insert k v [] e h = (e, tt)
  Titled-insert k v ((o, w) ∷ m) e h =
      if_cases Titled (k == o) ((o, v) ∷ m) ((o, w) ∷ insert k v m) (λ _. h)
        (λ _. (h.0, Titled-insert k v m e h.1))

  Titled-remove : (k : String) (m : MetaData) → Titled m → Titled (remove k m)
  unfolding remove
  Titled-remove k [] h = tt
  Titled-remove k ((o, w) ∷ m) h =
      if_cases Titled (k == o) (remove k m) ((o, w) ∷ remove k m) (λ _. Titled-remove k m h.1)
        (λ _. (h.0, Titled-remove k m h.1))

  capitalise-Titled :
      (m new : MetaData)
      → IsMap new × Titled new
      → IsMap (capitalise title m new) × Titled (capitalise title m new)
  unfolding capitalise
  capitalise-Titled [] new h = h
  capitalise-Titled ((k, v) ∷ m) new h =
      capitalise-Titled m (insert (title k) v new)
        (IsMap-insert (title k) v new h.0, Titled-insert (title k) v new (twice k) h.1)

  -- Titles stay as they are.
  lookup-capitalise :
      (m new : MetaData) (q : String)
      → IsMap m
      → Titled m
      → lookup q (capitalise title m new) ≡ first_of (lookup q m) (lookup q new)
  unfolding capitalise lookup
  lookup-capitalise [] new q h g = refl
  lookup-capitalise ((k, v) ∷ m) new q h g =
      let rest = lookup-capitalise m (insert (title k) v new) q h.1 g.1 in
      let put = lookup-insert k q v new in
      elim (Bool-cases (q == k)) [
        | inl t ↦ let once = lookup-same q k m t ∙ h.0 in rest ∙ rw (g.0, once, put, t) refl
        | inr f ↦ rest ∙ rw (g.0, put, f) refl
      ]

  title-found : (q v : String) (m : MetaData) → Titled m → lookup q m ≡ some v → title q ≡ q
  unfolding lookup
  title-found q v [] h e = absurd (cc e)
  title-found q v ((k, w) ∷ m) h e = elim (Bool-cases (q == k)) [
    | inl t ↦ let same = (string_eq.same_iff q k).0 t in rw same h.0
    | inr f ↦ title-found q v m h.1 (rw f at e)
  ]

  get_key-Titled : (m : MetaData) (q : String) → Titled m → get_key title m q ≡ lookup (title q) m
  unfolding get_key
  get_key-Titled m q h = elim (Option-cases (lookup q m)) [
    | inl n ↦ rw n refl
    | inr (v, n) ↦ let e = title-found q v m h n in rw (n, e) (sym n)
  ]

  -- What `Set` and `Get` start from.
  abbrev start : Context → MetaData
  start ctx = or_empty (from_context title ctx)

  start-Titled : (ctx : Context) → IsMap (start ctx) × Titled (start ctx)
  unfolding from_context
  start-Titled none = (tt, tt)
  start-Titled (some md) = capitalise-Titled md [] (tt, tt)

  get-start : (ctx : Context) (q : String) → get title ctx q ≡ lookup (title q) (start ctx)
  unfolding get from_context lookup
  get-start none q = refl
  get-start (some md) q = get_key-Titled (capitalise title md []) q (start-Titled (some md)).1

  get-Titled :
      (m : MetaData) (q : String) → IsMap m × Titled m → get title (some m) q ≡ lookup (title q) m
  unfolding from_context lookup
  get-Titled m q h =
      get-start (some m) q
      ∙ lookup-capitalise m [] (title q) h.0 h.1
      ∙ first_of-none (lookup (title q) m)

  put-Titled :
      (k v : String) (m : MetaData)
      → title k ≡ k
      → IsMap m × Titled m
      → IsMap (if v == "" then remove k m else insert k v m)
        × Titled (if v == "" then remove k m else insert k v m)
  put-Titled k v m e h =
      if_cases (λ r. IsMap r × Titled r) (v == "") (remove k m) (insert k v m)
        (λ _. (IsMap-remove k m h.0, Titled-remove k m h.1))
        (λ _. (IsMap-insert k v m h.0, Titled-insert k v m e h.1))

  lookup-put :
      (k v q : String) (m : MetaData)
      → lookup q (if v == "" then remove k m else insert k v m)
        ≡ (if q == k then (if v == "" then none else some v) else lookup q m)
  lookup-put k v q m = ground (arith, lookup-insert k q v m, lookup-remove k q m)

  -- `title` gives a title, which it leaves as it is. After `Set` with a key that is a title, `Get`
  -- finds the new value under each key with that title, or nothing where the value was
  -- empty, as after `Delete`; under every other key it finds what it found before.
  pub get-set :
      (ctx : Context) (k v q : String)
      → title k ≡ k
      → get title (set title ctx k v) q
        ≡ (if title q == k then (if v == "" then none else some v) else get title ctx q)
  unfolding set
  get-set ctx k v q e =
      let m = start ctx in
      get-Titled (if v == "" then remove k m else insert k v m) q
        (put-Titled k v m e (start-Titled ctx))
      ∙ lookup-put k v (title q) m
      ∙ rw (get-start ctx q) refl
