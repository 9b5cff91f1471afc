-- ===== src/Apollo/Diff.antt =====
-- The changes that `updateApolloConfigCache` of apollo-config/cache.go reports.
use gocommon.Base.{
  is_some, ℕ, ◌≡◌, refl, ap, sym, ◌∙◌, Bool, true, false, ◌&&◌, Option, none, some, List, [], ◌∷◌,
  String, string_eq, nat_eq, ◌==◌, arith, inl, inr, Bool-cases, if◌then◌else◌, any, lookup, insert,
  lookup-insert, lookup-remove, IsMap, IsMap-insert, IsMap-remove, same_refl, subst,
}
use gocommon.Apollo.{
  ConfigChange, added, modified, deleted, FreeCache, Progress, key_set, text_or_empty, note_change,
  put_config, put_configs, delete_keys, is_empty_config, entries_of, changes_of,
  update_apollo_config_cache,
}

-- What the code relies on of freecache, as long as no entry expires or is evicted. `fits` tells whether
-- an entry is small enough: `Set` does not write a larger one.
pub record IsCache {C : Type 0} (cache : FreeCache C) (fits : String → String → Bool) : Type 0 where
  pub get_set :
      (key k v : String) (n : ℕ) (c : C)
      → cache.get k (cache.set key v n c)
        ≡ (if k == key then (if fits key v then some v else cache.get k c) else cache.get k c)
  pub get_del :
      (key k : String) (c : C)
      → cache.get k (cache.del key c) ≡ (if k == key then none else cache.get k c)
  pub get_keys : (k : String) (c : C) → any (λ x. k == x) (cache.keys c) ≡ is_some (cache.get k c)
  pub get_none : (k : String) (c : C) → cache.entry_count c ≡ 0 → cache.get k c ≡ none

-- The change of one key, from its old and its new value.
abbrev pub change : Option String → Option String → Option ConfigChange
change none none = none
change none (some v) = some (added v)
change (some o) none = some (deleted o)
change (some o) (some v) = if o == v then none else some (modified o v)

-- What the cache has of a key, from what it had and from the new value: it keeps the old value where
-- the new entry is too large.
abbrev pub stored :
    (String → String → Bool) → String → Option String → Option String → Option String
stored fits key old none = none
stored fits key old (some v) = if fits key v then some v else old

IsMap-key_set : (keys : List String) → IsMap (key_set keys)
unfolding key_set
IsMap-key_set [] = tt
IsMap-key_set (key ∷ keys) = IsMap-insert key true (key_set keys) (IsMap-key_set keys)

lookup-key_set :
    (k : String) (keys : List String)
    → lookup k (key_set keys) ≡ (if any (λ x. k == x) keys then some true else none)
unfolding key_set lookup
lookup-key_set k [] = refl
lookup-key_set k (key ∷ keys) =
    lookup-insert key k true (key_set keys)
    ∙ elim (Bool-cases (k == key)) [ inl t ↦ rw (t) | inr f ↦ rw (f) (lookup-key_set k keys) ]

-- The change of a key after `note_change`.
abbrev noted : String → String → Option Bool → Option ConfigChange → Option ConfigChange
noted v old none changed = some (added v)
noted v old (some _) changed = if old == v then changed else some (modified old v)

lookup-note_change :
    (key k v old : String) (known : Option Bool) (changes : List (String × ConfigChange))
    → lookup k (note_change key v old known changes)
      ≡ (if k == key then noted v old known (lookup k changes) else lookup k changes)
unfolding note_change
lookup-note_change key k v old none changes = lookup-insert key k (added v) changes
lookup-note_change key k v old (some b) changes = elim (Bool-cases (old == v)) [
  | inl t ↦ elim (Bool-cases (k == key)) [ inl u ↦ rw (t, u) refl | inr g ↦ rw (t, g) refl ]
  | inr f ↦ rw (f) (lookup-insert key k (modified old v) changes)
]

module _ {C : Type 0} (cache : FreeCache C) (fits : String → String → Bool)
    (laws : IsCache cache fits) where
  -- What the loop has for one key: its value in the cache, its change, and whether it is old.
  abbrev view : String → Progress C → Option String × Option ConfigChange × Option Bool
  view k p = (cache.get k p.store, lookup k p.changes, lookup k p.old_keys)

  -- What a round for this key makes of it.
  abbrev put_view :
      String
      → String
      → Option String × Option ConfigChange × Option Bool
      → Option String × Option ConfigChange × Option Bool
  put_view key v (old, changed, known) =
      (stored fits key old (some v), noted v (text_or_empty old) known changed, none)

  abbrev put_any :
      String
      → Option String
      → Option String × Option ConfigChange × Option Bool
      → Option String × Option ConfigChange × Option Bool
  put_any key none w = w
  put_any key (some v) w = put_view key v w

  view-put_config_same :
      (n : ℕ) (key v : String) (p : Progress C)
      → view key (put_config cache n key v p) ≡ put_view key v (view key p)
  unfolding put_config
  view-put_config_same n key v p =
      let old = text_or_empty (cache.get key p.store) in
      let known = lookup key p.old_keys in
      rw
        (
          laws.get_set key key v n p.store,
          lookup-note_change key key v old known p.changes,
          lookup-remove key key p.old_keys,
          same_refl key,
        )
        refl

  view-put_config_other :
      (n : ℕ) (key k v : String) (p : Progress C)
      → (k == key) ≡ false
      → view k (put_config cache n key v p) ≡ view k p
  unfolding put_config
  view-put_config_other n key k v p h =
      let old = text_or_empty (cache.get key p.store) in
      let known = lookup key p.old_keys in
      rw
        (
          laws.get_set key k v n p.store,
          lookup-note_change key k v old known p.changes,
          lookup-remove key k p.old_keys,
          h,
        )
        refl

  view-put_config :
      (n : ℕ) (key k v : String) (p : Progress C)
      → view k (put_config cache n key v p)
        ≡ (if k == key then put_view k v (view k p) else view k p)
  unfolding put_config
  view-put_config n key k v p = elim (Bool-cases (k == key)) [
    | inl t ↦ rw (t) (
        subst (λ x. view x (put_config cache n key v p) ≡ put_view x v (view x p))
          (sym ((string_eq.same_iff k key).0 t)) (view-put_config_same n key v p))
    | inr f ↦ rw (f) (view-put_config_other n key k v p f)
  ]

  view-put_configs :
      (n : ℕ) (k : String) (m : List (String × String)) (p : Progress C)
      → IsMap m
      → view k (put_configs cache n m p) ≡ put_any k (lookup k m) (view k p)
  unfolding put_configs lookup
  view-put_configs n k [] p h = refl
  view-put_configs n k ((key, v) ∷ m) p h = elim (Bool-cases (k == key)) [
    | inl t ↦ rw (t) (
        view-put_configs n k m (put_config cache n key v p) h.1
        ∙ rw (subst (λ x. lookup x m ≡ none) (sym ((string_eq.same_iff k key).0 t)) h.0)
            (view-put_config n key k v p ∙ rw (t) refl))
    | inr f ↦ rw (f) (
        view-put_configs n k m (put_config cache n key v p) h.1
        ∙ ap (put_any k (lookup k m)) (view-put_config_other n key k v p f))
  ]

  IsMap-put_configs :
      (n : ℕ) (m : List (String × String)) (p : Progress C)
      → IsMap p.old_keys
      → IsMap (put_configs cache n m p).old_keys
  unfolding put_configs put_config
  IsMap-put_configs n [] p h = h
  IsMap-put_configs n ((key, v) ∷ m) p h =
      IsMap-put_configs n m (put_config cache n key v p) (IsMap-remove key p.old_keys h)

  -- What the removal of the old keys makes of a key.
  abbrev delete_view :
      Option Bool → Option String × Option ConfigChange → Option String × Option ConfigChange
  delete_view none w = w
  delete_view (some _) (old, changed) = (none, some (deleted (text_or_empty old)))

  view-delete_keys :
      (k : String) (mp : List (String × Bool)) (c : C) (changes : List (String × ConfigChange))
      → IsMap mp
      → (
        cache.get k (delete_keys cache mp (c, changes)).0,
        lookup k (delete_keys cache mp (c, changes)).1,
      )
        ≡ delete_view (lookup k mp) (cache.get k c, lookup k changes)
  unfolding delete_keys lookup
  view-delete_keys k [] c changes h = refl
  view-delete_keys k ((key, b) ∷ mp) c changes h =
      let c' = cache.del key c in
      let changes' = insert key (deleted (text_or_empty (cache.get key c))) changes in
      elim (Bool-cases (k == key)) [
        | inl t ↦ rw (t) (
            view-delete_keys k mp c' changes' h.1
            ∙ rw
                (
                  subst (λ x. lookup x mp ≡ none) (sym ((string_eq.same_iff k key).0 t)) h.0,
                  laws.get_del key k c,
                  lookup-insert key k (deleted (text_or_empty (cache.get key c))) changes,
                  t,
                )
                (ap (λ x. (none, some (deleted (text_or_empty (cache.get x c)))))
                  (sym ((string_eq.same_iff k key).0 t))))
        | inr f ↦ rw (f) (
            view-delete_keys k mp c' changes' h.1
            ∙ rw
                (
                  laws.get_del key k c,
                  lookup-insert key k (deleted (text_or_empty (cache.get key c))) changes,
                  f,
                )
                refl)
      ]

  -- The removal, on what the loop has for a key.
  abbrev finish :
      Option String × Option ConfigChange × Option Bool → Option String × Option ConfigChange
  finish (old, changed, known) = delete_view known (old, changed)

  finish-put_any :
      (key : String) (old new : Option String)
      → finish (put_any key new (old, none, if is_some old then some true else none))
        ≡ (stored fits key old new, change old new)
  finish-put_any key none none = refl
  finish-put_any key none (some v) = refl
  finish-put_any key (some o) none = refl
  finish-put_any key (some o) (some v) = refl

  lookup-empty :
      (k : String) (configurations : Option (List (String × String)))
      → is_empty_config configurations ≡ true
      → lookup k (entries_of configurations) ≡ none
  unfolding lookup
  lookup-empty k none h = refl
  lookup-empty k (some []) h = refl
  lookup-empty k (some (x ∷ m)) h = ground (arith, h)

  view-start :
      (k : String) (c : C)
      → view k (record { store = c; changes = []; old_keys = key_set (cache.keys c) })
        ≡ (cache.get k c, none, if is_some (cache.get k c) then some true else none)
  unfolding lookup
  view-start k c = rw (lookup-key_set k (cache.keys c), laws.get_keys k c) refl

  -- After `updateApolloConfigCache` the cache has the new configuration and no other key, save that
  -- a key whose new entry is too large for freecache keeps its old value, if it had one. For each
  -- key the result tells how the configuration changes its old value, if it does, whether the entry
  -- is written or not. The new configuration has each key once, and no entry expires or is evicted.
  pub update_apollo_config_cache_lem :
      (configurations : Option (List (String × String))) (n : ℕ) (c : C)
      → IsMap (entries_of configurations)
      → (k : String)
      → (cache.get k (update_apollo_config_cache cache configurations n c).0
          ≡ stored fits k (cache.get k c) (lookup k (entries_of configurations)))
        × (lookup k (changes_of (update_apollo_config_cache cache configurations n c).1)
            ≡ change (cache.get k c) (lookup k (entries_of configurations)))
  unfolding update_apollo_config_cache
  update_apollo_config_cache_lem configurations n c h k =
      elim (Bool-cases (is_empty_config configurations && cache.entry_count c == 0)) [
        | inl t ↦
            rw
              (
                t,
                lookup-empty k configurations (ground (arith, t)),
                laws.get_none k c (ground (arith, t)),
              )
              (refl, refl)
        | inr f ↦
            let start : Progress C = record {
              store = c;
              changes = [];
              old_keys = key_set (cache.keys c);
            } in
            let p = put_configs cache n (entries_of configurations) start in
            let both =
              view-delete_keys k p.old_keys p.store p.changes (
                IsMap-put_configs n (entries_of configurations) start
                  (IsMap-key_set (cache.keys c)))
              ∙ ap finish (view-put_configs n k (entries_of configurations) start h)
              ∙ ap (λ w. finish (put_any k (lookup k (entries_of configurations)) w))
                  (view-start k c)
              ∙ finish-put_any k (cache.get k c) (lookup k (entries_of configurations)) in
            rw (f) (ap (λ w. w.0) both, ap (λ w. w.1) both)
      ]
