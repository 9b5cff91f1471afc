-- ===== src/Tests/Config.antt =====
-- Tests of the configuration service, and its theorems at concrete inputs.
use gocommon.Base.{
  not, if◌then◌else◌, is_some, ℕ, suc, ◌≡◌, refl, Bool, true, false, none, some, List, [], ◌∷◌,
  String, string_eq, nat_eq, ◌==◌, arith, inl, inr, Bool-cases, length, any, lookup, insert, remove,
  lookup-insert, lookup-remove,
}
use gocommon.Apollo.{
  added, modified, deleted, FreeCache, changes_of, update_apollo_config_cache, put_configs,
  put_config, note_change, key_set, delete_keys,
}
use gocommon.Apollo.Diff.{IsCache, stored, change, update_apollo_config_cache_lem}
use gocommon.Apollo.Hosts.{Hosts, Response, unreachable, request_recovery}
use gocommon.Apollo.Recovery.{Ends, request_recovery-Ends}

abbrev names_of : List (String × String) → List String
names_of [] = []
names_of ((k, v) ∷ m) = k ∷ names_of m

-- A cache into which the value "long" does not fit.
abbrev is_short : String → String → Bool
is_short key v = not (v == "long")

abbrev map_cache : FreeCache (List (String × String))
map_cache = record {
  get = λ k c. lookup k c;
  set = λ k v n c. if is_short k v then insert k v c else c;
  del = λ k c. remove k c;
  keys = names_of;
  entry_count = λ c. length c;
}

map_keys :
    (k : String) (c : List (String × String))
    → any (λ x. k == x) (names_of c) ≡ is_some (lookup k c)
unfolding lookup
map_keys k [] = refl
map_keys k ((key, v) ∷ c) = elim (Bool-cases (k == key)) [
  | inl t ↦ rw (t) refl
  | inr f ↦ rw (f) (map_keys k c)
]

map_none : (k : String) (c : List (String × String)) → length c ≡ 0 → lookup k c ≡ none
unfolding lookup
map_none k [] h = refl
map_none k (x ∷ c) h = absurd (omega arith)

map_cache-get_set :
    (key k v : String) (n : ℕ) (c : List (String × String))
    → lookup k (if is_short key v then insert key v c else c)
      ≡ (if k == key then (if is_short key v then some v else lookup k c) else lookup k c)
map_cache-get_set key k v n c = elim (Bool-cases (is_short key v)) [
  | inl t ↦ rw t (lookup-insert key k v c)
  | inr f ↦ elim (Bool-cases (k == key)) [ inl u ↦ rw (f, u) refl | inr g ↦ rw (f, g) refl ]
]

map_cache_laws : IsCache map_cache is_short
map_cache_laws = record {
  get_set = map_cache-get_set;
  get_del = λ key k c. lookup-remove key k c;
  get_keys = map_keys;
  get_none = map_none;
}

abbrev old_config : List (String × String)
old_config = ("a", "1") ∷ ("b", "2") ∷ ("c", "3") ∷ []

abbrev new_config : List (String × String)
new_config = ("b", "2") ∷ ("c", "4") ∷ ("d", "long") ∷ []

changes_run :
    changes_of (update_apollo_config_cache map_cache (some new_config) 120 old_config).1
    ≡ ("c", modified "3" "4") ∷ ("d", added "long") ∷ ("a", deleted "1") ∷ []
unfolding update_apollo_config_cache put_configs put_config note_change key_set delete_keys lookup
    insert remove
changes_run = refl

update_apollo_config_cache_lem_example :
    (lookup "c" (update_apollo_config_cache map_cache (some new_config) 120 old_config).0
      ≡ stored is_short "c" (lookup "c" old_config) (lookup "c" new_config))
    × (lookup "c"
          (changes_of (update_apollo_config_cache map_cache (some new_config) 120 old_config).1)
        ≡ change (lookup "c" old_config) (lookup "c" new_config))
unfolding lookup
update_apollo_config_cache_lem_example =
    update_apollo_config_cache_lem map_cache is_short map_cache_laws (some new_config) 120
      old_config (refl, (refl, (refl, tt))) "c"

abbrev silent : String → ℕ → Response × ℕ
silent url n = (unreachable, suc n)

abbrev answered : String → ℕ → Bool × ℕ
answered b n = (true, n)

abbrev three_hosts : Hosts
three_hosts = record { next_try = 0; servers = ("h1", false) ∷ ("h2", true) ∷ [] }

request_recovery-Ends_example :
    Ends
      (λ i. 7)
      (request_recovery silent answered (answered "") (λ s. s) "h0" (λ i. 7) 0 3 three_hosts 0)
unfolding lookup
request_recovery-Ends_example =
    request_recovery-Ends silent answered (answered "") (λ s. s) "h0" (λ i. 7) refl
      (λ i j. omega arith) 3 0 three_hosts 0 (refl, (refl, tt)) (refl, (refl, tt)) (omega arith)
