-- ===== src/Base/Dict.antt =====
-- A Go map as an association list, by a key that Go can compare. A lookup of a missing key is
-- `none`, where Go gives the zero value and `false`.
use mathlib.Core.Path.{◌≡◌, refl, ap, ◌∙◌}
use mathlib.Core.List.{List, [], ◌∷◌}
use mathlib.Core.Option.{Option, none, some}
use mathlib.Core.Logic.{inl, inr}
use mathlib.Core.Bool.{true}
use native.Mathlib.Omega.{arith}
use gocommon.Base.Tests.{Comparable, ◌==◌, if◌then◌else◌, if_cases, Bool-cases}

module _ {ℓ κ} {K : Type ℓ} ⦃c : Comparable K⦄ {V : Type κ} where
  -- `m[key]`
  unfoldable pub lookup : K → List (K × V) → Option V
  lookup key [] = none
  lookup key ((other, v) ∷ m) = if key == other then some v else lookup key m

  -- `m[key] = v`
  unfoldable pub insert : K → V → List (K × V) → List (K × V)
  insert key v [] = (key, v) ∷ []
  insert key v ((other, old) ∷ m) =
      if key == other then (other, v) ∷ m else (other, old) ∷ insert key v m

  -- `delete(m, key)`
  unfoldable pub remove : K → List (K × V) → List (K × V)
  remove key [] = []
  remove key ((other, old) ∷ m) = if key == other then remove key m else (other, old) ∷ remove key m

  pub lookup-insert :
      (key sought : K) (v : V) (m : List (K × V))
      → lookup sought (insert key v m) ≡ (if sought == key then some v else lookup sought m)
  unfolding lookup insert
  lookup-insert key sought v [] = refl
  lookup-insert key sought v ((other, old) ∷ m) = ground (
    arith,
    c.same_iff key other,
    c.same_iff sought key,
    c.same_iff sought other,
    lookup-insert key sought v m,
  )

  pub lookup-remove :
      (key sought : K) (m : List (K × V))
      → lookup sought (remove key m) ≡ (if sought == key then none else lookup sought m)
  unfolding lookup remove
  lookup-remove key sought [] = ground arith
  lookup-remove key sought ((other, old) ∷ m) = ground (
    arith,
    c.same_iff key other,
    c.same_iff sought key,
    c.same_iff sought other,
    lookup-remove key sought m,
  )

pub same_refl {ℓ} : {T : Type ℓ} ⦃c : Comparable T⦄ (a : T) → (a == a) ≡ true
same_refl ⦃c⦄ a = (c.same_iff a a).1 refl

pub same_comm {ℓ} : {T : Type ℓ} ⦃c : Comparable T⦄ (a b : T) → (a == b) ≡ (b == a)
same_comm ⦃c⦄ a b = ground (arith, c.same_iff a b, c.same_iff b a)

pub lookup-insert_self {ℓ κ} :
    {K : Type ℓ} ⦃c : Comparable K⦄ {V : Type κ} (key : K) (v : V) (m : List (K × V))
    → lookup key (insert key v m) ≡ some v
lookup-insert_self key v m = rw (lookup-insert key key v m, same_refl key)

-- Equal keys find the same.
pub lookup-same {ℓ κ} :
    {K : Type ℓ} ⦃c : Comparable K⦄ {V : Type κ} (k key : K) (m : List (K × V))
    → (k == key) ≡ true
    → lookup k m ≡ lookup key m
lookup-same ⦃c⦄ k key m t = ap (λ x. lookup x m) ((c.same_iff k key).0 t)

-- The removal of a key that is not there changes nothing.
pub lookup-absent {ℓ κ} :
    {K : Type ℓ} ⦃c : Comparable K⦄ {V : Type κ} (k key : K) (m : List (K × V))
    → lookup key m ≡ none
    → lookup k m ≡ (if k == key then none else lookup k m)
lookup-absent k key m n = elim (Bool-cases (k == key)) [
  | inl t ↦ rw (t) (lookup-same k key m t ∙ n)
  | inr f ↦ rw (f) refl
]

-- Each key of a map stands once.
abbrev pub IsMap {ℓ κ} : {K : Type ℓ} ⦃c : Comparable K⦄ {V : Type κ} → List (K × V) → Type κ
IsMap [] = Unit
IsMap ((k, v) ∷ m) = (lookup k m ≡ none) × IsMap m

pub IsMap-insert {ℓ κ} :
    {K : Type ℓ} ⦃c : Comparable K⦄ {V : Type κ} (key : K) (v : V) (m : List (K × V))
    → IsMap m
    → IsMap (insert key v m)
unfolding insert lookup
IsMap-insert key v [] h = (refl, tt)
IsMap-insert key v ((k, old) ∷ m) h =
    if_cases IsMap (key == k) ((k, v) ∷ m) ((k, old) ∷ insert key v m) (λ e. h)
      (λ e. (lookup-insert key k v m ∙ rw (same_comm k key, e) h.0, IsMap-insert key v m h.1))

pub IsMap-remove {ℓ κ} :
    {K : Type ℓ} ⦃c : Comparable K⦄ {V : Type κ} (key : K) (m : List (K × V))
    → IsMap m
    → IsMap (remove key m)
unfolding remove lookup
IsMap-remove key [] h = tt
IsMap-remove key ((k, old) ∷ m) h =
    if_cases IsMap (key == k) (remove key m) ((k, old) ∷ remove key m) (λ e. IsMap-remove key m h.1)
      (λ e. (lookup-remove key k m ∙ rw (same_comm k key, e) h.0, IsMap-remove key m h.1))
