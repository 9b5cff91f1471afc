-- ===== src/Promise/Once.antt =====
-- A promise of util/process/progoroutine.go settles once.
use gocommon.Base.{◌≡◌, refl, inl, inr, false, Option, none, some, List, [], ◌∷◌}
use gocommon.Promise.{
  Promise, Resolution, value, awaited, new_promise, wg_done, reject, resolve_to, resolve, await,
}

-- A call of one of the two functions that an executor is given, from one lock to its release. Where
-- `resolve` ends with a call of `reject`, that is a call of its own.
module _ (A E : Type 0) where
  pub data Settling : Type 0 where
    resolving : Resolution A E → Settling
    rejecting : E → Settling

module _ {A E : Type 0} where
  abbrev pub settle : Settling A E → Promise A E → Option (Promise A E)
  settle (resolving r) p = (resolve r p).0
  settle (rejecting e) p = reject e p

  abbrev pub settle_all : List (Settling A E) → Promise A E → Option (Promise A E)
  settle_all [] p = some p
  settle_all (s ∷ ss) p = elim (settle s p) [ none ↦ none | some p' ↦ settle_all ss p' ]

  -- The first call that settles, by itself, with its value or error.
  abbrev pub first_settled : List (Settling A E) → Option (Option A × Option E)
  first_settled [] = none
  first_settled (resolving (value a) ∷ ss) = some (some a, none)
  first_settled (resolving (awaited (inr a)) ∷ ss) = some (some a, none)
  first_settled (resolving (awaited (inl e)) ∷ ss) = first_settled ss
  first_settled (rejecting e ∷ ss) = some (none, some e)

  abbrev settled : Option A → Option E → Promise A E
  settled r e = record { pending = false; result = r; err = e; waits = 0 }

  settle_all-settled :
      (ss : List (Settling A E)) (r : Option A) (e : Option E)
      → settle_all ss (settled r e) ≡ some (settled r e)
  unfolding resolve resolve_to reject
  settle_all-settled [] r e = refl
  settle_all-settled (resolving (value a) ∷ ss) r e = settle_all-settled ss r e
  settle_all-settled (resolving (awaited (inr a)) ∷ ss) r e = settle_all-settled ss r e
  settle_all-settled (resolving (awaited (inl x)) ∷ ss) r e = settle_all-settled ss r e
  settle_all-settled (rejecting x ∷ ss) r e = settle_all-settled ss r e

  -- However calls of `resolve` and `reject` follow each other on a new promise, none of them panics,
  -- and `Await` returns what the first of them that settles was given; it waits if there is none.
  pub settle_all-await :
      (ss : List (Settling A E))
      → (p : Promise A E) × ((settle_all ss new_promise ≡ some p) × (await p ≡ first_settled ss))
  unfolding new_promise resolve resolve_to reject wg_done await
  settle_all-await [] = (new_promise, (refl, refl))
  settle_all-await (resolving (value a) ∷ ss) =
      (settled (some a) none, (settle_all-settled ss (some a) none, refl))
  settle_all-await (resolving (awaited (inr a)) ∷ ss) =
      (settled (some a) none, (settle_all-settled ss (some a) none, refl))
  settle_all-await (resolving (awaited (inl e)) ∷ ss) = settle_all-await ss
  settle_all-await (rejecting e ∷ ss) =
      (settled none (some e), (settle_all-settled ss none (some e), refl))
