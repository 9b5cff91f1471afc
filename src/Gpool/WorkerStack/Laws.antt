-- ===== src/Gpool/WorkerStack/Laws.antt =====
-- What gpool/work_stack.go promises of its operations.
use gocommon.Base.{
  ℕ, zero, suc, ◌+◌, ◌-◌, ◌≡◌, refl, ap, sym, ◌∙◌, Bool, true, false, none, some, List, [], ◌∷◌,
  ◌++◌, arith, length, get_elem?, take, drop, keep, take-eq-keep, drop-eq-keep, take-append-drop,
  get_elem?_of_lt, length-take, ◌≢◌, ◌<◌, length-append,
}
use native.Mathlib.Decide.{ℕ_discrete}
use gocommon.Gpool.Worker.{GoWorker, is_fresh, is_expired}
use gocommon.Gpool.WorkerStack.{
  WorkerStack, len, insert, detach, binary_search, split_expiry, retrieve_expiry, reset,
}
use gocommon.Gpool.WorkerStack.Search.{
  IsSorted, ExpiredBelow, FreshFrom, binary_search_total, binary_search_lem,
}

get_elem?-length-append :
    (xs : List GoWorker) (w : GoWorker) → get_elem? (xs ++ w ∷ []) (length xs) ≡ some w
get_elem?-length-append [] w = refl
get_elem?-length-append (x ∷ xs) w = get_elem?-length-append xs w

take-length-append : (xs : List GoWorker) (w : GoWorker) → take (length xs) (xs ++ w ∷ []) ≡ xs
take-length-append [] w = refl
take-length-append (x ∷ xs) w = ap (λ t. x ∷ t) (take-length-append xs w)

suc-sub-one : (n : ℕ) → n + 1 - 1 ≡ n
suc-sub-one n = omega arith

-- `detach` returns the worker that `insert` put back last, and leaves the stack that `insert`
-- was given.
pub detach-insert : (w : GoWorker) (wq : WorkerStack) → detach (insert w wq).1 ≡ (some w, wq)
unfolding detach insert
detach-insert w wq =
    rw (length-append wq.items (w ∷ []), suc-sub-one (length wq.items))
      (ground (arith, get_elem?-length-append wq.items w, take-length-append wq.items w))

-- An empty stack detaches nil and stays as it is.
pub detach-none : (wq : WorkerStack) → len wq ≡ 0 → detach wq ≡ (none, wq)
unfolding detach
detach-none wq h = ground arith

-- Any other stack gives a worker, and is one shorter afterwards.
pub detach-some :
    (wq : WorkerStack)
    → 0 < len wq
    → (w : GoWorker) × ((detach wq).0 ≡ some w) × (len (detach wq).1 + 1 ≡ len wq)
unfolding detach
detach-some wq h =
    let (w, e) = get_elem?_of_lt wq.items (length wq.items - 1) (omega arith) in
    (w, ground (arith, e), ground (arith, length-take (length wq.items - 1) wq.items))

retrieve_expiry_none :
    (now duration : ℕ) (wq : WorkerStack)
    → length wq.items ≡ 0
    → retrieve_expiry now duration wq ≡ some ([], wq)
unfolding retrieve_expiry
retrieve_expiry_none now duration wq h = ground arith

retrieve_expiry_cut :
    (now duration k : ℕ) (wq : WorkerStack)
    → length wq.items ≢ 0
    → binary_search (length wq.items + 1) wq.items 0 (length wq.items) now duration ≡ some k
    → retrieve_expiry now duration wq ≡ some (split_expiry k wq)
unfolding retrieve_expiry
retrieve_expiry_cut now duration k wq ne h = ground arith

-- Cutting the items at `k` loses none of them.
split_expiry_conserves :
    (k : ℕ) (wq : WorkerStack) → (split_expiry k wq).0 ++ (split_expiry k wq).1.items ≡ wq.items
unfolding split_expiry
split_expiry_conserves k wq = ground (arith, take-append-drop k wq.items)

-- `retrieve_expiry` always returns, and the workers that it hands out, followed by those that it
-- leaves on the stack, are the workers that it found there, in any order of their times.
pub retrieve_expiry_conserves :
    (now duration : ℕ) (wq : WorkerStack)
    → (out : List GoWorker) × (left : WorkerStack) × (retrieve_expiry now duration wq
        ≡ some (out, left))
      × (out ++ left.items ≡ wq.items)
retrieve_expiry_conserves now duration wq = elim (ℕ_discrete (length wq.items) 0) [
  | yes e ↦ ([], wq, retrieve_expiry_none now duration wq e, refl)
  | no ne ↦
      let (k, found, _, _) =
        binary_search_total now duration wq.items (length wq.items + 1) 0 (length wq.items)
          (omega arith) (omega arith) (omega arith) in
      (
        (split_expiry k wq).0,
        (split_expiry k wq).1,
        retrieve_expiry_cut now duration k wq ne found,
        split_expiry_conserves k wq,
      )
]

split_expiry-keep :
    (now duration k : ℕ) (wq : WorkerStack)
    → take k wq.items ≡ keep (is_expired now duration) wq.items
    → drop k wq.items ≡ keep (is_fresh now duration) wq.items
    → ((split_expiry k wq).0 ≡ keep (is_expired now duration) wq.items)
      × ((split_expiry k wq).1.items ≡ keep (is_fresh now duration) wq.items)
unfolding split_expiry
split_expiry-keep now duration k wq t d = elim (ℕ_discrete k 0) [
  | yes e ↦ rw e (rw e at t, rw e at d)
  | no ne ↦ ground (arith, t, d)
]

is_expired-true :
    (now duration : ℕ) (w : GoWorker)
    → is_fresh now duration w ≡ false
    → is_expired now duration w ≡ true
unfolding is_expired
is_expired-true now duration w h = ground arith

is_expired-false :
    (now duration : ℕ) (w : GoWorker)
    → is_fresh now duration w ≡ true
    → is_expired now duration w ≡ false
unfolding is_expired
is_expired-false now duration w h = ground arith

-- Where the search parts the stack, the parts are what the tests keep.
parts-keep :
    (now duration k : ℕ) (wq : WorkerStack)
    → ExpiredBelow now duration wq.items k × FreshFrom now duration wq.items k
    → ((split_expiry k wq).0 ≡ keep (is_expired now duration) wq.items)
      × ((split_expiry k wq).1.items ≡ keep (is_fresh now duration) wq.items)
parts-keep now duration k wq (old, young) =
    split_expiry-keep now duration k wq
      (take-eq-keep (is_expired now duration) k wq.items
        (λ i a h g. is_expired-true now duration a (old i a h g))
        (λ i a h g. is_expired-false now duration a (young i a h g)))
      (drop-eq-keep (is_fresh now duration) k wq.items old young)

keep_nil : (p : GoWorker → Bool) (xs : List GoWorker) → length xs ≡ 0 → keep p xs ≡ []
keep_nil p [] h = refl
keep_nil p (x ∷ xs) h = absurd (omega arith)

-- On a stack whose workers stand in the order of their times `retrieve_expiry` hands out exactly
-- the expired workers and leaves exactly the others, both in their order.
pub retrieve_expiry_exact :
    (now duration : ℕ) (wq : WorkerStack)
    → IsSorted wq.items
    → (left : WorkerStack) × (retrieve_expiry now duration wq
        ≡ some (keep (is_expired now duration) wq.items, left))
      × (left.items ≡ keep (is_fresh now duration) wq.items)
retrieve_expiry_exact now duration wq sorted = elim (ℕ_discrete (length wq.items) 0) [
  | yes e ↦ (
    wq,
    rw (keep_nil (is_expired now duration) wq.items e) (retrieve_expiry_none now duration wq e),
    nil_eq wq.items e ∙ sym (keep_nil (is_fresh now duration) wq.items e),
  )
  | no ne ↦
      let (k, found, _, _) =
        binary_search_total now duration wq.items (length wq.items + 1) 0 (length wq.items)
          (omega arith) (omega arith) (omega arith) in
      let parts = parts-keep now duration k wq (
        binary_search_lem now duration wq.items sorted (length wq.items + 1) 0 (length wq.items) k
          (omega arith) (λ i w h. absurd (omega arith)) (past_end now duration wq.items) found) in
      (
        (split_expiry k wq).1,
        rw (← parts.0) (retrieve_expiry_cut now duration k wq ne found),
        parts.1,
      )
]
  where
    nil_eq : (xs : List GoWorker) → length xs ≡ 0 → xs ≡ []
    nil_eq [] h = refl
    nil_eq (x ∷ xs) h = absurd (omega arith)

    past_end : (a b : ℕ) (xs : List GoWorker) → FreshFrom a b xs (length xs)
    past_end a b [] i w le h = absurd (cc)
    past_end a b (x ∷ xs) zero w le h = elim le [ ]
    past_end a b (x ∷ xs) (suc i) w le h = past_end a b xs i w (omega arith) h

-- `reset` sends nil to every worker of the stack, once each, and leaves it empty.
pub reset_lem :
    (wq : WorkerStack) → ((reset wq).0 ≡ wq.items) × (detach (reset wq).1 ≡ (none, (reset wq).1))
unfolding reset detach
reset_lem wq = (refl, ground arith)
