-- ===== src/Event/Order.antt =====
-- Which listeners `FireEvent` of event/manager.go calls, and in which order.
use gocommon.Base.{
  ℕ, ◌≡◌, refl, ap, sym, ◌∙◌, Bool, true, false, Option, none, some, List, [], ◌∷◌, ◌++◌, String,
  string_eq, arith, inl, inr, Option-cases, Bool-cases, subst, replicate, suc, zero, lookup,
  append-nil, append_assoc,
}
use gocommon.Event.{
  BasicEvent, Listener, ListenerItem, Manager, Param, invalid, wildcard, abort, queue_of, items_of,
  run,
}
use gocommon.Event.Fire.{
  has_listeners, fire_wildcard, fire_event, fire_param, fire_batch_from, fire_batch,
}

module _ {V E : Type 0} where
  -- The result of a run, without what tells whether it stopped.
  abbrev pub outcome : Option (Bool × Option E × BasicEvent V) → Option (Option E × BasicEvent V)
  outcome none = none
  outcome (some (stopped, err, e)) = some (err, e)

  abbrev pub fired :
      Option (Option E × BasicEvent V × Manager V E) → Option (Option E × BasicEvent V)
  fired none = none
  fired (some (err, e, em)) = some (err, e)

  -- What a list of listeners makes of an event: they are called one after the other, until one of
  -- them is nil, fails or leaves the event aborted.
  pub data Calls
      : List (ListenerItem V E) → BasicEvent V → Option (Option E × BasicEvent V) → Type 0 where
    ends : {e : BasicEvent V} → Calls [] e (some (none, e))
    panics :
        {x : ListenerItem V E} {xs : List (ListenerItem V E)} {e : BasicEvent V}
        → x.listener ≡ none
        → Calls (x ∷ xs) e none
    fails :
        {x : ListenerItem V E} {xs : List (ListenerItem V E)} {e : BasicEvent V} (l : Listener V E)
        (err : E)
        → x.listener ≡ some l
        → (l.handle e).0 ≡ some err
        → Calls (x ∷ xs) e (some (some err, (l.handle e).1))
    aborts :
        {x : ListenerItem V E} {xs : List (ListenerItem V E)} {e : BasicEvent V} (l : Listener V E)
        → x.listener ≡ some l
        → (l.handle e).0 ≡ none
        → (l.handle e).1.aborted ≡ true
        → Calls (x ∷ xs) e (some (none, (l.handle e).1))
    goes_on :
        {x : ListenerItem V E} {xs : List (ListenerItem V E)} {e : BasicEvent V} (l : Listener V E)
        {r : Option (Option E × BasicEvent V)}
        → x.listener ≡ some l
        → (l.handle e).0 ≡ none
        → (l.handle e).1.aborted ≡ false
        → Calls xs (l.handle e).1 r
        → Calls (x ∷ xs) e r

  Calls-result :
      (x : ListenerItem V E) (xs : List (ListenerItem V E)) (e : BasicEvent V)
      (r : Option (Option E × BasicEvent V))
      → outcome (run (x ∷ xs) e) ≡ r
      → Calls (x ∷ xs) e r
      → Calls (x ∷ xs) e (outcome (run (x ∷ xs) e))
  Calls-result x xs e r h c = subst (λ y. Calls (x ∷ xs) e y) (sym h) c

  run-Calls : (xs : List (ListenerItem V E)) (e : BasicEvent V) → Calls xs e (outcome (run xs e))
  unfolding run
  run-Calls [] e = ends
  run-Calls (x ∷ xs) e = elim (Option-cases x.listener) [
    | inl n ↦ Calls-result x xs e none (rw (n, run) refl) (panics n)
    | inr (l, n) ↦ elim (Option-cases (l.handle e).0) [
      | inr (err, h) ↦
          Calls-result x xs e (some (some err, (l.handle e).1)) (rw (n, h, run) refl)
            (fails l err n h)
      | inl h ↦ elim (Bool-cases (l.handle e).1.aborted) [
        | inl t ↦
            Calls-result x xs e (some (none, (l.handle e).1)) (rw (n, h, t, run) refl)
              (aborts l n h t)
        | inr f ↦
            Calls-result x xs e (outcome (run xs (l.handle e).1)) (rw (n, h, f, run) refl)
              (goes_on l n h f (run-Calls xs (l.handle e).1))
      ]
    ]
  ]

  -- A run over `ys` after a run that has not stopped.
  abbrev pub and_then :
      Option (Bool × Option E × BasicEvent V)
      → List (ListenerItem V E)
      → Option (Bool × Option E × BasicEvent V)
  and_then none ys = none
  and_then (some (true, err, e)) ys = some (true, err, e)
  and_then (some (false, err, e)) ys = run ys e

  -- A run over two lists is a run over the first, and over the second unless the first has stopped.
  run-append :
      (xs ys : List (ListenerItem V E)) (e : BasicEvent V)
      → run (xs ++ ys) e ≡ and_then (run xs e) ys
  unfolding run
  run-append [] ys e = refl
  run-append (x ∷ xs) ys e = elim (Option-cases x.listener) [
    | inl n ↦ ground (arith, n)
    | inr (l, n) ↦ ground (arith, n, run-append xs ys (l.handle e).1)
  ]

  -- A run that has not stopped has no error.
  run-false :
      (xs : List (ListenerItem V E)) (e : BasicEvent V) (err : Option E) (e' : BasicEvent V)
      → run xs e ≡ some (false, err, e')
      → err ≡ none
  unfolding run
  run-false [] e err e' h = cc
  run-false (x ∷ xs) e err e' h = elim (Option-cases x.listener) [
    | inl n ↦ ground (arith, n, h)
    | inr (l, n) ↦ ground (arith, n, h, run-false xs (l.handle e).1 err e')
  ]

  module _ (sort : List (ListenerItem V E) → List ℕ → List ℕ) where
    -- The listeners that are in line for an event: those of its name in the order in which they were
    -- registered, and then those of the wildcard, sorted.
    abbrev pub in_line : String → Manager V E → List (ListenerItem V E)
    in_line name em =
        items_of em.cells (queue_of name em)
        ++ items_of em.cells (sort em.cells (queue_of wildcard em))

    outcome-fire_wildcard :
        (e : BasicEvent V) (em : Manager V E)
        → sort em.cells [] ≡ []
        → fired (fire_wildcard sort e em)
          ≡ outcome (run (items_of em.cells (sort em.cells (queue_of wildcard em))) e)
    unfolding fire_wildcard has_listeners queue_of
    outcome-fire_wildcard e em h = elim (Option-cases (lookup wildcard em.listeners)) [
      | inl n ↦ rw (n, h, fire_wildcard, has_listeners, queue_of, items_of, run) refl
      | inr (lq, n) ↦ elim (Option-cases (run (items_of em.cells (sort em.cells lq)) e)) [
        | inl m ↦ rw (n, m, fire_wildcard, has_listeners, queue_of) refl
        | inr (r, m) ↦ rw (n, m, fire_wildcard, has_listeners, queue_of) refl
      ]
    ]

    fire_event-run :
        (e : BasicEvent V) (em : Manager V E)
        → sort em.cells [] ≡ []
        → fired (fire_event sort e em) ≡ outcome (run (in_line e.name em) (abort false e))
    unfolding fire_event
    fire_event-run e em h =
        let named : List (ListenerItem V E) = items_of em.cells (queue_of e.name em) in
        let others : List (ListenerItem V E) =
          items_of em.cells (sort em.cells (queue_of wildcard em)) in
        rw (run-append named others (abort false e))
          (elim (Option-cases (run (items_of em.cells (queue_of e.name em)) (abort false e))) [
            | inl n ↦ rw (n, fire_event) refl
            | inr ((true, err, e'), n) ↦ rw (n, fire_event) refl
            | inr ((false, err, e'), n) ↦ rw (n, fire_event) (outcome-fire_wildcard e' em h)
          ])

    -- `FireEvent` clears the abort mark and calls the listeners in line one after the other, until one
    -- of them fails or leaves the event aborted; the error and the event are its answer. A nil
    -- listener panics. `sort` leaves an empty queue empty.
    pub fire_event-Calls :
        (e : BasicEvent V) (em : Manager V E)
        → sort em.cells [] ≡ []
        → Calls (in_line e.name em) (abort false e) (fired (fire_event sort e em))
    fire_event-Calls e em h =
        let calls = run-Calls (in_line e.name em) (abort false e) in
        subst (λ r. Calls (in_line e.name em) (abort false e) r) (sym (fire_event-run e em h)) calls

  module _ (trim : String → String) (sort : List (ListenerItem V E) → List ℕ → List ℕ) where
    repeated :
        (k : ℕ) (x : E) (ers : List E) (em : Manager V E)
        → fire_batch_from trim sort (some x) ers (replicate k invalid) em
          ≡ some (ers ++ replicate k x, em)
    unfolding fire_batch_from fire_param
    repeated zero x ers em = ap (λ l. some (l, em)) (sym (append-nil ers))
    repeated (suc k) x ers em =
        repeated k x (ers ++ x ∷ []) em
        ∙ ap (λ l. some (l, em)) (append_assoc ers (x ∷ []) (replicate k x))

    -- `FireBatch` does not forget an error: each invalid parameter behind one that fails adds the same
    -- error once more.
    pub fire_batch-invalid :
        (p : Param V E) (k : ℕ) (x : E) (em em' : Manager V E)
        → fire_param trim sort none p em ≡ some (some x, em')
        → fire_batch trim sort (p ∷ replicate k invalid) em ≡ some (replicate (suc k) x, em')
    unfolding fire_batch fire_batch_from
    fire_batch-invalid p k x em em' h = rw (h, fire_batch_from) (repeated k x (x ∷ []) em')
