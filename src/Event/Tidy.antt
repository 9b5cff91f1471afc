-- ===== src/Event/Tidy.antt =====
-- No call of event/manager.go leaves an empty queue in a manager.
use gocommon.Base.{
  not, ◌&&◌, ℕ, ◌≡◌, ◌<◌, true, false, Option, none, some, List, [], ◌∷◌, ◌++◌, String, string_eq,
  nat_eq, ◌==◌, arith, inl, inr, Option-cases, Bool-cases, if_cases, length, length-append, All,
  lookup, insert, remove,
}
use gocommon.Event.{
  by_name, by_event, invalid, good_name, set_values, new_basic_event, Param, BasicEvent, Listener,
  ListenerItem, Manager, wildcard, abort, queue_of, items_of, run, allocate, add_listener_item,
  subscribe_loop, add_subscriber,
}
use gocommon.Event.Subscribing.{stored_name}
use gocommon.Event.Fire.{
  has_listeners, get_event, fire_wildcard, fire_event, fire, fire_param, fire_batch_from,
}
use gocommon.Event.Remove.{remove_items, remove_all, remove_listener}

pub All-insert :
    {A : Type 0} (P : String × A → Type 0) (name : String) (v : A) (m : List (String × A))
    → ((k : String) → P (k, v))
    → All P m
    → All P (insert name v m)
unfolding insert
All-insert P name v [] h hs = (h name, tt)
All-insert P name v ((other, old) ∷ m) h hs =
    if_cases (All P) (name == other) ((other, v) ∷ m) ((other, old) ∷ insert name v m)
      (λ e. (h other, hs.1)) (λ e. (hs.0, All-insert P name v m h hs.1))

pub All-remove :
    {A : Type 0} (P : String × A → Type 0) (name : String) (m : List (String × A))
    → All P m
    → All P (remove name m)
unfolding remove
All-remove P name [] hs = tt
All-remove P name ((other, old) ∷ m) hs =
    if_cases (All P) (name == other) (remove name m) ((other, old) ∷ remove name m)
      (λ e. All-remove P name m hs.1) (λ e. (hs.0, All-remove P name m hs.1))

abbrev pub HasItems : String × List ℕ → Type 0
HasItems p = 0 < length p.1

module _ {V E : Type 0} where
  -- No queue that is stored is empty.
  abbrev pub IsTidy : Manager V E → Type 0
  IsTidy em = All HasItems em.listeners

pub lookup-HasItems :
    (name : String) (m : List (String × List ℕ)) (lq : List ℕ)
    → All HasItems m
    → lookup name m ≡ some lq
    → 0 < length lq
unfolding lookup
lookup-HasItems name [] lq h q = ground (arith, q)
lookup-HasItems name ((other, old) ∷ m) lq h q = elim (Bool-cases (name == other)) [
  | inl t ↦ ground (arith, t, q, h.0)
  | inr f ↦ lookup-HasItems name m lq h.1 (ground (arith, f, q))
]

module _ {V E : Type 0} where
  pub IsTidy-add_listener_item :
      (trim : String → String) (name : String) (a : ℕ) (item : ListenerItem V E) (em : Manager V E)
      → IsTidy em
      → IsTidy (add_listener_item trim name a item em)
  unfolding add_listener_item
  IsTidy-add_listener_item trim name a item em h = elim (Option-cases item.listener) [
    | inl n ↦ rw (n, add_listener_item) h
    | inr (l, n) ↦
        rw (n, add_listener_item)
          (if_cases IsTidy (stored_name trim name == "") em
            (record em {
              listeners =
                  insert (stored_name trim name) (queue_of (stored_name trim name) em ++ a ∷ [])
                    em.listeners;
            })
            (λ e. h)
            (λ e.
              All-insert HasItems (stored_name trim name)
                (queue_of (stored_name trim name) em ++ a ∷ []) em.listeners
                (λ k.
                  omega (arith, length-append {0} (queue_of (stored_name trim name) em) (a ∷ [])))
                h))
  ]

  pub IsTidy-subscribe_loop :
      (trim : String → String) (a : ℕ) (items : List (ListenerItem V E)) (em : Manager V E)
      → IsTidy em
      → IsTidy (subscribe_loop trim a items em)
  unfolding subscribe_loop
  IsTidy-subscribe_loop trim a [] em h = h
  IsTidy-subscribe_loop trim a (item ∷ items) em h =
      IsTidy-subscribe_loop trim a items _
        (IsTidy-add_listener_item trim item.key a item (record em { cells = _ }) h)

  pub IsTidy-add_subscriber :
      (trim : String → String) (items : List (ListenerItem V E)) (em : Manager V E)
      → IsTidy em
      → IsTidy (add_subscriber trim items em)
  unfolding add_subscriber allocate
  IsTidy-add_subscriber trim [] em h = h
  IsTidy-add_subscriber trim (item ∷ items) em h =
      IsTidy-subscribe_loop trim (length em.cells) (item ∷ items) (record em { cells = _ }) h

  pub IsTidy-remove_all :
      (cells : List (ListenerItem V E)) (listener : Option (Listener V E))
      (m : List (String × List ℕ))
      → All HasItems (remove_all cells listener m)
  unfolding remove_all
  IsTidy-remove_all cells listener [] = tt
  IsTidy-remove_all cells listener ((name, lq) ∷ m) =
      if_cases (All HasItems) (length (remove_items cells listener lq) == 0) _ _
        (λ e. IsTidy-remove_all cells listener m)
        (λ e. (ground (arith, e), IsTidy-remove_all cells listener m))

  pub IsTidy-remove_listener :
      (name : String) (listener : Option (Listener V E)) (em : Manager V E)
      → IsTidy em
      → IsTidy (remove_listener name listener em)
  unfolding remove_listener
  IsTidy-remove_listener name listener em h =
      if_cases IsTidy (name == "") _ _ (λ e. IsTidy-remove_all em.cells listener em.listeners)
        (λ e.
          if_cases IsTidy (has_listeners name em) _ em
            (λ f.
              if_cases (All HasItems)
                (length (remove_items em.cells listener (queue_of name em)) == 0) _ _
                (λ g. All-remove HasItems name em.listeners h)
                (λ g. All-insert HasItems name _ em.listeners (λ k. ground (arith, g)) h))
            (λ f. h))

  -- The manager after a call that has fired an event; a panic leaves it as it is.
  abbrev pub settled : Manager V E → Option (Option E × BasicEvent V × Manager V E) → Manager V E
  settled em none = em
  settled em (some (err, e, em')) = em'

  abbrev pub settled_named :
      Manager V E → Option (Option E × Option (BasicEvent V) × Manager V E) → Manager V E
  settled_named em none = em
  settled_named em (some (err, e, em')) = em'

  abbrev pub settled_batch : Manager V E → Option (List E × Manager V E) → Manager V E
  settled_batch em none = em
  settled_batch em (some (ers, em')) = em'

  module _ (trim : String → String) (sort : List (ListenerItem V E) → List ℕ → List ℕ) where
    pub queue_of-HasItems :
        (name : String) (em : Manager V E) (lq : List ℕ)
        → IsTidy em
        → lookup name em.listeners ≡ some lq
        → 0 < length (queue_of name em)
    unfolding queue_of
    queue_of-HasItems name em lq h n = rw (n, queue_of) (lookup-HasItems name em.listeners lq h n)

    module _
        (keeps : (cells : List (ListenerItem V E)) (lq : List ℕ)
          → length (sort cells lq) ≡ length lq) where
      pub IsTidy-fire_wildcard :
          (e : BasicEvent V) (em old : Manager V E)
          → IsTidy em
          → IsTidy old
          → IsTidy (settled old (fire_wildcard sort e em))
      unfolding fire_wildcard has_listeners queue_of
      IsTidy-fire_wildcard e em old h g = elim (Option-cases (lookup wildcard em.listeners)) [
        | inl n ↦ rw (n, fire_wildcard, has_listeners, queue_of) h
        | inr (lq, n) ↦
            elim (Option-cases (run (items_of em.cells (sort em.cells (queue_of wildcard em))) e)) [
              | inl m ↦ rw (n, m, fire_wildcard, has_listeners) g
              | inr ((stopped, err, e'), m) ↦
                  rw (n, m, fire_wildcard, has_listeners)
                    (All-insert HasItems wildcard (sort em.cells (queue_of wildcard em))
                      em.listeners
                      (λ k. omega (
                        arith,
                        keeps em.cells (queue_of wildcard em),
                        queue_of-HasItems wildcard em lq h n,
                      ))
                      h)
            ]
      ]

      pub IsTidy-fire_event :
          (e : BasicEvent V) (em : Manager V E)
          → IsTidy em
          → IsTidy (settled em (fire_event sort e em))
      unfolding fire_event
      IsTidy-fire_event e em h =
          elim (Option-cases (run (items_of em.cells (queue_of e.name em)) (abort false e))) [
            | inl n ↦ rw (n, fire_event) h
            | inr ((true, err, e'), n) ↦ rw (n, fire_event) h
            | inr ((false, err, e'), n) ↦ rw (n, fire_event) (IsTidy-fire_wildcard e' em em h h)
          ]

      pub IsTidy-fire_named :
          (name : String) (params : Option (List (Option V))) (em : Manager V E)
          → IsTidy em
          → IsTidy (settled_named em (fire trim sort name params em))
      unfolding fire
      IsTidy-fire_named name params em h =
          let name' = good_name trim name in
          elim (Bool-cases (not (has_listeners name' em) && not (has_listeners wildcard em))) [
            | inl t ↦ rw (t, fire) h
            | inr f ↦ elim (Option-cases (get_event name' em)) [
              | inr (e, m) ↦
                  let tidy = IsTidy-fire_event (set_values params e) em h in
                  elim (Option-cases (fire_event sort (set_values params e) em)) [
                    | inl n ↦ rw (f, m, n, fire) h
                    | inr (r, n) ↦ let t = (rw n at tidy) in rw (f, m, n, fire) t
                  ]
              | inl m ↦
                  let tidy = IsTidy-fire_event (new_basic_event name' params) em h in
                  elim (Option-cases (fire_event sort (new_basic_event name' params) em)) [
                    | inl n ↦ rw (f, m, n, fire) h
                    | inr (r, n) ↦ let t = (rw n at tidy) in rw (f, m, n, fire) t
                  ]
            ]
          ]

      -- The manager after a round of `FireBatch`.
      abbrev settled_param : Manager V E → Option (Option E × Manager V E) → Manager V E
      settled_param em none = em
      settled_param em (some (err, em')) = em'

      pub IsTidy-fire_param :
          (err : Option E) (p : Param V E) (em : Manager V E)
          → IsTidy em
          → IsTidy (settled_param em (fire_param trim sort err p em))
      unfolding fire_param
      IsTidy-fire_param err (by_name name) em h =
          let tidy = IsTidy-fire_named name none em h in
          elim (Option-cases (fire trim sort name none em)) [
            | inl n ↦ rw (n, fire_param) h
            | inr (r, n) ↦ let t = (rw n at tidy) in rw (n, fire_param) t
          ]
      IsTidy-fire_param err (by_event e) em h =
          let tidy = IsTidy-fire_event e em h in
          elim (Option-cases (fire_event sort e em)) [
            | inl n ↦ rw (n, fire_param) h
            | inr (r, n) ↦ let t = (rw n at tidy) in rw (n, fire_param) t
          ]
      IsTidy-fire_param err invalid em h = h

      pub IsTidy-fire_batch_from :
          (err : Option E) (ers : List E) (ps : List (Param V E)) (em old : Manager V E)
          → IsTidy em
          → IsTidy old
          → IsTidy (settled_batch old (fire_batch_from trim sort err ers ps em))
      unfolding fire_batch_from
      IsTidy-fire_batch_from err ers [] em old h g = h
      IsTidy-fire_batch_from err ers (p ∷ ps) em old h g =
          let tidy = IsTidy-fire_param err p em h in
          elim (Option-cases (fire_param trim sort err p em)) [
            | inl n ↦ rw (n, fire_batch_from) g
            | inr ((none, em'), n) ↦
                let rest = IsTidy-fire_batch_from none ers ps em' old (rw n at tidy) g in
                rw (n, fire_batch_from) rest
            | inr ((some x, em'), n) ↦
                let rest =
                  IsTidy-fire_batch_from (some x) (ers ++ x ∷ []) ps em' old (rw n at tidy) g in
                rw (n, fire_batch_from) rest
          ]
