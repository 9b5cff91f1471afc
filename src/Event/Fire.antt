-- ===== src/Event/Fire.antt =====
-- Firing an event, of event/manager.go. `sort` stands for `Sort` of a queue, by the priorities of
-- the cells at its addresses; it changes the queue that is stored.
use gocommon.Base.{
  ℕ, Bool, true, false, not, ◌&&◌, Option, none, some, List, [], ◌∷◌, ◌++◌, String, string_eq,
  if◌then◌else◌, lookup, insert, remove,
}
use gocommon.Event.{
  BasicEvent, ListenerItem, Manager, Param, by_name, by_event, invalid, wildcard, good_name, abort,
  set_values, new_basic_event, queue_of, items_of, run,
}

module _ {V E : Type 0} where
  -- `HasListeners`
  unfoldable pub has_listeners : String → Manager V E → Bool
  unfolding lookup
  has_listeners name em = elim (lookup name em.listeners) [ none ↦ false | some _ ↦ true ]

  unfoldable pub add_event : (String → String) → BasicEvent V → Manager V E → Manager V E
  unfolding good_name insert
  add_event trim e em = record em { events = insert (good_name trim e.name) e em.events }

  unfoldable pub get_event : String → Manager V E → Option (BasicEvent V)
  unfolding lookup
  get_event name em = lookup name em.events

  unfoldable pub remove_event : String → Manager V E → Manager V E
  unfolding remove
  remove_event name em = record em { events = remove name em.events }

  unfoldable pub remove_events : Manager V E → Manager V E
  remove_events em = record em { events = [] }

module _ {V E : Type 0} (sort : List (ListenerItem V E) → List ℕ → List ℕ) where
  -- The last part of `FireEvent`, for the queue of the wildcard.
  unfoldable pub fire_wildcard :
      BasicEvent V → Manager V E → Option (Option E × BasicEvent V × Manager V E)
  unfolding has_listeners queue_of items_of run insert
  fire_wildcard e em =
      if has_listeners wildcard em
      then (let lq = sort em.cells (queue_of wildcard em) in
          elim (run (items_of em.cells lq) e) [
            | none ↦ none
            | some (stopped, err, e') ↦
                some (err, e', record em { listeners = insert wildcard lq em.listeners })
          ])
      else some (none, e, em)

  -- `FireEvent`; `none` is a panic.
  unfoldable pub fire_event :
      BasicEvent V → Manager V E → Option (Option E × BasicEvent V × Manager V E)
  unfolding abort queue_of items_of run fire_wildcard
  fire_event e em = elim (run (items_of em.cells (queue_of e.name em)) (abort false e)) [
    | none ↦ none
    | some (true, err, e') ↦ some (err, e', em)
    | some (false, err, e') ↦ fire_wildcard e' em
  ]

module _ {V E : Type 0} (trim : String → String)
    (sort : List (ListenerItem V E) → List ℕ → List ℕ) where
  -- `Fire`. An event that the manager has is changed where it is stored.
  unfoldable pub fire :
      String
      → Option (List (Option V))
      → Manager V E
      → Option (Option E × Option (BasicEvent V) × Manager V E)
  unfolding good_name has_listeners get_event set_values new_basic_event fire_event insert
  fire name params em =
      let name' = good_name trim name in
      if not (has_listeners name' em) && not (has_listeners wildcard em)
      then some (none, none, em)
      else elim (get_event name' em) [
        | some e ↦ elim (fire_event sort (set_values params e) em) [
          | none ↦ none
          | some (err, e', em') ↦
              some (err, some e', record em' { events = insert name' e' em'.events })
        ]
        | none ↦ elim (fire_event sort (new_basic_event name' params) em) [
          | none ↦ none
          | some (err, e', em') ↦ some (err, some e', em')
        ]
      ]

  -- One round of `FireBatch`: the error after it, from the error before it.
  unfoldable pub fire_param : Option E → Param V E → Manager V E → Option (Option E × Manager V E)
  unfolding fire fire_event
  fire_param err (by_name name) em = elim (fire name none em) [
    | none ↦ none
    | some (err', e, em') ↦ some (err', em')
  ]
  fire_param err (by_event e) em = elim (fire_event sort e em) [
    | none ↦ none
    | some (err', e', em') ↦ some (err', em')
  ]
  fire_param err invalid em = some (err, em)

  -- `FireBatch`, from a round on. The variable `err` is not reset between the rounds.
  unfoldable pub fire_batch_from :
      Option E → List E → List (Param V E) → Manager V E → Option (List E × Manager V E)
  unfolding fire_param
  fire_batch_from err ers [] em = some (ers, em)
  fire_batch_from err ers (p ∷ ps) em = elim (fire_param err p em) [
    | none ↦ none
    | some (none, em') ↦ fire_batch_from none ers ps em'
    | some (some x, em') ↦ fire_batch_from (some x) (ers ++ x ∷ []) ps em'
  ]

  unfoldable pub fire_batch : List (Param V E) → Manager V E → Option (List E × Manager V E)
  unfolding fire_batch_from
  fire_batch es em = fire_batch_from none [] es em
