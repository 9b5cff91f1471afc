-- ===== src/Event/Queues.antt =====
-- The queues of a manager of event/manager.go through all calls: none of them is empty.
use gocommon.Base.{
  ℕ, ◌≡◌, refl, Option, none, List, [], ◌∷◌, String, string_eq, nat_eq, ltb, arith, inl, inr,
  Option-cases, if◌then◌else◌, ltb_ℤ, pos, ℤ, length, lookup,
}
use gocommon.Event.{
  Param, BasicEvent, Listener, ListenerItem, Manager, new_manager, queue_of, allocate, on,
  add_subscriber,
}
use gocommon.Event.Fire.{
  has_listeners, add_event, remove_event, remove_events, fire_event, fire, fire_batch,
}
use gocommon.Event.Remove.{remove_listener, remove_listeners, listeners_count, reset}
use gocommon.Event.Tidy.{
  HasItems, IsTidy, lookup-HasItems, All-remove, IsTidy-add_listener_item, IsTidy-add_subscriber,
  IsTidy-remove_listener, IsTidy-fire_named, IsTidy-fire_event, IsTidy-fire_batch_from, settled,
  settled_named, settled_batch,
}

-- A call of the manager that may change it.
module _ (V E : Type 0) where
  pub data Call : Type 0 where
    on_call : String → Option (Listener V E) → ℤ → Call
    subscribe_call : List (ListenerItem V E) → Call
    fire_call : String → Option (List (Option V)) → Call
    fire_event_call : BasicEvent V → Call
    fire_batch_call : List (Param V E) → Call
    add_event_call : BasicEvent V → Call
    remove_event_call : String → Call
    remove_events_call : Call
    remove_call : String → Option (Listener V E) → Call
    remove_all_call : String → Call
    reset_call : Call

module _ {V E : Type 0} where
  module _ (trim : String → String) (sort : List (ListenerItem V E) → List ℕ → List ℕ) where
    -- The manager after a call.
    abbrev pub after : Call V E → Manager V E → Manager V E
    after (on_call name listener priority) em = on trim name listener priority em
    after (subscribe_call items) em = add_subscriber trim items em
    after (fire_call name params) em = settled_named em (fire trim sort name params em)
    after (fire_event_call e) em = settled em (fire_event sort e em)
    after (fire_batch_call es) em = settled_batch em (fire_batch trim sort es em)
    after (add_event_call e) em = add_event trim e em
    after (remove_event_call name) em = remove_event name em
    after remove_events_call em = remove_events em
    after (remove_call name listener) em = remove_listener name listener em
    after (remove_all_call name) em = remove_listeners name em
    after reset_call em = reset em

    abbrev pub after_all : List (Call V E) → Manager V E → Manager V E
    after_all [] em = em
    after_all (c ∷ cs) em = after_all cs (after c em)

    module _
        (keeps : (cells : List (ListenerItem V E)) (lq : List ℕ)
          → length (sort cells lq) ≡ length lq) where
      IsTidy-after : (c : Call V E) (em : Manager V E) → IsTidy em → IsTidy (after c em)
      unfolding on allocate remove_listeners reset fire_batch add_event remove_event remove_events
      IsTidy-after (on_call name listener priority) em h =
          IsTidy-add_listener_item trim name (length em.cells)
            (record {
              key = name;
              priority = if ltb_ℤ (pos 0) priority then priority else pos 0;
              listener = listener;
            })
            (record em { cells = _ }) h
      IsTidy-after (subscribe_call items) em h = IsTidy-add_subscriber trim items em h
      IsTidy-after (fire_call name params) em h = IsTidy-fire_named trim sort keeps name params em h
      IsTidy-after (fire_event_call e) em h = IsTidy-fire_event trim sort keeps e em h
      IsTidy-after (fire_batch_call es) em h =
          IsTidy-fire_batch_from trim sort keeps none [] es em em h h
      IsTidy-after (add_event_call e) em h = h
      IsTidy-after (remove_event_call name) em h = h
      IsTidy-after remove_events_call em h = h
      IsTidy-after (remove_call name listener) em h = IsTidy-remove_listener name listener em h
      IsTidy-after (remove_all_call name) em h = All-remove HasItems name em.listeners h
      IsTidy-after reset_call em h = tt

      IsTidy-after_all :
          (cs : List (Call V E)) (em : Manager V E) → IsTidy em → IsTidy (after_all cs em)
      IsTidy-after_all [] em h = h
      IsTidy-after_all (c ∷ cs) em h = IsTidy-after_all cs (after c em) (IsTidy-after c em h)

      tidy-count :
          (name : String) (em : Manager V E)
          → IsTidy em
          → has_listeners name em ≡ ltb 0 (listeners_count name em)
      unfolding has_listeners listeners_count queue_of
      tidy-count name em h = elim (Option-cases (lookup name em.listeners)) [
        | inl n ↦ rw (n, has_listeners, listeners_count, queue_of) refl
        | inr (lq, n) ↦
            rw (n, has_listeners, listeners_count, queue_of)
              (ground (arith, lookup-HasItems name em.listeners lq h n))
      ]

      -- In a manager that any calls of `On`, `AddSubscriber`, `Fire`, `FireEvent`, `FireBatch`,
      -- `AddEvent`, `RemoveEvent`, `RemoveEvents`, `RemoveListener`, `RemoveListeners` and `Reset` have
      -- led to from a new one, `HasListeners` says whether `ListenersCount` is positive: no call
      -- leaves an empty queue behind. A call that panics counts as none. `sort` keeps the length.
      pub has_listeners-after_all :
          (cs : List (Call V E)) (id name : String)
          → has_listeners name (after_all cs (new_manager id))
            ≡ ltb 0 (listeners_count name (after_all cs (new_manager id)))
      unfolding has_listeners listeners_count queue_of new_manager
      has_listeners-after_all cs id name =
          tidy-count name (after_all cs (new_manager id)) (IsTidy-after_all cs (new_manager id) tt)
