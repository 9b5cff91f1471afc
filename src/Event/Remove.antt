-- ===== src/Event/Remove.antt =====
-- Removal of listeners, of event/manager.go and event/listener.go.
use gocommon.Base.{
  ℕ, Bool, false, not, Option, none, some, List, [], ◌∷◌, String, string_eq, nat_eq, ◌==◌,
  if◌then◌else◌, length, get_elem?, keep, insert, remove,
}
use gocommon.Event.{Listener, ListenerItem, Manager, queue_of}
use gocommon.Event.Fire.{has_listeners}

module _ {V E : Type 0} where
  -- The test of `ListenerQueue.Remove`. A nil listener prints as no pointer does.
  unfoldable pub is_pointer : String → List (ListenerItem V E) → ℕ → Bool
  is_pointer pointer cells a = elim (get_elem? cells a) [
    | none ↦ false
    | some item ↦ elim item.listener [ none ↦ false | some l ↦ l.pointer == pointer ]
  ]

  -- `ListenerQueue.Remove`
  unfoldable pub remove_items : List (ListenerItem V E) → Option (Listener V E) → List ℕ → List ℕ
  unfolding is_pointer
  remove_items cells none lq = lq
  remove_items cells (some l) lq = keep (λ a. not (is_pointer l.pointer cells a)) lq

  -- The loop of `RemoveListener` over all queues, which drops those that are empty.
  unfoldable pub remove_all :
      List (ListenerItem V E)
      → Option (Listener V E)
      → List (String × List ℕ)
      → List (String × List ℕ)
  unfolding remove_items
  remove_all cells listener [] = []
  remove_all cells listener ((name, lq) ∷ m) =
      let rest = remove_all cells listener m in
      let lq' = remove_items cells listener lq in
      if length lq' == 0 then rest else (name, lq') ∷ rest

  -- `RemoveListener`
  unfoldable pub remove_listener : String → Option (Listener V E) → Manager V E → Manager V E
  unfolding has_listeners queue_of remove_items remove_all insert remove
  remove_listener name listener em =
      if name == ""
      then record em { listeners = remove_all em.cells listener em.listeners }
      else if has_listeners name em
      then (let lq = remove_items em.cells listener (queue_of name em) in
          record em {
            listeners =
                if length lq == 0 then remove name em.listeners else insert name lq em.listeners;
          })
      else em

  -- `RemoveListeners`
  unfoldable pub remove_listeners : String → Manager V E → Manager V E
  unfolding remove
  remove_listeners name em = record em { listeners = remove name em.listeners }

  -- `ListenersCount`
  unfoldable pub listeners_count : String → Manager V E → ℕ
  unfolding queue_of
  listeners_count name em = length (queue_of name em)

  -- `Reset`
  unfoldable pub reset : Manager V E → Manager V E
  reset em = record em { name = ""; events = []; listeners = [] }
