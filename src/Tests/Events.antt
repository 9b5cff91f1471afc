-- ===== src/Tests/Events.antt =====
-- Tests of the event manager, and its theorems at concrete inputs.
use gocommon.Base.{
  ℕ, ◌≡◌, refl, String, none, some, List, [], ◌∷◌, false, pos, string_eq, ltb, insert, lookup,
}
use gocommon.Event.{
  BasicEvent, Listener, ListenerItem, Manager, by_event, by_name, wildcard, abort, add, new_manager,
  new_basic, queue_of, run, on, good_name, matches_name, all_name_chars, allocate,
  add_listener_item,
}
use gocommon.Event.Fire.{has_listeners, fire_wildcard, fire_event, fire_param}
use gocommon.Event.Remove.{listeners_count}
use gocommon.Event.Order.{Calls, fired, in_line, fire_event-Calls}
use gocommon.Event.Queues.{
  Call, on_call, subscribe_call, fire_event_call, add_event_call, fire_call, fire_batch_call,
  remove_call, after_all, has_listeners-after_all,
}

abbrev same_text : String → String
same_text s = s

abbrev unsorted : List (ListenerItem ℕ ℕ) → List ℕ → List ℕ
unsorted cells lq = lq

-- A listener that notes a number in the event.
abbrev noting : ℕ → Listener ℕ ℕ
noting n = record { pointer = "noting"; handle = λ e. (none, add (some n) e) }

abbrev failing : Listener ℕ ℕ
failing = record { pointer = "failing"; handle = λ e. (some 7, e) }

abbrev item_of : String → Listener ℕ ℕ → ListenerItem ℕ ℕ
item_of name l = record { key = name; priority = pos 0; listener = some l }

abbrev two_names : Manager ℕ ℕ
two_names =
    on same_text wildcard (some (noting 9)) (pos 5)
      (on same_text "go" (some (noting 1)) (pos 0) (new_manager "m"))

abbrev go_event : BasicEvent ℕ
go_event = new_basic "go" (some [])

-- The listener of the name comes before that of the wildcard, whatever their priorities are.
order_run :
    fired (fire_event unsorted go_event two_names)
    ≡ some (none, record go_event { values = some 1 ∷ some 9 ∷ [] })
unfolding fire_event fire_wildcard has_listeners queue_of run on add_listener_item good_name
    matches_name all_name_chars allocate new_basic new_manager insert lookup abort add
order_run = refl

good_name_run : good_name same_text "a b" ≡ ""
unfolding good_name matches_name all_name_chars
good_name_run = refl

fire_event-Calls_example :
    Calls
      (in_line unsorted go_event.name two_names)
      (abort false go_event)
      (fired (fire_event unsorted go_event two_names))
fire_event-Calls_example = fire_event-Calls unsorted go_event two_names refl

abbrev failing_once : Manager ℕ ℕ
failing_once = on same_text "go" (some failing) (pos 0) (new_manager "m")

failing_lem :
    fire_param same_text unsorted none (by_event go_event) failing_once
    ≡ some (some 7, failing_once)
unfolding fire_param fire_event queue_of run on add_listener_item good_name matches_name
    all_name_chars allocate new_basic new_manager insert lookup abort
failing_lem = refl

abbrev calls : List (Call ℕ ℕ)
calls =
    on_call "go" (some (noting 1)) (pos 0)
    ∷ subscribe_call (item_of "stop" failing ∷ [])
    ∷ add_event_call go_event
    ∷ fire_call "go" none
    ∷ fire_event_call go_event
    ∷ fire_batch_call (by_name "stop" ∷ by_event go_event ∷ [])
    ∷ remove_call "go" (some (noting 1))
    ∷ []

has_listeners-after_all_example :
    has_listeners "go" (after_all same_text unsorted calls (new_manager "m"))
    ≡ ltb 0 (listeners_count "go" (after_all same_text unsorted calls (new_manager "m")))
has_listeners-after_all_example =
    has_listeners-after_all same_text unsorted (λ cells lq. refl) calls "m" "go"
