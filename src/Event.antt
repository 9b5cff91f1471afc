-- ===== src/Event.antt =====
-- event/manager.go, event/listener.go and event/event.go: listeners by the name of an event. A
-- listener item is a cell of a store, since `AddSubscriber` hands out the address of a variable.
-- A listener does not call the manager. `strings.TrimSpace` and `sort.Sort` are parameters.
pub mod Fire
pub mod Remove
pub mod Order
pub mod Subscribing
pub mod Tidy
pub mod Queues
use Prim.Native.Char.{code}
use gocommon.Base.{
  ℕ, zero, suc, ◌+◌, ◌≡◌, Bool, true, false, not, ◌&&◌, ◌||◌, Option, none, some, List, [], ◌∷◌,
  ◌++◌, String, string_eq, nat_eq, ◌==◌, if◌then◌else◌, ltb, leb, ltb_ℤ, leb_ℤ, ℤ, pos, negsuc,
  pos_part, length, get_elem?, get_or, set, keep, any, map, lookup, insert, remove,
}

module _ (V : Type 0) where
  -- `BasicEvent`. A value is an interface, which may be nil.
  pub record BasicEvent : Type 0 where
    pub name : String
    pub values : List (Option V)
    pub target : String
    pub aborted : Bool

  module _ (E : Type 0) where
    -- `Listener`: the text that `%p` prints for it, and `Handle`, which may write to the event.
    pub record Listener : Type 0 where
      pub pointer : String
      pub handle : BasicEvent → Option E × BasicEvent

    pub record ListenerItem : Type 0 where
      pub key : String
      pub priority : ℤ
      pub listener : Option Listener

    -- `Manager`, with the cells of its listener items. A queue is a list of addresses.
    pub record Manager : Type 0 where
      pub name : String
      pub events : List (String × BasicEvent)
      pub cells : List ListenerItem
      pub listeners : List (String × List ℕ)

    -- A parameter of `FireBatch`.
    pub data Param : Type 0 where
      by_name : String → Param
      by_event : BasicEvent → Param
      invalid : Param

abbrev pub wildcard : String
wildcard = "*"

-- `[a-zA-Z]`
abbrev pub is_letter : ℕ → Bool
is_letter c = (leb b'a' c && leb c b'z') || (leb b'A' c && leb c b'Z')

-- `[\w-.*]`
abbrev pub is_name_char : ℕ → Bool
is_name_char c =
    is_letter c || (leb b'0' c && leb c b'9') || c == b'_' || c == b'-' || c == b'.' || c == b'*'

unfoldable pub all_name_chars : String → Bool
all_name_chars String.[] = true
all_name_chars (String.◌∷◌ c s) = is_name_char (code c) && all_name_chars s

-- `goodNameReg`
unfoldable pub matches_name : String → Bool
unfolding all_name_chars
matches_name String.[] = false
matches_name (String.◌∷◌ c s) = is_letter (code c) && all_name_chars s

-- `goodName`; on an error the name is empty, and no caller looks at the error.
unfoldable pub good_name : (String → String) → String → String
unfolding matches_name
good_name trim name = let t = trim name in if t == "" then "" else if matches_name t then t else ""

module _ {V : Type 0} where
  -- `NewBasic`; nil data become one nil value.
  unfoldable pub new_basic : String → Option (List (Option V)) → BasicEvent V
  new_basic name m = record {
    name = name;
    values = elim m [ none ↦ none ∷ [] | some vs ↦ vs ];
    target = "";
    aborted = false;
  }

  -- `newBasicEvent` of the manager keeps nil data, which are empty.
  unfoldable pub new_basic_event : String → Option (List (Option V)) → BasicEvent V
  new_basic_event name m = record {
    name = name;
    values = elim m [ none ↦ [] | some vs ↦ vs ];
    target = "";
    aborted = false;
  }

  unfoldable pub abort : Bool → BasicEvent V → BasicEvent V
  abort b e = record e { aborted = b }

  unfoldable pub set_values : Option (List (Option V)) → BasicEvent V → BasicEvent V
  set_values m e = elim m [ none ↦ e | some vs ↦ record e { values = vs } ]

  unfoldable pub fill : String → Option (List (Option V)) → BasicEvent V → BasicEvent V
  unfolding set_values
  fill target m e = record (set_values m e) { target = target }

  -- `Get`; the outer `none` is a panic.
  unfoldable pub get : ℤ → BasicEvent V → Option (Option V)
  get (negsuc n) e = none
  get (pos n) e = if ltb (length e.values) (n + 1) then some none else some (get_or e.values n none)

  unfoldable pub add : Option V → BasicEvent V → BasicEvent V
  add v e = record e { values = e.values ++ v ∷ [] }

  -- `Set`; the Boolean says whether it succeeds.
  unfoldable pub set_value : ℤ → Option V → BasicEvent V → Bool × BasicEvent V
  set_value (negsuc n) v e = (not (length e.values == 0), e)
  set_value (pos n) v e =
      if length e.values == 0 || ltb (length e.values) (n + 1)
      then (false, e)
      else (true, record e { values = set e.values n v })

module _ {V E : Type 0} where
  unfoldable pub new_manager : String → Manager V E
  new_manager name = record { name = name; events = []; cells = []; listeners = [] }

  -- The address of a new cell.
  unfoldable pub allocate : ListenerItem V E → Manager V E → ℕ × Manager V E
  allocate item em = (length em.cells, record em { cells = em.cells ++ item ∷ [] })

  -- A queue of the map, empty where there is none.
  unfoldable pub queue_of : String → Manager V E → List ℕ
  unfolding lookup
  queue_of name em = elim (lookup name em.listeners) [ none ↦ [] | some lq ↦ lq ]

  -- `addListenerItem`, of the cell at an address.
  unfoldable pub add_listener_item :
      (String → String) → String → ℕ → ListenerItem V E → Manager V E → Manager V E
  unfolding good_name insert queue_of
  add_listener_item trim name address item em =
      let name' = if name == wildcard then name else good_name trim name in
      elim item.listener [
        | none ↦ em
        | some _ ↦ if name' == "" then em else record em {
          listeners = insert name' (queue_of name' em ++ address ∷ []) em.listeners;
        }
      ]

  -- `On`. A priority that is not positive is `Normal`, which is 0.
  unfoldable pub on :
      (String → String) → String → Option (Listener V E) → ℤ → Manager V E → Manager V E
  unfolding allocate add_listener_item
  on trim name listener priority em =
      let item : ListenerItem V E = record {
        key = name;
        priority = if ltb_ℤ (pos 0) priority then priority else pos 0;
        listener = listener;
      } in
      let (a, em') = allocate item em in add_listener_item trim name a item em'

  -- The loop of `AddSubscriber`: each item is written to the loop's one variable, at `a`.
  unfoldable pub subscribe_loop :
      (String → String) → ℕ → List (ListenerItem V E) → Manager V E → Manager V E
  unfolding add_listener_item
  subscribe_loop trim a [] em = em
  subscribe_loop trim a (item ∷ items) em =
      subscribe_loop trim a items
        (add_listener_item trim item.key a item (record em { cells = set em.cells a item }))

  unfoldable pub add_subscriber :
      (String → String) → List (ListenerItem V E) → Manager V E → Manager V E
  unfolding allocate subscribe_loop
  add_subscriber trim [] em = em
  add_subscriber trim (item ∷ items) em =
      let (a, em') = allocate item em in subscribe_loop trim a (item ∷ items) em'

  -- The items at the addresses of a queue.
  unfoldable pub items_of : List (ListenerItem V E) → List ℕ → List (ListenerItem V E)
  items_of cells [] = []
  items_of cells (a ∷ lq) = elim (get_elem? cells a) [
    | none ↦ items_of cells lq
    | some item ↦ item ∷ items_of cells lq
  ]

  -- The loops of `FireEvent` over a queue: whether one of them returns or breaks, the error, and the
  -- event. `none` is the panic of a call on a nil listener.
  unfoldable pub run :
      List (ListenerItem V E) → BasicEvent V → Option (Bool × Option E × BasicEvent V)
  run [] e = some (false, none, e)
  run (item ∷ items) e = elim item.listener [
    | none ↦ none
    | some l ↦
        let (err, e') = l.handle e in
        elim err [
          | some x ↦ some (true, some x, e')
          | none ↦ let rest = run items e' in if e'.aborted then some (true, none, e') else rest
        ]
  ]
