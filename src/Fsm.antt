-- ===== src/Fsm.antt =====
-- util/fsm: a state machine from a table of events, with a check before a transition and a
-- callback after it. The tables do not change after `NewFSM`, so they are kept apart from the
-- state, which the callbacks may change through the machine that the event refers to.
-- A callback that fires another event would wait for `eventMu` for ever; none does here.
pub mod Table
pub mod Firing
pub mod Trace
pub mod Order
use gocommon.Base.{
  ℕ, Bool, true, false, not, ◌&&◌, ◌||◌, Option, none, some, List, [], ◌∷◌, ◌++◌, String, string_eq,
  int_eq, ◌==◌, if◌then◌else◌, ℤ, pos, negsuc, ltb_ℤ, leb_ℤ,
}

-- `eKey`
pub record EKey : Type 0 where
  pub event : String
  pub src : ℤ
  pub dst : ℤ

-- `EventDesc`
pub record EventDesc : Type 0 where
  pub name : String
  pub src : List ℤ
  pub dst : ℤ

-- The fields of `FSM` that change after `NewFSM`.
pub record State : Type 0 where
  pub current : ℤ
  pub status_any : ℤ

-- The errors that `Event` makes itself (errors.go), and those that a callback sets.
pub data FsmError (E : Type 0) : Type 0 where
  invalid_event : String → ℤ → FsmError E
  unknown_event : String → FsmError E
  callback_error : E → FsmError E

module _ (A E : Type 0) where
  -- `Event`, without its reference to the machine.
  pub record Event : Type 0 where
    pub event : String
    pub src : ℤ
    pub dst : ℤ
    pub err : Option (FsmError E)
    pub seq : ℕ
    pub args : List A

  -- `Callback` and `CheckCall`, which may write to the event and to the state.
  abbrev pub Callback : Type 0
  Callback = Event → State → Event × State

  abbrev pub CheckCall : Type 0
  CheckCall = Event → State → Bool × Event × State

  -- The fields of `FSM` that `NewFSM` fills.
  pub record Fsm : Type 0 where
    pub transitions : List EKey
    pub callbacks : List (ℤ × Callback)
    pub checks : List (ℤ × CheckCall)

-- `for _, src := range e.Src` of `NewFSM`
unfoldable pub keys_of : EventDesc → List ℤ → List EKey
keys_of e [] = []
keys_of e (src ∷ srcs) = record { event = e.name; src = src; dst = e.dst } ∷ keys_of e srcs

unfoldable pub transitions_of : List EventDesc → List EKey
unfolding keys_of
transitions_of [] = []
transitions_of (e ∷ es) = keys_of e e.src ++ transitions_of es

-- The entries of a map that the loops of `NewFSM` take over, in the order of the loop. Go leaves
-- that order open.
unfoldable pub entries {ℓ} : {F : Type ℓ} → (ℤ → Bool) → List (ℤ × F) → List (ℤ × F)
entries take_over [] = []
entries take_over ((dst, fn) ∷ m) =
    if take_over dst then (dst, fn) ∷ entries take_over m else entries take_over m

module _ {A E : Type 0} where
  -- `NewFSM`. The two maps are given in the orders in which Go ranges over them.
  unfoldable pub new_fsm :
      ℤ → List EventDesc → List (ℤ × Callback A E) → List (ℤ × CheckCall A E) → Fsm A E × State
  unfolding transitions_of entries
  new_fsm initial events callbacks checks = (
    record {
      transitions = transitions_of events;
      callbacks = entries (λ dst. ltb_ℤ (pos 0) dst) callbacks;
      checks = entries (λ dst. leb_ℤ (pos 0) dst) checks;
    },
    record { current = initial; status_any = negsuc 0 },
  )

-- `Reset`, `Is`, `SetAnyState` and `SetState`
unfoldable pub reset : State → State
reset st = record st { current = pos 0 }

unfoldable pub is : ℤ → State → Bool
is state st = state == st.current

unfoldable pub set_any_state : ℤ → State → State
set_any_state state st = record st { status_any = state }

unfoldable pub set_state : ℤ → State → State
set_state state st = record st { current = state }

-- The test of the loops over the transitions.
abbrev pub leaves : State → EKey → Bool
leaves st ts = ts.src == st.current || ts.src == st.status_any

-- The loop of `GetDestState`; `(0, false)` is `none`.
unfoldable pub get_dest_state : String → State → List EKey → Option ℤ
get_dest_state event st [] = none
get_dest_state event st (ts ∷ rest) =
    if ts.event == event && leaves st ts then some ts.dst else get_dest_state event st rest

-- The loop of `Can`.
unfoldable pub can : String → State → List EKey → Bool
can event st [] = false
can event st (ts ∷ rest) = if ts.event == event && leaves st ts then true else can event st rest

unfoldable pub cannot : String → State → List EKey → Bool
unfolding can
cannot event st ts = not (can event st ts)

-- The loop of `AvailableTransitions`.
unfoldable pub available_transitions : State → List EKey → List String
available_transitions st [] = []
available_transitions st (key ∷ rest) =
    if leaves st key
    then key.event ∷ available_transitions st rest
    else available_transitions st rest

-- The loop of `Event` and `EventNoArgs` over the transitions, where no transition can be taken.
unfoldable pub refusal : {E : Type 0} → String → State → List EKey → FsmError E
refusal event st [] = unknown_event event
refusal event st (eke ∷ rest) =
    if eke.event == event then invalid_event event st.current else refusal event st rest

module _ {A E : Type 0} where
  -- The loop of `enterStateCallbacks`, with the error that it returns.
  unfoldable pub enter_state_callbacks :
      List (ℤ × Callback A E) → Event A E → State → Option (FsmError E) × Event A E × State
  enter_state_callbacks [] e st = (none, e, st)
  enter_state_callbacks ((status, cb) ∷ rest) e st =
      if status == st.current
      then (let (e', st') = cb e st in (e'.err, e', st'))
      else enter_state_callbacks rest e st

  -- The loop of `beforeEventCallbacks`.
  unfoldable pub before_event_callbacks :
      List (ℤ × CheckCall A E) → Event A E → State → Bool × Event A E × State
  before_event_callbacks [] e st = (true, e, st)
  before_event_callbacks ((status, cc) ∷ rest) e st =
      if status == st.current
      then cc e st
      else if status == pos 0
      then cc e st
      else before_event_callbacks rest e st

  -- What `Event` and `EventNoArgs` do with an event whose destination is known. `named` reads the
  -- name that the error of a failed check shows, from the event that the check leaves.
  unfoldable pub perform :
      Fsm A E → ℤ → (Event A E → String) → Event A E → State → Option (FsmError E) × State
  unfolding enter_state_callbacks before_event_callbacks set_state
  perform f dst named e st =
      let (allowed, e', st') = before_event_callbacks f.checks e st in
      if not allowed
      then (some (invalid_event (named e') st'.current), st')
      else let (err, e'', st'') = enter_state_callbacks f.callbacks e' (set_state dst st') in
        elim err [ some x ↦ (some x, st'') | none ↦ (e''.err, st'') ]

  unfoldable pub event_no_args : Fsm A E → Event A E → State → Option (FsmError E) × State
  unfolding get_dest_state refusal perform
  event_no_args f e st = elim (get_dest_state e.event st f.transitions) [
    | none ↦ (some (refusal e.event st f.transitions), st)
    | some dst ↦ perform f dst (λ e'. e'.event) e st
  ]

  unfoldable pub fire : Fsm A E → String → ℕ → List A → State → Option (FsmError E) × State
  unfolding get_dest_state refusal perform
  fire f event seq args st = elim (get_dest_state event st f.transitions) [
    | none ↦ (some (refusal event st f.transitions), st)
    | some dst ↦
        perform f dst (λ e'. event)
          (record {
            event = event;
            src = st.current;
            dst = dst;
            err = none;
            seq = seq;
            args = args;
          })
          st
  ]
