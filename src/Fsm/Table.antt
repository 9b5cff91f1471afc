-- ===== src/Fsm/Table.antt =====
-- The questions of util/fsm about its table: `Can`, `GetDestState`, `AvailableTransitions`, and the
-- error of `Event`.
use gocommon.Base.{
  ◌≡◌, refl, ◌↔◌, Bool, false, ◌&&◌, ◌||◌, Option, none, some, List, [], ◌∷◌, ◌++◌, String,
  string_eq, int_eq, ◌==◌, if◌then◌else◌, ℤ, arith, any,
}
use gocommon.Fsm.{
  EKey, EventDesc, State, get_dest_state, can, available_transitions, refusal, keys_of,
  transitions_of, unknown_event, invalid_event,
}

-- Whether a list names an event.
abbrev pub names : String → List String → Bool
names event xs = any (λ n. n == event) xs

-- `Can`, `GetDestState` and `AvailableTransitions` agree: an event can occur exactly when it has a
-- destination, and exactly when it is among the available ones.
pub can-agrees :
    (event : String) (st : State) (ts : List EKey)
    → ((can event st ts ≡ false) ↔ (get_dest_state event st ts ≡ none))
      × (names event (available_transitions st ts) ≡ can event st ts)
unfolding can get_dest_state available_transitions
can-agrees event st [] = ((λ _. refl, λ _. refl), refl)
can-agrees event st (t ∷ ts) = ground (arith, can-agrees event st ts)

-- What a list of descriptions says of an event in a state: the destination of the first one of
-- that name which lists the current state, or the state that stands for any, as a source.
abbrev pub described : String → State → List EventDesc → Option ℤ
described event st [] = none
described event st (e ∷ es) =
    if e.name == event && any (λ src. src == st.current || src == st.status_any) e.src
    then some e.dst
    else described event st es

get_dest_state-keys :
    (event : String) (st : State) (e : EventDesc) (srcs : List ℤ) (rest : List EKey)
    → get_dest_state event st (keys_of e srcs ++ rest) ≡ (
        if e.name == event && any (λ src. src == st.current || src == st.status_any) srcs
        then some e.dst
        else get_dest_state event st rest)
unfolding get_dest_state keys_of
get_dest_state-keys event st e [] rest = ground arith
get_dest_state-keys event st e (src ∷ srcs) rest =
    ground (arith, get_dest_state-keys event st e srcs rest)

-- The table that `NewFSM` makes answers as the descriptions do.
pub get_dest_state-transitions_of :
    (event : String) (st : State) (es : List EventDesc)
    → get_dest_state event st (transitions_of es) ≡ described event st es
unfolding transitions_of get_dest_state
get_dest_state-transitions_of event st [] = refl
get_dest_state-transitions_of event st (e ∷ es) =
    unfold transitions_of in
    rw (
      get_dest_state-keys event st e e.src (transitions_of es),
      get_dest_state-transitions_of event st es,
    )

-- The error for an event that cannot occur: it is unknown exactly when no transition has its name.
pub refusal_lem :
    {E : Type 0} (event : String) (st : State) (ts : List EKey)
    → refusal {E = E} event st ts ≡ (
        if any (λ (t : EKey). t.event == event) ts
        then invalid_event event st.current
        else unknown_event event)
unfolding refusal
refusal_lem event st [] = refl
refusal_lem {E} event st (t ∷ ts) = ground (arith, refusal_lem {E = E} event st ts)
