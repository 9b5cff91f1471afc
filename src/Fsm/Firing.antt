-- ===== src/Fsm/Firing.antt =====
-- What `Event` of util/fsm does on each of its branches.
use gocommon.Base.{
  ◌≡◌, refl, ℕ, ◌∙◌, ap, Bool, true, false, Option, none, some, List, [], ◌∷◌, String, string_eq,
  int_eq, ◌==◌, ◌⊎◌, inl, inr, if◌then◌else◌, if_both, ℤ, pos, arith, All, any, Bool-cases,
  Option-cases,
}
use gocommon.Fsm.Table.{refusal_lem}
use gocommon.Fsm.{
  EKey, State, Event, Callback, CheckCall, Fsm, FsmError, invalid_event, unknown_event,
  get_dest_state, refusal, enter_state_callbacks, before_event_callbacks, perform, fire, set_state,
}

module _ {A E : Type 0} where
  -- A callback, and a check, that leave the state of the machine alone.
  abbrev pub KeepsState : ℤ × Callback A E → Type 0
  KeepsState (status, cb) = (e : Event A E) (st : State) → (cb e st).1 ≡ st

  abbrev pub CheckKeepsState : ℤ × CheckCall A E → Type 0
  CheckKeepsState (status, check) = (e : Event A E) (st : State) → (check e st).2 ≡ st

  enter-keeps :
      (cbs : List (ℤ × Callback A E)) (e : Event A E) (st : State)
      → All KeepsState cbs
      → (enter_state_callbacks cbs e st).2 ≡ st
  unfolding enter_state_callbacks
  enter-keeps [] e st k = refl
  enter-keeps ((status, cb) ∷ cbs) e st k =
      if_both {A = Option (FsmError E) × Event A E × State} (λ r. r.2 ≡ st) (status == st.current) _
        _ (k.0 e st) (enter-keeps cbs e st k.1)

  before-keeps :
      (ccs : List (ℤ × CheckCall A E)) (e : Event A E) (st : State)
      → All CheckKeepsState ccs
      → (before_event_callbacks ccs e st).2 ≡ st
  unfolding before_event_callbacks
  before-keeps [] e st k = refl
  before-keeps ((status, check) ∷ ccs) e st k =
      if_both {A = Bool × Event A E × State} (λ r. r.2 ≡ st) (status == st.current) _ _ (k.0 e st)
        (if_both {A = Bool × Event A E × State} (λ r. r.2 ≡ st) (status == pos 0) _ _ (k.0 e st)
          (before-keeps ccs e st k.1))

  perform-refused :
      (f : Fsm A E) (dst : ℤ) (named : Event A E → String) (e : Event A E) (st : State)
      → (before_event_callbacks f.checks e st).0 ≡ false
      → perform f dst named e st ≡ (
        some (
            invalid_event
              (named (before_event_callbacks f.checks e st).1)
              (before_event_callbacks f.checks e st).2.current),
        (before_event_callbacks f.checks e st).2,
      )
  unfolding perform
  perform-refused f dst named e st h = rw (h, perform)

  perform-done :
      (f : Fsm A E) (dst : ℤ) (named : Event A E → String) (e : Event A E) (st : State)
      → (before_event_callbacks f.checks e st).0 ≡ true
      → (perform f dst named e st).1
        ≡ (enter_state_callbacks f.callbacks
            (before_event_callbacks f.checks e st).1
            (set_state dst (before_event_callbacks f.checks e st).2)).2
  unfolding perform
  perform-done f dst named e st h = ground (arith, h)

  -- The event that `Event` makes for the checks and the callbacks.
  abbrev pub made : String → ℕ → List A → State → ℤ → Event A E
  made event seq args st dst = record {
    event = event;
    src = st.current;
    dst = dst;
    err = none;
    seq = seq;
    args = args;
  }

  -- What becomes of an event, from the destination that the table gives.
  abbrev pub Outcome :
      Fsm A E → String → ℕ → List A → State → Option ℤ → Option (FsmError E) × State → Type 0
  Outcome f event seq args st none r = r ≡ (
    some (
        if any (λ (t : EKey). t.event == event) f.transitions
        then invalid_event event st.current
        else unknown_event event),
    st,
  )
  Outcome f event seq args st (some dst) r =
      if (before_event_callbacks f.checks (made event seq args st dst) st).0
      then (r.1 ≡ set_state dst st)
      else (r ≡ (some (invalid_event event st.current), st))

  fire-none :
      (f : Fsm A E) (event : String) (seq : ℕ) (args : List A) (st : State)
      → get_dest_state event st f.transitions ≡ none
      → fire f event seq args st ≡ (some (refusal event st f.transitions), st)
  unfolding fire
  fire-none f event seq args st h = rw (h, fire)

  fire-some :
      (f : Fsm A E) (event : String) (seq : ℕ) (args : List A) (st : State) (dst : ℤ)
      → get_dest_state event st f.transitions ≡ some dst
      → fire f event seq args st ≡ perform f dst (λ e. event) (made event seq args st dst) st
  unfolding fire
  fire-some f event seq args st dst h = rw (h, fire)

  perform-Outcome :
      (f : Fsm A E) (dst : ℤ) (event : String) (seq : ℕ) (args : List A) (st : State)
      → All KeepsState f.callbacks
      → All CheckKeepsState f.checks
      → Outcome f event seq args st
          (some dst)
          (perform f dst (λ e. event) (made event seq args st dst) st)
  perform-Outcome f dst event seq args st ks cs =
      let e = made event seq args st dst in
      let b = before_event_callbacks f.checks e st in
      let kept : b.2 ≡ st = before-keeps f.checks e st cs in
      elim (Bool-cases b.0) [
        | inl t ↦ rw t (
            perform-done f dst (λ e'. event) e st t
            ∙ enter-keeps f.callbacks b.1 (set_state dst b.2) ks
            ∙ ap (set_state dst) kept)
        | inr t ↦ rw t (
            perform-refused f dst (λ e'. event) e st t
            ∙ ap (λ (s : State). (some (invalid_event event s.current), s)) kept)
      ]

  -- Where the callbacks and the checks leave the state alone: an event that the table does not allow
  -- fails, as invalid if some transition has its name and as unknown if none has, and one that a check
  -- refuses fails as invalid, both with the state unchanged; any other moves the machine to the
  -- destination that the table gives.
  pub fire-Outcome :
      (f : Fsm A E) (event : String) (seq : ℕ) (args : List A) (st : State)
      → All KeepsState f.callbacks
      → All CheckKeepsState f.checks
      → Outcome f event seq args st
          (get_dest_state event st f.transitions)
          (fire f event seq args st)
  fire-Outcome f event seq args st ks cs =
      elim (Option-cases (get_dest_state event st f.transitions)) [
        | inl n ↦ rw n (
            fire-none f event seq args st n
            ∙ ap (λ x. (some x, st)) (refusal_lem event st f.transitions))
        | inr (dst, n) ↦
            rw (n, fire-some f event seq args st dst n)
              (perform-Outcome f dst event seq args st ks cs)
      ]

  -- So an event leaves the state as it was, or moves it to the destination in the table.
  pub fire_moves :
      (f : Fsm A E) (event : String) (seq : ℕ) (args : List A) (st : State)
      → All KeepsState f.callbacks
      → All CheckKeepsState f.checks
      → ((fire f event seq args st).1 ≡ st)
        ⊎ ((dst : ℤ) × (get_dest_state event st f.transitions ≡ some dst)
            × ((fire f event seq args st).1 ≡ set_state dst st))
  fire_moves f event seq args st ks cs =
      elim (Option-cases (get_dest_state event st f.transitions)) [
        | inl n ↦ inl (ap (λ r. r.1) (fire-none f event seq args st n))
        | inr (dst, n) ↦
            let e = made event seq args st dst in
            let b = before_event_callbacks f.checks e st in
            let o = perform-Outcome f dst event seq args st ks cs in
            let run = ap (λ r. r.1) (fire-some f event seq args st dst n) in
            elim (Bool-cases b.0) [
              | inl t ↦ inr (dst, n, run ∙ (rw t at o))
              | inr t ↦ inl (run ∙ ap (λ r. r.1) (rw t at o))
            ]
      ]
