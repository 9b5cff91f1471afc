-- ===== src/Fsm/Trace.antt =====
-- The states that a machine of util/fsm goes through.
use gocommon.Base.{
  ◌≡◌, refl, ℕ, Bool, true, some, List, [], ◌∷◌, ◌++◌, String, string_eq, int_eq, ◌==◌, ◌⊎◌, inl,
  inr, ℤ, arith, All, any, if_both, same_refl,
}
use gocommon.Fsm.{
  EKey, EventDesc, State, Callback, CheckCall, Fsm, get_dest_state, fire, set_state, transitions_of,
  keys_of, new_fsm, entries,
}
use gocommon.Fsm.Firing.{KeepsState, CheckKeepsState, fire_moves}

-- A state that some description gives as a destination.
abbrev pub is_destination : ℤ → List EventDesc → Bool
is_destination s es = any (λ (e : EventDesc). e.dst == s) es

keys_of-dst :
    (event : String) (st : State) (e : EventDesc) (srcs : List ℤ) (rest : List EKey) (d : ℤ)
    → get_dest_state event st (keys_of e srcs ++ rest) ≡ some d
    → (e.dst ≡ d) ⊎ (get_dest_state event st rest ≡ some d)
unfolding keys_of get_dest_state
keys_of-dst event st e [] rest d h = inr h
keys_of-dst event st e (src ∷ srcs) rest d h = ground (arith, h, keys_of-dst event st e srcs rest d)

dest-is_destination :
    (event : String) (st : State) (es : List EventDesc) (d : ℤ)
    → get_dest_state event st (transitions_of es) ≡ some d
    → is_destination d es ≡ true
unfolding transitions_of
dest-is_destination event st [] d h = absurd (unfold get_dest_state in cc)
dest-is_destination event st (e ∷ es) d h =
    elim (keys_of-dst event st e e.src (transitions_of es) d h) [
      | inl same ↦ ground (arith, same, same_refl d)
      | inr later ↦ ground (arith, dest-is_destination event st es d later)
    ]

module _ {A E : Type 0} (f : Fsm A E) where
  -- A sequence of events, each with its number and its arguments.
  unfoldable pub fire_all : List (String × ℕ × List A) → State → State
  fire_all [] st = st
  fire_all ((event, seq, args) ∷ es) st = fire_all es (fire f event seq args st).1

All-entries {ℓ} :
    {F : Type ℓ} (P : ℤ × F → Type 0) (take_over : ℤ → Bool) (m : List (ℤ × F))
    → All P m
    → All P (entries take_over m)
unfolding entries
All-entries P take_over [] h = tt
All-entries P take_over ((dst, fn) ∷ m) h =
    if_both (All P) (take_over dst) _ _ (h.0, All-entries P take_over m h.1)
      (All-entries P take_over m h.1)

module _ {A E : Type 0} (events : List EventDesc) where
  fire_all-known :
      (f : Fsm A E) (initial : ℤ) (es : List (String × ℕ × List A)) (st : State)
      → f.transitions ≡ transitions_of events
      → All KeepsState f.callbacks
      → All CheckKeepsState f.checks
      → (st.current ≡ initial) ⊎ (is_destination st.current events ≡ true)
      → ((fire_all f es st).current ≡ initial)
        ⊎ (is_destination (fire_all f es st).current events ≡ true)
  unfolding fire_all
  fire_all-known f initial [] st t ks cs h = h
  fire_all-known f initial ((event, seq, args) ∷ es) st t ks cs h =
      fire_all-known f initial es (fire f event seq args st).1 t ks cs
        (elim (fire_moves f event seq args st ks cs) [
          | inl same ↦ rw same h
          | inr (d, n, moved) ↦
              inr (rw moved (unfold set_state in dest-is_destination event st events d (rw t at n)))
        ])

  -- From a new machine whose callbacks and checks leave its state alone, no sequence of events leads
  -- to a state other than the initial one and the destinations of the descriptions.
  pub new_fsm-known :
      (initial : ℤ) (callbacks : List (ℤ × Callback A E)) (checks : List (ℤ × CheckCall A E))
      (es : List (String × ℕ × List A))
      → All KeepsState callbacks
      → All CheckKeepsState checks
      → let (f, st) = new_fsm initial events callbacks checks in
        ((fire_all f es st).current ≡ initial)
        ⊎ (is_destination (fire_all f es st).current events ≡ true)
  unfolding new_fsm
  new_fsm-known initial callbacks checks es ks cs =
      fire_all-known (new_fsm initial events callbacks checks).0 initial es
        (new_fsm initial events callbacks checks).1 refl (All-entries KeepsState _ callbacks ks)
        (All-entries CheckKeepsState _ checks cs) (inl refl)
