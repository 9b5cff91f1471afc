-- ===== src/Tests/Machine.antt =====
-- Runs of the state machine.
use gocommon.Base.{ℕ, ◌≡◌, ◌⊎◌, refl, none, List, [], ◌∷◌, true, false, ℤ, pos, negsuc, string_eq}
use gocommon.Fsm.{EventDesc, State, Event, Callback, CheckCall, Fsm, new_fsm, get_dest_state, fire}
use gocommon.Fsm.Firing.{Outcome, fire-Outcome}
use gocommon.Fsm.Trace.{is_destination, fire_all, new_fsm-known}

-- A door: 1 is closed, 2 is open.
abbrev door : List EventDesc
door =
    record { name = "open"; src = pos 1 ∷ []; dst = pos 2 }
    ∷ record { name = "close"; src = pos 2 ∷ []; dst = pos 1 }
    ∷ []

abbrev closed : State
closed = record { current = pos 1; status_any = negsuc 0 }

abbrev note : Callback ℕ ℕ
note e st = (record e { seq = 7 }, st)

abbrev accept : CheckCall ℕ ℕ
accept e st = (true, e, st)

abbrev refuse : CheckCall ℕ ℕ
refuse e st = (false, e, st)

abbrev callbacks : List (ℤ × Callback ℕ ℕ)
callbacks = (pos 1, note) ∷ (pos 2, note) ∷ []

abbrev checks : List (ℤ × CheckCall ℕ ℕ)
checks = (pos 2, refuse) ∷ (pos 0, accept) ∷ []

abbrev machine : Fsm ℕ ℕ
machine = (new_fsm (pos 1) door callbacks checks).0

abbrev opening : Event ℕ ℕ
opening = record { event = "open"; src = pos 1; dst = pos 2; err = none; seq = 3; args = [] }

open_run : (fire machine "open" 3 [] closed).1 ≡ record closed { current = pos 2 }
unfolding fire new_fsm
open_run = refl

fire-Outcome_example :
    Outcome machine "open" 3 [] closed
      (get_dest_state "open" closed machine.transitions)
      (fire machine "open" 3 [] closed)
unfolding new_fsm
fire-Outcome_example =
    fire-Outcome machine "open" 3 [] closed ((λ e st. refl), ((λ e st. refl), _))
      ((λ e st. refl), ((λ e st. refl), _))

new_fsm-known_example :
    ((fire_all machine (("open", 1, []) ∷ ("close", 2, []) ∷ []) closed).current ≡ pos 1)
    ⊎ (is_destination
          (fire_all machine (("open", 1, []) ∷ ("close", 2, []) ∷ []) closed).current
          door
        ≡ true)
unfolding new_fsm
new_fsm-known_example =
    new_fsm-known door (pos 1) callbacks checks (("open", 1, []) ∷ ("close", 2, []) ∷ [])
      ((λ e st. refl), ((λ e st. refl), _)) ((λ e st. refl), ((λ e st. refl), _))
