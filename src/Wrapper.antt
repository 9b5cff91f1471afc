-- ===== src/Wrapper.antt =====
-- service-wrapper/service.go: the life of a service, from Run to its end, with the goroutine that
-- registers it again. What the registry answers is an argument of each call.
pub mod Ended
pub mod Metadata
use gocommon.Base.{
  ℕ, ◌≡◌, Bool, true, false, Option, none, some, List, [], ◌∷◌, if◌then◌else◌, ltb_ℤ, ℤ, pos,
}
use gocommon.Registry.{Service}

-- What Run reads of the options; `registry` tells whether there is one.
pub record Options : Type 0 where
  pub srv : Option Service
  pub registry : Bool
  pub register_interval : ℤ

-- A call of the registry, with its answer.
pub data Call (E : Type 0) : Type 0 where
  registered : (answer : Option E) → Call E
  deregistered : (answer : Option E) → Call E

pub data RunError (E : Type 0) : Type 0 where
  no_registry : RunError E
  registry_error : (error : E) → RunError E

-- Where Run stands: before it; at its select; after that, with the channel `ex` closed if there is
-- a registry; ended with an error or without.
pub data Phase (E : Type 0) : Type 0 where
  idle : Phase E
  waiting : Phase E
  closing : Phase E
  returned : (error : Option (RunError E)) → Phase E

-- `calls` is the calls of the registry, the latest first; `looping` tells whether the goroutine of
-- `run` is at its select.
pub record State (E : Type 0) : Type 0 where
  pub running : Bool
  pub phase : Phase E
  pub looping : Bool
  pub calls : List (Call E)

abbrev pub run_error : {E : Type 0} → Option E → Option (RunError E)
run_error none = none
run_error (some e) = some (registry_error e)

module _ {E : Type 0} (opts : Options) where
  -- `register`, and `deregister`.
  unfoldable pub register : Option E → List (Call E) → Option (RunError E) × List (Call E)
  register answer calls = elim opts.srv [
    | none ↦ (none, calls)
    | some s ↦
        if opts.registry
        then (run_error answer, registered answer ∷ calls)
        else (some no_registry, calls)
  ]

  unfoldable pub deregister : Option E → List (Call E) → Option (RunError E) × List (Call E)
  deregister answer calls = elim opts.srv [
    | none ↦ (none, calls)
    | some s ↦
        if opts.registry
        then (run_error answer, deregistered answer ∷ calls)
        else (some no_registry, calls)
  ]

  -- `start`, and `stop`.
  unfoldable pub start : State E → State E
  start s = if s.running then s else record s { running = true }

  unfoldable pub stop : State E → State E
  stop s = if s.running then record s { running = false } else s

  -- Run from its first registration to its select.
  unfoldable pub begun : Option (RunError E) × List (Call E) → State E → State E
  begun (some e, calls) s = record s { phase = returned (some e); calls = calls }
  begun (none, calls) s = record s {
    phase = waiting;
    looping = ltb_ℤ (pos 0) opts.register_interval;
    calls = calls;
  }

  -- Run up to its select.
  unfoldable pub begin : Option E → State E → State E
  unfolding start register begun
  begin answer s =
      if opts.registry
      then begun (register answer s.calls) (start s)
      else record (start s) { phase = waiting }

  -- Run after it has taken the service off.
  unfoldable pub finished : Option (RunError E) × List (Call E) → State E → State E
  unfolding stop
  finished (some e, calls) s = record s { phase = returned (some e); calls = calls }
  finished (none, calls) s = record (stop s) { phase = returned none; calls = calls }

  -- Run from its select to its end.
  unfoldable pub finish : Option E → State E → State E
  unfolding deregister finished stop
  finish answer s =
      if opts.registry
      then finished (deregister answer s.calls) s
      else record (stop s) { phase = returned none }

  -- A tick of `run`; the error is only logged.
  unfoldable pub tick : Option E → State E → State E
  unfolding register
  tick answer s = record s { calls = (register answer s.calls).1 }

-- The channel `ex` is closed after the select of Run, where it has not failed before.
abbrev pub is_closed : {E : Type 0} → Phase E → Bool
is_closed idle = false
is_closed waiting = false
is_closed closing = true
is_closed (returned _) = true

-- A step of Run, or of the goroutine of `run`, whose select may take a tick although `ex` is closed.
pub data Step {E : Type 0} (opts : Options) (s : State E) : State E → Type 0 where
  run : (answer : Option E) → s.phase ≡ idle → Step opts s (begin opts answer s)
  wake : s.phase ≡ waiting → Step opts s (record s { phase = closing })
  end : (answer : Option E) → s.phase ≡ closing → Step opts s (finish opts answer s)
  ticked : (answer : Option E) → s.looping ≡ true → Step opts s (tick opts answer s)
  leave : s.looping ≡ true → is_closed s.phase ≡ true → Step opts s (record s { looping = false })

abbrev pub init : {E : Type 0} → State E
init = record { running = false; phase = idle; looping = false; calls = [] }

pub data Reach {E : Type 0} (opts : Options) : State E → Type 0 where
  made : Reach opts init
  later : {s t : State E} → Reach opts s → Step opts s t → Reach opts t
