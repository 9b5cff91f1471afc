-- ===== src/Wrapper/Ended.antt =====
-- What Run of service-wrapper/service.go has done when it ends, in every interleaving with its loop.
use gocommon.Base.{
  ℕ, ◌≡◌, refl, ap, Bool, true, false, Option, none, some, List, [], ◌∷◌, inl, inr, ◌⊎◌, ◌+◌,
}
use gocommon.Registry.{Service}
use gocommon.Wrapper.{
  Options, Call, registered, deregistered, Phase, idle, waiting, closing, returned, State, register,
  deregister, start, stop, begun, begin, finished, finish, tick, is_closed, Step, run, wake, end,
  ticked, leave, Reach, made, later, run_error,
}

-- The calls that take the service off.
abbrev pub offs : {E : Type 0} → List (Call E) → ℕ
offs [] = 0
offs (registered _ ∷ calls) = offs calls
offs (deregistered _ ∷ calls) = 1 + offs calls

-- The first call of the registry.
abbrev pub first_call : {E : Type 0} → List (Call E) → Option (Call E)
first_call [] = none
first_call (c ∷ []) = some c
first_call (c ∷ d ∷ calls) = first_call (d ∷ calls)

-- What holds of `running`, of the loop and of the calls, by where Run stands.
abbrev pub Standing : {E : Type 0} → Phase E → Bool → Bool → List (Call E) → Type 0
Standing idle running looping calls = (running ≡ false) × (looping ≡ false) × (calls ≡ [])
Standing waiting running looping calls =
    (running ≡ true) × (offs calls ≡ 0) × (first_call calls ≡ some (registered none))
Standing closing running looping calls =
    (running ≡ true) × (offs calls ≡ 0) × (first_call calls ≡ some (registered none))
Standing (returned none) running looping calls =
    (running ≡ false) × (offs calls ≡ 1) × (first_call calls ≡ some (registered none))
Standing {E} (returned (some e)) running looping calls =
    (running ≡ true)
    × (((looping ≡ false) × ((f : E) × (calls ≡ registered (some f) ∷ [])))
        ⊎ ((offs calls ≡ 1) × (first_call calls ≡ some (registered none))))

module _ {E : Type 0} where
  first_call-later :
      (c d : Call E) (calls : List (Call E))
      → first_call calls ≡ some d
      → first_call (c ∷ calls) ≡ some d
  first_call-later c d [] h = absurd (cc h)
  first_call-later c d (x ∷ calls) h = h

  tick-Standing :
      (p : Phase E) (running : Bool) (calls : List (Call E)) (answer : Option E)
      → Standing p running true calls
      → Standing p running true (registered answer ∷ calls)
  tick-Standing idle r calls a h = absurd (cc (h.1))
  tick-Standing waiting r calls a h = (h.0, h.1, first_call-later (registered a) _ calls h.2)
  tick-Standing closing r calls a h = (h.0, h.1, first_call-later (registered a) _ calls h.2)
  tick-Standing (returned none) r calls a h =
      (h.0, h.1, first_call-later (registered a) _ calls h.2)
  tick-Standing (returned (some e)) r calls a (busy, inl g) = absurd (cc (g.0))
  tick-Standing (returned (some e)) r calls a (busy, inr g) =
      (busy, inr (g.0, first_call-later (registered a) _ calls g.1))

  leave-Standing :
      (p : Phase E) (running looping : Bool) (calls : List (Call E))
      → is_closed p ≡ true
      → Standing p running looping calls
      → Standing p running false calls
  leave-Standing idle r l calls c h = absurd (cc c)
  leave-Standing waiting r l calls c h = absurd (cc c)
  leave-Standing closing r l calls c h = h
  leave-Standing (returned none) r l calls c h = h
  leave-Standing (returned (some e)) r l calls c (busy, inl g) = (busy, inl (refl, g.1))
  leave-Standing (returned (some e)) r l calls c (busy, inr g) = (busy, inr g)

  abbrev StandingOf : State E → Type 0
  StandingOf s = Standing s.phase s.running s.looping s.calls

  module _ (opts : Options) (v : Service) (has : opts.srv ≡ some v)
      (there : opts.registry ≡ true) where
    register-made :
        (answer : Option E) (calls : List (Call E))
        → register opts answer calls ≡ (run_error answer, registered answer ∷ calls)
    unfolding register
    register-made answer calls = rw (has, there) refl

    deregister-made :
        (answer : Option E) (calls : List (Call E))
        → deregister opts answer calls ≡ (run_error answer, deregistered answer ∷ calls)
    unfolding deregister
    deregister-made answer calls = rw (has, there) refl

    begin-Standing :
        (answer : Option E) (s : State E)
        → Standing idle s.running s.looping s.calls
        → StandingOf (begin opts answer s)
    unfolding begin begun start
    begin-Standing none s h = rw (register-made none s.calls, there, h.0, h.2) (refl, refl, refl)
    begin-Standing (some e) s h =
        rw (register-made (some e) s.calls, there, h.0, h.2) (refl, inl (h.1, (e, refl)))

    finish-Standing :
        (answer : Option E) (s : State E)
        → Standing closing s.running s.looping s.calls
        → StandingOf (finish opts answer s)
    unfolding finish finished stop
    finish-Standing none s h =
        rw (deregister-made none s.calls, there, h.0)
          (refl, ap (λ n. 1 + n) h.1, first_call-later _ _ s.calls h.2)
    finish-Standing (some e) s h =
        rw (deregister-made (some e) s.calls, there)
          (h.0, inr (ap (λ n. 1 + n) h.1, first_call-later _ _ s.calls h.2))

    Step-Standing : {s t : State E} → Step opts s t → StandingOf s → StandingOf t
    unfolding tick
    Step-Standing {s} (run a e) h = begin-Standing a s (rw e at h)
    Step-Standing {s} (wake e) h = rw e at h
    Step-Standing {s} (end a e) h = finish-Standing a s (rw e at h)
    Step-Standing {s} (ticked a e) h =
        let k = tick-Standing s.phase s.running s.calls a (rw e at h) in
        rw (register-made a s.calls, e) k
    Step-Standing {s} (leave e c) h = leave-Standing s.phase s.running s.looping s.calls c h

    -- Of a service with a registry, wherever Run stands, and however its loop and its end interleave:
    -- before Run nothing has been called; after that the first call of the registry has been a
    -- registration without an error, unless it is the only call and Run has ended with an error.
    -- While Run waits, the service has not been taken off; when Run has ended otherwise, it has been
    -- taken off exactly once. The service counts as stopped where Run has ended without an error,
    -- and as running where it has ended with one.
    pub Reach-Standing : {s : State E} → Reach opts s → Standing s.phase s.running s.looping s.calls
    Reach-Standing made = (refl, refl, refl)
    Reach-Standing (later r step) = Step-Standing step (Reach-Standing r)
