-- ===== src/Client/Stream/Released.antt =====
-- When `call` of client/rpc_client.go gives a connection back, and what its error tells.
use gocommon.Base.{
  ◌≡◌, refl, ap, ◌∙◌, ◌⊎◌, inl, inr, Bool, true, false, Option, some, List, [], ◌∷◌, ◌++◌, is_some,
  ℕ,
}
use gocommon.Client.Codec.{Body, Wire}
use gocommon.Client.Stream.{StreamError, Stream}
use gocommon.Client.Stream.Calling.{
  CallError, context_ended, Pc, Main, waiting, ended, closing, marked, shut, returned, Call,
  is_running, finished, Step, turn, answered, done, sets_error, marks, shuts, gives_back, Reach,
  made, later,
}
use gocommon.Client.Stream.Turns.{Quiet, Fits, AtEnd, Kept, Turn-Kept, shut_codec-quiet}

module _ {E : Type 0} where
  -- An answer that the goroutine can no longer spoil: it has ended, or the answer is that of the
  -- context, and some error stays in the stream.
  abbrev pub Settled : Option (CallError E) → Pc E → Option (StreamError E) → Type 0
  Settled answer pc e =
      (Fits answer e × (is_running pc ≡ false))
      ⊎ ((answer ≡ some context_ended) × (is_some e ≡ true))

  Settled-Fits :
      (answer : Option (CallError E)) (pc : Pc E) (e : Option (StreamError E))
      → Settled answer pc e
      → Fits answer e
  Settled-Fits answer pc e (inl h) = h.0
  Settled-Fits answer pc e (inr h) = rw h.0 h.1

  AtEnd-running :
      (pc : Pc E) (answer : Option (CallError E)) (e : Option (StreamError E))
      → pc ≡ finished answer
      → AtEnd pc e
      → Settled answer pc e
  AtEnd-running pc answer e p h = inl (rw p at h, rw p refl)

-- What holds where `call` stands, of its goroutine, of its stream, and of what has been given back, which
-- was `base` before: nothing up to the end of `Close`, and then one connection, with an error that
-- fits the answer.
abbrev pub Standing :
    {E : Type 0}
    → List (Option (StreamError E))
    → Main E
    → Pc E
    → Stream E
    → List (Option (StreamError E))
    → Type 0
Standing base waiting pc s given = AtEnd pc s.err × (s.closed ≡ false) × (given ≡ base)
Standing base ended pc s given = (s.closed ≡ false) × (given ≡ base)
Standing base (closing answer) pc s given =
    Settled answer pc s.err × (s.closed ≡ false) × (given ≡ base)
Standing base (marked answer) pc s given =
    Settled answer pc s.err × (s.closed ≡ true) × (given ≡ base)
Standing base (shut answer) pc s given =
    Settled answer pc s.err × (s.closed ≡ true) × (given ≡ base)
Standing {E} base (returned answer) pc s given =
    (s.closed ≡ true) × ((e : Option (StreamError E)) × Fits answer e × (given ≡ base ++ e ∷ []))

module _ {E V W : Type 0} (wire : Wire E V W) (release : Option (StreamError E) → W → W)
    (crash : W → W) (released : W → List (Option (StreamError E)))
    (q : Quiet wire release crash released) (skipped : List ℕ → Option E) (is_frame : Bool)
    (msg : Body V) (base : List (Option (StreamError E))) where
  abbrev StandingOf : Call E W → Type 0
  StandingOf c = Standing base c.main c.pc c.stream (released c.world)

  Kept-Settled :
      {pc : Pc E} {s : Stream E} {w : W} {pc' : Pc E} {s' : Stream E} {w' : W}
      (answer : Option (CallError E))
      → Kept wire release crash released q skipped is_frame msg pc s w pc' s' w'
      → Settled answer pc s.err
      → Settled answer pc' s'.err
  Kept-Settled answer k (inl h) = let r = k.was_running in absurd (cc (r, h.1))
  Kept-Settled answer k (inr h) = inr (h.0, k.keeps_error h.1)

  Kept-Standing :
      {pc : Pc E} {s : Stream E} {w : W} {pc' : Pc E} {s' : Stream E} {w' : W} (main : Main E)
      → Kept wire release crash released q skipped is_frame msg pc s w pc' s' w'
      → Standing base main pc s (released w)
      → Standing base main pc' s' (released w')
  Kept-Standing waiting k h = (k.at_end, k.same_closed ∙ h.1, k.gives_nothing ∙ h.2)
  Kept-Standing ended k h = (k.same_closed ∙ h.0, k.gives_nothing ∙ h.1)
  Kept-Standing (closing a) k h = (Kept-Settled a k h.0, k.same_closed ∙ h.1, k.gives_nothing ∙ h.2)
  Kept-Standing (marked a) k h = (Kept-Settled a k h.0, k.same_closed ∙ h.1, k.gives_nothing ∙ h.2)
  Kept-Standing (shut a) k h = (Kept-Settled a k h.0, k.same_closed ∙ h.1, k.gives_nothing ∙ h.2)
  Kept-Standing (returned a) k h = (k.same_closed ∙ h.0, (h.1.0, h.1.1, k.gives_nothing ∙ h.1.2))

  Step-Standing :
      {c d : Call E W}
      → Step wire release crash skipped is_frame msg c d
      → StandingOf c
      → StandingOf d
  Step-Standing {c} (turn t) h =
      Kept-Standing c.main (Turn-Kept wire release crash released q skipped is_frame msg t) h
  Step-Standing {c} (answered a e p) h =
      let g = (rw e at h) in (AtEnd-running c.pc a c.stream.err p g.0, g.1, g.2)
  Step-Standing (done e) h = let g = (rw e at h) in (g.1, g.2)
  Step-Standing (sets_error e) h = let g = (rw e at h) in (inr (refl, refl), g.0, g.1)
  Step-Standing (marks a e) h = let g = (rw e at h) in (g.0, refl, g.2)
  Step-Standing {c} (shuts a e) h =
      let g = (rw e at h) in
      (g.0, g.1, shut_codec-quiet wire release crash released q c.stream c.world ∙ g.2)
  Step-Standing {c} (gives_back a e) h =
      let g = (rw e at h) in
      (
        g.1,
        (
          c.stream.err,
          Settled-Fits a c.pc c.stream.err g.0,
          q.release_logs c.stream.err c.world ∙ ap (λ l. l ++ c.stream.err ∷ []) g.2,
        ),
      )

-- A call on an open stream, wherever it and its goroutine stand and however they interleave: before the
-- end of `Close` its connection has not been given back; when `call` has returned, it has been given
-- back exactly once, and its stream is closed. It has been given back without an error where
-- `call` succeeds; with the error of `Send` or `Recv` where `call` answers with that; and with some
-- error where the context has ended, though the goroutine may have replaced the one that
-- `call` has set. After a panic in the goroutine it may be given back with an error or without. Only
-- `release` gives connections back.
pub call-Standing :
    {E V W : Type 0} (wire : Wire E V W) (release : Option (StreamError E) → W → W) (crash : W → W)
    (released : W → List (Option (StreamError E))) (q : Quiet wire release crash released)
    (skipped : List ℕ → Option E) (is_frame : Bool) (msg : Body V) (s : Stream E) (w : W)
    {c : Call E W}
    → s.closed ≡ false
    → Reach wire release crash skipped is_frame msg s w c
    → Standing (released w) c.main c.pc c.stream (released c.world)
call-Standing wire release crash released q skipped is_frame msg s w n made = (tt, n, refl)
call-Standing wire release crash released q skipped is_frame msg s w n (later r step) =
    Step-Standing wire release crash released q skipped is_frame msg (released w) step
      (call-Standing wire release crash released q skipped is_frame msg s w n r)
