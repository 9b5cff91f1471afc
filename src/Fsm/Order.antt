-- ===== src/Fsm/Order.antt =====
-- Go leaves open in which order `NewFSM` of util/fsm takes its two maps over.
use mathlib.Core.List.{Permᴰ}
use gocommon.Base.{
  ◌≡◌, ◌≢◌, refl, ◌∙◌, true, List, [], ◌∷◌, int_eq, ◌==◌, if◌then◌else◌, ℤ, pos, ltb_ℤ, arith, All,
  ℤ_beq_iff, subst, sym, ap,
}
use gocommon.Fsm.{
  EventDesc, State, Event, Callback, CheckCall, before_event_callbacks, enter_state_callbacks,
  new_fsm,
}

module _ {A E : Type 0} where
  -- With a check for a state and the default check for 0, the order of the map decides which of the
  -- two runs in that state.
  pub checks_depend_on_order :
      (initial s : ℤ) (events : List EventDesc) (callbacks : List (ℤ × Callback A E))
      (default special : CheckCall A E) (e : Event A E) (st : State)
      → ltb_ℤ (pos 0) s ≡ true
      → st.current ≡ s
      → (before_event_callbacks
            (new_fsm initial events callbacks ((pos 0, default) ∷ (s, special) ∷ [])).0.checks
            e
            st
          ≡ default e st)
        × (before_event_callbacks
              (new_fsm initial events callbacks ((s, special) ∷ (pos 0, default) ∷ [])).0.checks
              e
              st
            ≡ special e st)
  unfolding new_fsm before_event_callbacks
  checks_depend_on_order initial s events callbacks default special e st p c = ground (arith, p, c)

  -- No two callbacks for one state, as in a map.
  abbrev pub Distinct : List (ℤ × Callback A E) → Type 0
  Distinct [] = Unit
  Distinct ((s, cb) ∷ m) = All (λ (p : ℤ × Callback A E). p.0 ≢ s) m × Distinct m

  All-perm :
      (P : ℤ × Callback A E → Type 0) {xs ys : List (ℤ × Callback A E)}
      → Permᴰ xs ys
      → All P xs
      → All P ys
  All-perm P Permᴰ.nil h = h
  All-perm P (Permᴰ.cons e p) h = (subst P e h.0, All-perm P p h.1)
  All-perm P (Permᴰ.swap e e') h = (subst P e' h.1.0, (subst P e h.0, h.1.1))
  All-perm P (Permᴰ.trans p q) h = All-perm P q (All-perm P p h)

  Distinct-perm : {xs ys : List (ℤ × Callback A E)} → Permᴰ xs ys → Distinct xs → Distinct ys
  Distinct-perm Permᴰ.nil d = d
  Distinct-perm (Permᴰ.cons {a = a} e p) d =
      rw (← e) (All-perm (λ q. q.0 ≢ a.0) p d.0, Distinct-perm p d.1)
  Distinct-perm (Permᴰ.swap {b = b} {b' = b'} {l = l} e e') d =
      subst (λ c. Distinct (c ∷ b' ∷ l)) e'
        (subst (λ c. Distinct (b ∷ c ∷ l)) e ((λ q. d.0.0 (sym q), d.1.0), (d.0.1, d.1.1)))
  Distinct-perm (Permᴰ.trans p q) d = Distinct-perm q (Distinct-perm p d)

  enter_swap :
      (a b : ℤ × Callback A E) (m : List (ℤ × Callback A E)) (e : Event A E) (st : State)
      → b.0 ≢ a.0
      → enter_state_callbacks (a ∷ b ∷ m) e st ≡ enter_state_callbacks (b ∷ a ∷ m) e st
  unfolding enter_state_callbacks
  enter_swap (s, cb) (s', cb') m e st ne =
      ground (arith, ne, ℤ_beq_iff s st.current, ℤ_beq_iff s' st.current)

  -- The callbacks have one state each, so the order of their map does not matter: a permutation of
  -- them calls the same callback.
  pub enter-perm :
      {xs ys : List (ℤ × Callback A E)} (e : Event A E) (st : State)
      → Permᴰ xs ys
      → Distinct xs
      → enter_state_callbacks xs e st ≡ enter_state_callbacks ys e st
  unfolding enter_state_callbacks
  enter-perm e st Permᴰ.nil d = refl
  enter-perm e st (Permᴰ.cons {a = (s, cb)} q p) d = rw (← q) (
      ap (λ r. if s == st.current then (let (e', st') = cb e st in (e'.err, e', st')) else r)
        (enter-perm e st p d.1))
  enter-perm e st (Permᴰ.swap {a = a} {b = b} {l = m} q q') d =
      rw (← q, ← q') (enter_swap a b m e st d.0.0)
  enter-perm e st (Permᴰ.trans p q) d = enter-perm e st p d ∙ enter-perm e st q (Distinct-perm p d)
