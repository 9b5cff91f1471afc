-- ===== src/Transport/Memory/Taken.antt =====
-- The addresses that transport/memory.go has listened on.
use gocommon.Base.{
  sum-cases, ℕ, ◌≡◌, refl, ◌∙◌, ap, Bool, not, ◌&&◌, ◌||◌, Option, some, List, [], ◌∷◌, String,
  string_eq, nat_eq, ◌==◌, lookup, lookup-insert, lookup-insert_self, lookup-same, Bool-cases,
  Option-cases, ◌⊎◌, inl, inr, if_both,
}
use gocommon.Transport.Memory.{
  Listener, World, already_listening, is_closed, close_channel, close_socket, close_listener, dial,
  resolve, bind, listen, Op, listens, dials, closes_listener, closes_socket, run,
}

inl-injective : {A B : Type 0} {a b : A} → Path (A ⊎ B) (inl a) (inl b) → a ≡ b
inl-injective e = cc e

close_channel-listeners : (c : ℕ) (w : World) → (close_channel c w).listeners ≡ w.listeners
unfolding close_channel
close_channel-listeners c w =
    if_both (λ v. v.listeners ≡ w.listeners) (is_closed c w) w (record w { closed = c ∷ w.closed })
      refl refl

dial-listeners :
    (accepting takes_exit : Bool) (addr : String) (w : World)
    → (dial accepting takes_exit addr w).1.listeners ≡ w.listeners
unfolding dial
dial-listeners a t addr w = elim (Option-cases (lookup addr w.listeners)) [
  | inl n ↦ rw (n, dial) refl
  | inr (l, n) ↦ elim (Bool-cases (is_closed l.exit w && (not a || t))) [
    | inl e ↦ rw (n, dial, e) refl
    | inr e ↦ elim (Bool-cases a) [
      | inl y ↦ rw (n, dial, e, y) refl
      | inr y ↦ rw (n, dial, e, y) refl
    ]
  ]
]

bind-kept :
    (a addr : String) (l : Listener) (w : World)
    → lookup a w.listeners ≡ some l
    → lookup a (bind addr w).1.listeners ≡ some l
unfolding bind
bind-kept a addr l w h = elim (Option-cases (lookup addr w.listeners)) [
  | inr (m, n) ↦ rw (n, bind) h
  | inl n ↦ elim (Bool-cases (a == addr)) [
    | inl t ↦ absurd (cc (h, n, lookup-same a addr w.listeners t))
    | inr f ↦ rw (n, bind) (lookup-insert addr a _ w.listeners ∙ rw f h)
  ]
]

bind-made :
    (a : String) (l : Listener) (w : World)
    → (bind a w).0 ≡ inl l
    → lookup a (bind a w).1.listeners ≡ some l
unfolding bind
bind-made a l w h = elim (Option-cases (lookup a w.listeners)) [
  | inr (m, n) ↦ absurd (cc (rw (n, bind) at h))
  | inl n ↦
      let e = inl-injective (rw (n, bind) at h) in
      rw (n, bind) (lookup-insert_self a _ w.listeners ∙ ap some e)
]

bind-refuses :
    (a : String) (l : Listener) (w : World)
    → lookup a w.listeners ≡ some l
    → (bind a w).0 ≡ inr already_listening
unfolding bind
bind-refuses a l w h = rw (h, bind) refl

module _ (split_host_port : String → Option (String × String))
    (extract : String → Option String) where
  listen-kept :
      (a port addr : String) (l : Listener) (w : World)
      → lookup a w.listeners ≡ some l
      → lookup a (listen split_host_port extract port addr w).1.listeners ≡ some l
  unfolding listen
  listen-kept a port addr l w h = elim (sum-cases (resolve split_host_port extract port addr)) [
    | inl (e, r) ↦ rw (r, listen) h
    | inr (found, r) ↦ let kept = bind-kept a found l w h in rw (r, listen) kept
  ]

  listen-resolved :
      (port addr a : String) (w : World)
      → resolve split_host_port extract port addr ≡ inr a
      → listen split_host_port extract port addr w ≡ bind a w
  unfolding listen
  listen-resolved port addr a w r = rw (r, listen) refl

  run-kept :
      (a : String) (l : Listener) (ops : List Op) (w : World)
      → lookup a w.listeners ≡ some l
      → lookup a (run split_host_port extract ops w).listeners ≡ some l
  unfolding run close_socket close_listener
  run-kept a l [] w h = h
  run-kept a l (listens p addr ∷ ops) w h = run-kept a l ops _ (listen-kept a p addr l w h)
  run-kept a l (dials b t addr ∷ ops) w h = run-kept a l ops _ (rw (dial-listeners b t addr w) h)
  run-kept a l (closes_listener m ∷ ops) w h =
      run-kept a l ops _ (rw (close_channel-listeners m.exit w) h)
  run-kept a l (closes_socket s ∷ ops) w h =
      run-kept a l ops _ (rw (close_channel-listeners s.exit w) h)

  -- An address that Listen has answered with is taken from then on: after whatever calls of
  -- the transport, its listeners and its sockets, the close of that listener included, Listen
  -- refuses every address that comes to the same one.
  pub listen-again :
      (port addr port' addr' a : String) (l : Listener) (w : World) (ops : List Op)
      → resolve split_host_port extract port addr ≡ inr a
      → resolve split_host_port extract port' addr' ≡ inr a
      → (listen split_host_port extract port addr w).0 ≡ inl l
      → (listen split_host_port extract port' addr'
          (run split_host_port extract ops (listen split_host_port extract port addr w).1)).0
        ≡ inr already_listening
  listen-again port addr port' addr' a l w ops r r' h =
      let made = listen-resolved port addr a w r in
      let start = bind-made a l w (rw made at h) in
      let kept = run-kept a l ops (bind a w).1 start in
      let again = listen-resolved port' addr' a (run split_host_port extract ops (bind a w).1) r' in
      rw made (ap (λ x. x.0) again ∙ bind-refuses a l _ kept)
