-- ===== src/Apollo/Recovery.antt =====
-- `requestRecovery` of apollo-config/request.go ends.
use gocommon.Base.{
  ℕ, zero, suc, ◌+◌, ◌≡◌, ◌<◌, ◌≤◌, refl, Bool, true, false, Option, none, some, List, [], ◌∷◌,
  String, string_eq, ◌==◌, ltb, arith, inl, inr, Bool-cases, if_cases, if◌then◌else◌, lookup, IsMap,
  All, same_refl,
}
use gocommon.Apollo.Hosts.{
  Hosts, Response, is_connect_directly, first_up, select_host, mark_down, set_down_node, request,
  request_recovery, next_try_connect_period,
}

-- How many servers are up.
abbrev pub up : List (String × Bool) → ℕ
up [] = 0
up ((host, true) ∷ servers) = up servers
up ((host, false) ∷ servers) = suc (up servers)

abbrev pub HasName : String × Bool → Type 0
HasName p = (p.0 == "") ≡ false

up-first_up :
    (servers : List (String × Bool))
    → All HasName servers
    → (first_up servers == "") ≡ true
    → up servers ≡ 0
unfolding first_up
up-first_up [] h e = refl
up-first_up ((host, true) ∷ servers) h e = up-first_up servers h.1 e
up-first_up ((host, false) ∷ servers) h e = ground (arith, e, h.0)

lookup-mark_down :
    (k host : String) (servers : List (String × Bool))
    → lookup k servers ≡ none
    → lookup k (mark_down host servers) ≡ none
unfolding mark_down lookup
lookup-mark_down k host [] h = refl
lookup-mark_down k host ((key, b) ∷ servers) h =
    ground (arith, h, lookup-mark_down k host servers, string_eq.same_iff k key)

IsMap-mark_down :
    (host : String) (servers : List (String × Bool))
    → IsMap servers
    → IsMap (mark_down host servers)
unfolding mark_down
IsMap-mark_down host [] h = tt
IsMap-mark_down host ((key, b) ∷ servers) h =
    if_cases IsMap (key == host) ((key, true) ∷ servers) ((key, b) ∷ mark_down host servers)
      (λ e. h) (λ e. (lookup-mark_down key host servers h.0, IsMap-mark_down host servers h.1))

HasName-mark_down :
    (host : String) (servers : List (String × Bool))
    → All HasName servers
    → All HasName (mark_down host servers)
unfolding mark_down
HasName-mark_down host [] h = tt
HasName-mark_down host ((key, b) ∷ servers) h =
    if_cases (All HasName) (key == host) ((key, true) ∷ servers) ((key, b) ∷ mark_down host servers)
      (λ e. h) (λ e. (h.0, HasName-mark_down host servers h.1))

up-mark_down_le :
    (host : String) (servers : List (String × Bool)) → up (mark_down host servers) ≤ up servers
unfolding mark_down
up-mark_down_le host [] = omega arith
up-mark_down_le host ((key, true) ∷ servers) =
    if_cases (λ m. up m ≤ up servers) (key == host) ((key, true) ∷ servers)
      ((key, true) ∷ mark_down host servers) (λ e. omega arith) (λ e. up-mark_down_le host servers)
up-mark_down_le host ((key, false) ∷ servers) =
    if_cases (λ m. up m ≤ suc (up servers)) (key == host) ((key, true) ∷ servers)
      ((key, false) ∷ mark_down host servers) (λ e. omega arith)
      (λ e. omega (arith, up-mark_down_le host servers))

-- A name without an entry is not that of the first server that is up.
first_up-other :
    (servers : List (String × Bool)) (key : String)
    → (first_up servers == "") ≡ false
    → lookup key servers ≡ none
    → (key == first_up servers) ≡ false
unfolding first_up lookup
first_up-other [] key e h = ground (arith, e)
first_up-other ((k, false) ∷ servers) key e h = ground (arith, h)
first_up-other ((k, true) ∷ servers) key e h = first_up-other servers key e (ground (arith, h))

up-mark_down :
    (servers : List (String × Bool))
    → IsMap servers
    → (first_up servers == "") ≡ false
    → suc (up (mark_down (first_up servers) servers)) ≡ up servers
unfolding mark_down first_up
up-mark_down [] h e = ground (arith, e)
up-mark_down ((key, false) ∷ servers) h e = rw (same_refl key) refl
up-mark_down ((key, true) ∷ servers) h e =
    rw (first_up-other servers key e h.0) (up-mark_down servers h.1 e)

-- What a result tells: a host has answered, or every server is marked as down and the direct host
-- is not tried again yet.
abbrev pub Ends : {W : Type 0} → (ℕ → ℕ) → Option (Bool × Hosts × W) → Type 0
Ends clock none = ⊥
Ends clock (some (true, hs, w)) = Unit
Ends clock (some (false, hs, w)) = (up hs.servers ≡ 0) × ((j : ℕ) × (clock j < hs.next_try))

module _ {W : Type 0} (http : String → W → Response × W) (success : String → W → Bool × W)
    (not_modify : W → Bool × W) (with_uri : String → String) (direct : String) (clock : ℕ → ℕ)
    (named : (direct == "") ≡ false) (window : (i j : ℕ) → clock j < clock i + 60) where
  -- The hosts after `setDownNode` of a host with a name.
  abbrev marked : String → ℕ → Hosts → Hosts
  marked host now hs = record {
    next_try = if host == direct then now + next_try_connect_period else hs.next_try;
    servers = mark_down host hs.servers;
  }

  set_down_node-marked :
      (host : String) (now : ℕ) (hs : Hosts)
      → (host == "") ≡ false
      → set_down_node direct host now hs ≡ marked host now hs
  unfolding set_down_node
  set_down_node-marked host now hs e = rw (e, set_down_node) refl

  round-Ends :
      (fuel i : ℕ) (hs : Hosts) (w : W) (host : String)
      → select_host direct (clock i) hs ≡ host
      → ((host == "") ≡ true → Ends clock (some (false, hs, w)))
      → ((host == "") ≡ false
          → (w' : W)
          → Ends clock (
              request_recovery http success not_modify with_uri direct clock
                (suc i)
                fuel
                (marked host (clock i) hs)
                w'))
      → Ends clock
          (request_recovery http success not_modify with_uri direct clock i (suc fuel) hs w)
  unfolding request_recovery set_down_node
  round-Ends fuel i hs w host q gives_up goes_on =
      let answer : Bool × W = request http success not_modify (with_uri host) w in
      let rest : Option (Bool × Hosts × W) =
        request_recovery http success not_modify with_uri direct clock (suc i) fuel
          (set_down_node direct host (clock i) hs) answer.1 in
      rw (q) (
        if_cases (Ends clock) (host == "") (some (false, hs, w))
          (if answer.0 then some (true, hs, answer.1) else rest) gives_up
          (λ e.
            if_cases (Ends clock) answer.0 (some (true, hs, answer.1)) rest (λ o. tt)
              (λ o. rw (set_down_node-marked host (clock i) hs e) (goes_on e answer.1))))

  -- With the direct host out of use.
  settled-Ends :
      (fuel i : ℕ) (hs : Hosts) (w : W)
      → IsMap hs.servers
      → All HasName hs.servers
      → ((j : ℕ) → clock j < hs.next_try)
      → up hs.servers < fuel
      → Ends clock (request_recovery http success not_modify with_uri direct clock i fuel hs w)
  unfolding request_recovery select_host is_connect_directly set_down_node
  settled-Ends zero i hs w m a b f = absurd (omega arith)
  settled-Ends (suc fuel) i hs w m a b f =
      round-Ends fuel i hs w (first_up hs.servers) (ground (arith, b i))
        (λ e. (up-first_up hs.servers a e, (i, b i)))
        (λ e w'.
          settled-Ends fuel (suc i) (marked (first_up hs.servers) (clock i) hs) w'
            (IsMap-mark_down (first_up hs.servers) hs.servers m)
            (HasName-mark_down (first_up hs.servers) hs.servers a)
            (λ j.
              if_cases (λ n. clock j < n) (first_up hs.servers == direct) (clock i + 60) hs.next_try
                (λ x. window i j) (λ x. b j))
            (omega (arith, up-mark_down hs.servers m e)))

  -- On distinct, nonempty names of servers, and if no round comes 60 seconds or more after another,
  -- two rounds more than there are servers up are enough for `requestRecovery` to end. It gives up
  -- only when every server is down and the direct host is not to be tried yet.
  pub request_recovery-Ends :
      (fuel i : ℕ) (hs : Hosts) (w : W)
      → IsMap hs.servers
      → All HasName hs.servers
      → suc (up hs.servers) < fuel
      → Ends clock (request_recovery http success not_modify with_uri direct clock i fuel hs w)
  unfolding request_recovery select_host is_connect_directly set_down_node
  request_recovery-Ends zero i hs w m a f = absurd (omega arith)
  request_recovery-Ends (suc fuel) i hs w m a f = elim (Bool-cases (ltb (clock i) hs.next_try)) [
    | inl t ↦
        round-Ends fuel i hs w (first_up hs.servers) (ground (arith, t))
          (λ e. (up-first_up hs.servers a e, (i, ground (arith, t))))
          (λ e w'.
            request_recovery-Ends fuel (suc i) (marked (first_up hs.servers) (clock i) hs) w'
              (IsMap-mark_down (first_up hs.servers) hs.servers m)
              (HasName-mark_down (first_up hs.servers) hs.servers a)
              (omega (arith, up-mark_down hs.servers m e)))
    | inr g ↦
        round-Ends fuel i hs w direct (ground (arith, g)) (λ e. ground (arith, e, named))
          (λ e w'.
            settled-Ends fuel (suc i) (marked direct (clock i) hs) w'
              (IsMap-mark_down direct hs.servers m) (HasName-mark_down direct hs.servers a)
              (λ j.
                if_cases (λ n. clock j < n) (direct == direct) (clock i + 60) hs.next_try
                  (λ x. window i j) (λ x. ground (arith, x, same_refl direct)))
              (omega (arith, up-mark_down_le direct hs.servers)))
  ]
