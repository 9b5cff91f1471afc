-- ===== src/Apollo/Hosts.antt =====
-- apollo-config/appconfig.go and request.go: the hosts of the configuration service, and a request
-- that goes from host to host until one of them answers. Times are in seconds.
use gocommon.Base.{
  ℕ, zero, suc, ◌+◌, Bool, true, false, not, Option, none, some, List, [], ◌∷◌, String, string_eq,
  nat_eq, ◌==◌, ltb, if◌then◌else◌,
}

-- `appConfig.NextTryConnTime`, and `servers`: for each host whether it is down.
pub record Hosts : Type 0 where
  pub next_try : ℕ
  pub servers : List (String × Bool)

abbrev pub next_try_connect_period : ℕ
next_try_connect_period = 60

-- `isConnectDirectly`
unfoldable pub is_connect_directly : ℕ → Hosts → Bool
is_connect_directly now hs = ltb now hs.next_try

-- The loop of `selectHost`
unfoldable pub first_up : List (String × Bool) → String
first_up [] = ""
first_up ((host, is_down) ∷ servers) = if is_down then first_up servers else host

-- `selectHost`, where `direct` is `getHost`.
unfoldable pub select_host : String → ℕ → Hosts → String
unfolding is_connect_directly first_up
select_host direct now hs = if not (is_connect_directly now hs) then direct else first_up hs.servers

-- The loop of `setDownNode`
unfoldable pub mark_down : String → List (String × Bool) → List (String × Bool)
mark_down host [] = []
mark_down host ((key, is_down) ∷ servers) =
    if key == host then (key, true) ∷ servers else (key, is_down) ∷ mark_down host servers

-- `setDownNode`
unfoldable pub set_down_node : String → String → ℕ → Hosts → Hosts
unfolding mark_down
set_down_node direct host now hs = if host == "" then hs else record {
  next_try = if host == direct then now + next_try_connect_period else hs.next_try;
  servers = mark_down host hs.servers;
}

-- What the HTTP client gets of a host.
pub data Response : Type 0 where
  unreachable : Response
  unreadable : Response
  body : String → Response
  not_modified : Response
  other_status : Response

abbrev pub max_retries : ℕ
max_retries = 5

-- The outside of the program, `W`, with what the code calls of it.
module _ {W : Type 0} (http : String → W → Response × W) (success : String → W → Bool × W)
    (not_modify : W → Bool × W) where
  -- `request`, with the tries that are left. The Boolean says whether there is no error.
  unfoldable pub request_from : ℕ → String → W → Bool × W
  request_from zero url w = (false, w)
  request_from (suc tries) url w = elim (http url w).0 [
    | unreachable ↦ request_from tries url (http url w).1
    | unreadable ↦ request_from tries url (http url w).1
    | body b ↦ success b (http url w).1
    | not_modified ↦ not_modify (http url w).1
    | other_status ↦ request_from tries url (http url w).1
  ]

  unfoldable pub request : String → W → Bool × W
  unfolding request_from
  request url w = request_from max_retries url w

  -- `requestRecovery`, on fuel: `none` where the fuel is used up. A clock gives the time of each
  -- round; `with_uri`
  -- puts the URI behind a host. The Boolean of the result says whether a host has answered.
  unfoldable pub request_recovery :
      (String → String) → String → (ℕ → ℕ) → ℕ → ℕ → Hosts → W → Option (Bool × Hosts × W)
  request_recovery with_uri direct clock i zero hs w = none
  request_recovery with_uri direct clock i (suc fuel) hs w =
      let host = select_host direct (clock i) hs in
      let (ok, w') = request (with_uri host) w in
      let rest =
        request_recovery with_uri direct clock (suc i) fuel (set_down_node direct host (clock i) hs)
          w' in
      if host == "" then some (false, hs, w) else if ok then some (true, hs, w') else rest
