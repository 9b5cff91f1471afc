-- ===== src/Client.antt =====
-- client/rpc_client.go, with the proxy of util/net/net.go and the choice of a codec in
-- client/rpc_codec.go: a call that is tried again. The selector, the connection and the functions of
-- the options are parameters, on a world `W`.
pub mod Attempts
pub mod Header
pub mod Codec
pub mod Stream
use Prim.Native.Char.{code}
use gocommon.Base.{
  ℕ, zero, suc, ◌+◌, ◌%◌, ◌⊎◌, inl, inr, Bool, true, false, not, ◌||◌, Option, none, some, List, [],
  ◌∷◌, String, string_eq, nat_eq, ◌==◌, if◌then◌else◌, ltb, length, get_elem?, map, lookup, insert,
  ℤ, pos, negsuc,
}
use gocommon.Registry.{Node}
use gocommon.Selector.{SelectError, not_found, none_available, Selected, failed, selected}

-- What `Proxy` reads of the environment.
pub record ProxyEnv : Type 0 where
  pub micro_proxy : String
  pub micro_network : String
  pub micro_network_address : String

unfoldable pub has_colon : String → Bool
has_colon String.[] = false
has_colon (String.◌∷◌ c s) = code c == b':' || has_colon s

-- `Proxy`: the service, the addresses, and whether there is a proxy.
unfoldable pub proxy : ProxyEnv → String → List String → String × List String × Bool
unfolding has_colon
proxy env service address =
    let prx = if env.micro_proxy == "service" then "go.micro.proxy" else env.micro_proxy in
    let address' = if env.micro_proxy == "service" then [] else address in
    let network =
      if env.micro_network == "service" then "go.micro.network" else env.micro_network in
    if not (env.micro_proxy == "")
    then (prx, if has_colon prx then prx ∷ [] else address', true)
    else (
      if env.micro_network == "" then service else network,
      if env.micro_network_address == "" then address else env.micro_network_address ∷ [],
      not (env.micro_network == "") || not (env.micro_network_address == ""),
    )

-- The nodes that `next` makes of addresses.
abbrev pub address_node : String → Node
address_node addr = record {
  id = "";
  address = addr;
  port = pos 0;
  metadata = some (("protocol", "mucp") ∷ []);
}

-- The function that `next` returns for addresses, at a time in seconds.
unfoldable pub next_address : List String → ℕ → Option Node
next_address address now = get_elem? (map address_node address) (now % length address)

-- The errors of `Call`, by where they come from.
pub data CallError (E : Type 0) : Type 0 where
  backoff_error : E → CallError E
  service_not_found : CallError E
  next_error : SelectError → CallError E
  call_error : E → CallError E
  retry_error : E → CallError E
  call_timeout : CallError E

-- `RetryOnError`
unfoldable pub retry_on_error : ℕ → Bool
retry_on_error status_code = status_code == 408 || status_code == 500

-- The number of rounds of the loop; `none` is the panic of a channel of negative size.
unfoldable pub rounds : Bool → ℤ → Option ℕ
rounds true retries = some 1
rounds false (pos n) = some (n + 1)
rounds false (negsuc zero) = some 0
rounds false (negsuc (suc n)) = none

module _ {E W : Type 0} (backoff : ℕ → W → E ⊎ ℕ) (sleep : ℕ → W → W) (next : W → Selected Node × W)
    (rcall : Node → W → Option E × W) (mark : Node → Option E → W → W) where
  -- The end of `call`, on the node that the selector gives.
  unfoldable pub call_node : Selected Node → W → Option (CallError E) × W
  call_node (failed e) w = (
    some (elim e [ not_found ↦ service_not_found | none_available ↦ next_error none_available ]),
    w,
  )
  call_node (selected node) w =
      let (err, w') = rcall node w in
      (elim err [ none ↦ none | some x ↦ some (call_error x) ], mark node err w')

  -- The function `call` of `Call`, for one attempt.
  unfoldable pub attempt : ℕ → W → Option (CallError E) × W
  unfolding call_node
  attempt i w = elim (backoff i w) [
    | inl e ↦ (some (backoff_error e), w)
    | inr t ↦ let (node, w') = next (if ltb 0 t then sleep t w else w) in call_node node w'
  ]

  -- The loop of `Call`, from a round on; `done` tells whether the deadline ends the wait for the
  -- attempt of a round, and `retry` is `Retry`.
  module _ (done : ℕ → W → Bool) (retry : W → E ⊎ Bool) where
    unfoldable pub call_loop : ℕ → ℕ → Option (CallError E) → W → Option (CallError E) × W
    call_loop zero i gerr w = (gerr, w)
    call_loop (suc n) i gerr w =
        let (err, w') = attempt i w in
        if done i w' then (some call_timeout, w') else elim err [
          | none ↦ (none, w')
          | some x ↦ elim (retry w') [
            | inl e ↦ (some (retry_error e), w')
            | inr b ↦ let rest = call_loop n (suc i) (some x) w' in if b then rest else (some x, w')
          ]
        ]

    -- `Call`, after `next`; `none` is a panic.
    unfoldable pub call :
        ProxyEnv → String → List String → ℤ → W → Option (Option (CallError E) × W)
    unfolding proxy rounds call_loop
    call env service address retries w = elim (rounds (proxy env service address).2 retries) [
      | none ↦ none
      | some n ↦ some (call_loop n 0 none w)
    ]
