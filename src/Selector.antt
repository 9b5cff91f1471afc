-- ===== src/Selector.antt =====
-- selector: filters and strategies, and the selection of a node. `strconv.ParseInt` and the
-- random number are parameters; a time is in seconds.
pub mod Filters
pub mod RoundBin
use gocommon.Base.{
  ℕ, zero, suc, ◌+◌, ◌-◌, ◌*◌, ◌%◌, ◌^◌, Bool, true, false, Option, none, some, List, [], ◌∷◌, ◌++◌,
  String, string_eq, nat_eq, ◌==◌, if◌then◌else◌, ltb, leb, ltb_ℤ, ℤ, pos, negsuc, length,
  get_elem?, keep, any, ◌⊎◌, inl, inr,
}
use gocommon.Registry.{
  Service, Node, Endpoint, Metadata, read, flatten, service_status, normal_state, delete_state,
  heart_beat_ttl,
}

pub data SelectError : Type 0 where
  not_found none_available : SelectError

pub data Selected (A : Type 0) : Type 0 where
  selected : A → Selected A
  failed : SelectError → Selected A

-- How `Select` ends: with an error of the cache, with `ErrNoneAvailable`, or with what the strategy
-- makes of the services.
pub data Choice (E A : Type 0) : Type 0 where
  cache_error : E → Choice E A
  no_service : Choice E A
  chosen : A → Choice E A

-- `FilterEndpoint`
unfoldable pub filter_endpoint : String → List Service → List Service
filter_endpoint name [] = []
filter_endpoint name (s ∷ old) =
    let rest = filter_endpoint name old in
    if any (λ (ep : Endpoint). ep.name == name) s.endpoints then s ∷ rest else rest

-- `node.Metadata[key] == val`, on a map that is not nil
unfoldable pub has_label : String → String → Node → Bool
has_label key val node = elim node.metadata [
  | none ↦ false
  | some m ↦ elim (read key (some m)) [ none ↦ val == "" | some v ↦ v == val ]
]

unfoldable pub filter_label : String → String → List Service → List Service
unfolding has_label
filter_label key val [] = []
filter_label key val (s ∷ old) =
    let nodes = keep (has_label key val) s.nodes in
    let rest = filter_label key val old in
    if ltb 0 (length nodes) then record s { nodes = nodes } ∷ rest else rest

unfoldable pub filter_version : String → List Service → List Service
filter_version version [] = []
filter_version version (s ∷ old) =
    let rest = filter_version version old in if s.version == version then s ∷ rest else rest

-- `Random` and the function that it returns; `r` is the number that `rand.Int` gives.
unfoldable pub random : ℕ → List Service → Selected Node
unfolding flatten
random r services =
    let nodes = flatten services in
    if length nodes == 0
    then failed none_available
    else let i = if length nodes == 1 then 0 else r % length nodes in
      elim (get_elem? nodes i) [ none ↦ failed none_available | some n ↦ selected n ]

-- `timestamp + int64(monitor.HeartBeatTTL.Seconds())`, which wraps around
abbrev pub add_ttl : ℤ → ℤ
add_ttl (pos n) =
    let t = n + heart_beat_ttl in if ltb t (2 ^ 63) then pos t else negsuc (2 ^ 64 - 1 - t)
add_ttl (negsuc n) =
    if leb (suc n) heart_beat_ttl then pos (heart_beat_ttl - suc n) else negsuc (n - heart_beat_ttl)

-- `bHealthNodesByWeights` at the time `now`
unfoldable pub is_health_node : (String → ℤ) → ℕ → Node → Bool
unfolding read
is_health_node parse_int now node =
    let stale : Bool = elim (read "timestamp" node.metadata) [
      | none ↦ false
      | some ts ↦ ltb_ℤ (add_ttl (parse_int ts)) (pos now)
    ] in
    if stale then false else elim (read service_status node.metadata) [
      | none ↦ true
      | some status ↦ status == normal_state
    ]

-- `bDeletedNodes`
unfoldable pub is_deleted_node : Node → Bool
unfolding read
is_deleted_node node = elim (read service_status node.metadata) [
  | none ↦ false
  | some status ↦ status == delete_state
]

-- The two lists that the loops of `RoundBinSelect` fill: the healthy nodes and the deleted ones.
unfoldable pub sort_nodes : (String → ℤ) → ℕ → List Node → List Node × List Node
unfolding is_health_node is_deleted_node
sort_nodes parse_int now [] = ([], [])
sort_nodes parse_int now (node ∷ ns) =
    let (nodes, del_nodes) = sort_nodes parse_int now ns in
    if is_health_node parse_int now node
    then (node ∷ nodes, del_nodes)
    else if is_deleted_node node
    then (nodes, node ∷ del_nodes)
    else (nodes, del_nodes)

-- The nodes that the returned function chooses among; none makes it fail with `ErrNotFound`.
unfoldable pub candidates : (String → ℤ) → ℕ → List Service → List Node
unfolding sort_nodes flatten
candidates parse_int now services =
    let (nodes, del_nodes) = sort_nodes parse_int now (flatten services) in
    if length nodes == 0 then del_nodes else nodes

-- One call of the function that `RoundBinSelect` returns, with `selectKey`, a uint of 64 bits.
unfoldable pub next_node : List Node → ℕ → Selected Node × ℕ
next_node nodes select_key =
    if length nodes == 0
    then (failed not_found, select_key)
    else let key = (select_key + 1) % 2 ^ 64 in
      elim (get_elem? nodes (key % length nodes)) [
        | none ↦ (failed not_found, key)
        | some n ↦ (selected n, key)
      ]

-- A strategy with its filters, as in `Select` of default.go; `cached` is the answer of the cache
-- of services, which may be an error.
unfoldable pub apply_filters : List (List Service → List Service) → List Service → List Service
apply_filters [] services = services
apply_filters (f ∷ fs) services = apply_filters fs (f services)

unfoldable pub select :
    {E A : Type 0}
    → List (List Service → List Service)
    → (List Service → A)
    → E ⊎ List Service
    → Choice E A
unfolding apply_filters
select filters strategy (inl e) = cache_error e
select filters strategy (inr services) =
    let left = apply_filters filters services in
    if length left == 0 then no_service else chosen (strategy left)
