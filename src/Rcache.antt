-- ===== src/Rcache.antt =====
-- rcache/rcache.go: a cache of the registry's services. A time is in nanoseconds since the zero
-- time of Go. The answer of the registry is an argument, and `get` runs with no other goroutine
-- between its two locks. A service is a value: the nodes that a watcher reports are decoded anew
-- for each event, and nothing else writes to them.
pub mod Lifetime
pub mod Update
pub mod Retry
use gocommon.Base.{
  ℕ, zero, suc, ◌+◌, ◌*◌, ◌^◌, Bool, true, false, not, ◌&&◌, ◌||◌, Option, none, some, List, [],
  ◌∷◌, ◌++◌, String, string_eq, nat_eq, ◌==◌, if◌then◌else◌, ltb, length, any, map, lookup, insert,
  remove,
}
use gocommon.Registry.{Service, Node, Endpoint, WatchResult, write, service_status, delete_state}

pub record Cache : Type 0 where
  pub ttl : ℕ
  pub cache : List (String × List Service)
  pub ttls : List (String × ℕ)
  pub watched : List (String × Bool)
  pub exited : Bool

-- What the registry, or the cache, answers: services, an error of the registry, or `ErrNotFound`.
pub data Answer (E : Type 0) : Type 0 where
  found : List Service → Answer E
  registry_error : E → Answer E
  not_found : Answer E

unfoldable pub new_cache : ℕ → Cache
new_cache ttl = record { ttl = ttl; cache = []; ttls = []; watched = []; exited = false }

-- `backoff`, in milliseconds
unfoldable pub backoff : ℕ → ℕ
backoff attempts = if attempts == 0 then 0 else 10 ^ attempts

unfoldable pub is_valid : ℕ → ℕ → List Service → ℕ → Bool
is_valid now ttl services expiry =
    if length services == 0
    then false
    else if expiry == 0
    then false
    else not (ltb (expiry + ttl) now)

unfoldable pub cp_nodes : List Node → List Node
cp_nodes [] = []
cp_nodes (n ∷ ns) =
    record { id = n.id; address = n.address; port = n.port; metadata = n.metadata } ∷ cp_nodes ns

unfoldable pub cp_endpoints : List Endpoint → List Endpoint
cp_endpoints [] = []
cp_endpoints (e ∷ es) =
    record { name = e.name; request = e.request; response = e.response; metadata = e.metadata }
    ∷ cp_endpoints es

unfoldable pub cp : List Service → List Service
unfolding cp_nodes cp_endpoints
cp [] = []
cp (s ∷ ss) = record s { nodes = cp_nodes s.nodes; endpoints = cp_endpoints s.endpoints } ∷ cp ss

unfoldable pub del : String → Cache → Cache
unfolding remove
del service c = record c { cache = remove service c.cache; ttls = remove service c.ttls }

-- `set` at the time `now`
unfoldable pub set : ℕ → String → List Service → Cache → Cache
unfolding insert
set now service services c = record c {
  cache = insert service services c.cache;
  ttls = insert service (now + c.ttl) c.ttls;
}

-- `c.cache[service]` and `c.ttls[service]`
unfoldable pub cached : String → Cache → List Service
unfolding lookup
cached service c = elim (lookup service c.cache) [ none ↦ [] | some ss ↦ ss ]

unfoldable pub expiry_of : String → Cache → ℕ
unfolding lookup
expiry_of service c = elim (lookup service c.ttls) [ none ↦ 0 | some t ↦ t ]

unfoldable pub is_watched : String → Cache → Bool
unfolding lookup
is_watched service c = elim (lookup service c.watched) [ none ↦ false | some _ ↦ true ]

-- `get`: the answer, whether it starts a watcher, and the cache. `asked` is what the registry
-- answers if it is asked.
unfoldable pub get : {E : Type 0} → ℕ → Answer E → String → Cache → Answer E × Bool × Cache
unfolding is_valid cp set cached expiry_of is_watched
get now asked service c =
    let services = cached service c in
    if is_valid now c.ttl services (expiry_of service c)
    then (found (cp services), false, c)
    else let watch = not (is_watched service c) in
      elim asked [
        | found ss ↦ (found ss, watch, set now service (cp ss) c)
        | registry_error e ↦ (
          if ltb 0 (length (cp services)) then found (cp services) else registry_error e,
          watch,
          c,
        )
        | not_found ↦
            (if ltb 0 (length (cp services)) then found (cp services) else not_found, watch, c)
      ]

unfoldable pub get_service : {E : Type 0} → ℕ → Answer E → String → Cache → Answer E × Bool × Cache
unfolding get
get_service now asked service c =
    let (answer, watch, c') = get now asked service c in
    elim answer [
      | found ss ↦ (if length ss == 0 then not_found else found ss, watch, c')
      | registry_error e ↦ (registry_error e, watch, c')
      | not_found ↦ (not_found, watch, c')
    ]

-- `targetNode`: the first node of the event with the id.
unfoldable pub find_node : String → List Node → Option Node
find_node id [] = none
find_node id (n ∷ ns) = if id == n.id then some n else find_node id ns

-- The loop over the nodes of a service on "create" and "update".
unfoldable pub replace_nodes : List Node → List Node → List Node
unfolding find_node
replace_nodes event [] = []
replace_nodes event (n ∷ ns) =
    elim (find_node n.id event) [ none ↦ n | some n' ↦ n' ] ∷ replace_nodes event ns

unfoldable pub replace_services : Service → List Service → List Service
unfolding replace_nodes
replace_services res [] = []
replace_services res (s ∷ ss) =
    (if s.version == res.version then record s { nodes = replace_nodes res.nodes s.nodes } else s)
    ∷ replace_services res ss

-- The mark of a node that is deleted; `none` is the panic of a write to a nil map.
unfoldable pub mark_node : Node → Option Node
unfolding write
mark_node n = elim (write service_status delete_state n.metadata) [
  | none ↦ none
  | some m ↦ some (record n { metadata = m })
]

-- The loop over the nodes of a service on "delete".
unfoldable pub delete_nodes : List Node → List Node → Option (List Node)
unfolding find_node mark_node
delete_nodes event [] = some []
delete_nodes event (n ∷ ns) =
    let rest = delete_nodes event ns in
    elim (find_node n.id event) [
      | none ↦ elim rest [ none ↦ none | some ns' ↦ some (n ∷ ns') ]
      | some n' ↦ elim (mark_node n') [
        | none ↦ none
        | some n'' ↦ elim rest [ none ↦ none | some ns' ↦ some (n'' ∷ ns') ]
      ]
    ]

unfoldable pub delete_services : Service → List Service → Option (List Service)
unfolding delete_nodes
delete_services res [] = some []
delete_services res (s ∷ ss) =
    let rest = delete_services res ss in
    if s.version == res.version
    then elim (delete_nodes res.nodes s.nodes) [
      | none ↦ none
      | some ns ↦ elim rest [ none ↦ none | some ss' ↦ some (record s { nodes = ns } ∷ ss') ]
    ]
    else elim rest [ none ↦ none | some ss' ↦ some (s ∷ ss') ]

-- The part of `update` for a name that is cached with `services` and an event with nodes.
unfoldable pub update_cached : ℕ → String → Service → List Service → Cache → Option Cache
unfolding replace_services delete_services set insert
update_cached now action res services c =
    if action == "create" || action == "update"
    then (if any (λ (s : Service). s.version == res.version) services
        then some (record c { cache = insert res.name (replace_services res services) c.cache })
        else some (set now res.name (services ++ res ∷ []) c))
    else if action == "delete"
    then elim (delete_services res services) [
      | none ↦ none
      | some ss ↦ some (record c { cache = insert res.name ss c.cache })
    ]
    else some c

-- `update`; `none` is a panic.
unfoldable pub update : ℕ → WatchResult → Cache → Option Cache
unfolding update_cached del lookup
update now r c = elim r.service [
  | none ↦ some c
  | some res ↦ elim (lookup res.name c.cache) [
    | none ↦ some c
    | some services ↦
        if length res.nodes == 0
        then some (if r.action == "delete" then del res.name c else c)
        else update_cached now r.action res services c
  ]
]

-- The first and the last lines of `run`.
unfoldable pub run_start : String → Cache → Cache
unfolding insert
run_start service c = record c { watched = insert service true c.watched }

unfoldable pub run_exit : String → Cache → Cache
unfolding remove
run_exit service c = record c { watched = remove service c.watched }

-- One failure in the loop of `run`: the time that it sleeps, and the count of failures after it.
unfoldable pub fail_once : ℕ → ℕ × ℕ
unfolding backoff
fail_once attempts = (backoff attempts, (if ltb 3 attempts then 0 else attempts) + 1)

unfoldable pub stop : Cache → Cache
stop c = record c { exited = true }
