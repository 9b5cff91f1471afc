-- ===== src/Etcd.antt =====
-- registry/etcdv3.go and etcdv3watcher.go: the registry of services in etcd. The client of etcd, the
-- JSON of a service and its hash are parameters, on a world `W`; `join` is that of `path`. The lock is
-- that of one call after the other.
pub mod Registering
pub mod Reading
pub mod Watching
use Prim.Native.Char.{code}
use Prim.Native.String
use gocommon.Base.{
  ℕ, ◌+◌, ◌/◌, ◌^◌, ◌⊎◌, inl, inr, Bool, true, false, not, ◌&&◌, Option, none, some, List, [], ◌∷◌,
  ◌++◌, String, string_eq, nat_eq, ◌==◌, if◌then◌else◌, is_some, length, map, lookup, insert,
  remove, ℤ, pos, pos_part, ltb_ℤ,
}
use gocommon.Registry.{Service, Node, WatchResult}

-- `etcdv3Registry`, less its options: the hashes and the leases by the name of a service.
pub record EtcdRegistry : Type 0 where
  pub register : List (String × ℕ)
  pub leases : List (String × ℕ)

-- The calls of the client. `put` has a lease or none, and `get` gives the values of the keys with a
-- prefix in the order of the keys, the last one first.
pub record EtcdClient (E W : Type 0) : Type 0 where
  pub put : String → String → Option ℕ → W → Option E × W
  pub delete : String → W → Option E × W
  pub keep_alive_once : ℕ → W → Option E × W
  pub grant : ℕ → W → (E ⊎ ℕ) × W
  pub get : String → W → (E ⊎ List String) × W
  pub is_lease_not_found : E → Bool

-- What becomes of the hash of a service; a panic is recovered.
pub data Hashed (E : Type 0) : Type 0 where
  hashed : ℕ → Hashed E
  hash_error : E → Hashed E
  hash_panic : Hashed E

pub data RegistryError (E : Type 0) : Type 0 where
  no_nodes : RegistryError E
  not_found : RegistryError E
  client_error : E → RegistryError E

abbrev pub map_error : {E : Type 0} → Option E → Option (RegistryError E)
map_error none = none
map_error (some e) = some (client_error e)

-- `strings.Replace(s, "/", "-", -1)`
unfoldable pub replace_slashes : String → String
replace_slashes String.[] = ""
replace_slashes (String.◌∷◌ c s) =
    if code c == b'/' then String.◌∷◌ "-" (replace_slashes s) else String.◌∷◌ c (replace_slashes s)

unfoldable pub new_registry : EtcdRegistry
new_registry = record { register = []; leases = [] }

module _ (join : String → String → String) (prefix : String) where
  -- `nodePath`, and `servicePath`.
  unfoldable pub node_path : String → String → String
  unfolding replace_slashes
  node_path s id = join (join prefix (replace_slashes s)) (replace_slashes id)

  unfoldable pub service_path : String → String
  unfolding replace_slashes
  service_path s = join prefix (replace_slashes s)

  module _ {E W : Type 0} (client : EtcdClient E W) (encode : Service → String) where
    -- The loop of `Deregister`.
    unfoldable pub delete_nodes : String → List Node → W → Option E × W
    unfolding node_path
    delete_nodes name [] w = (none, w)
    delete_nodes name (n ∷ ns) w =
        let (e, w') = client.delete (node_path name n.id) w in
        let rest = delete_nodes name ns w' in if is_some e then (e, w') else rest

    unfoldable pub deregister :
        Service → EtcdRegistry → W → Option (RegistryError E) × EtcdRegistry × W
    unfolding delete_nodes remove
    deregister s r w =
        let (e, w') = delete_nodes s.name s.nodes w in
        if length s.nodes == 0 then (some no_nodes, r, w) else (
          map_error e,
          record { register = remove s.name r.register; leases = remove s.name r.leases },
          w',
        )

    -- The description of one node that `Register` stores.
    abbrev pub one_node : Service → Node → Service
    one_node s n = record s { nodes = n ∷ [] }

    -- The loop of `Register`.
    unfoldable pub put_nodes : Service → Option ℕ → List Node → W → Option E × W
    unfolding node_path
    put_nodes s lease [] w = (none, w)
    put_nodes s lease (n ∷ ns) w =
        let (e, w') = client.put (node_path s.name n.id) (encode (one_node s n)) lease w in
        let rest = put_nodes s lease ns w' in if is_some e then (e, w') else rest

    -- The last lines of `Register`, from the loop on.
    unfoldable pub store :
        Service → ℕ → Option ℕ → EtcdRegistry → W → Option (RegistryError E) × EtcdRegistry × W
    unfolding put_nodes insert
    store s h lease r w =
        let (e, w') = put_nodes s lease s.nodes w in
        if is_some e then (map_error e, r, w') else (
          none,
          record {
            register = insert s.name h r.register;
            leases = elim lease [ none ↦ r.leases | some id ↦ insert s.name id r.leases ];
          },
          w',
        )

    -- `Register` from the hash on; `gone` is `leaseNotFound`, and `ttl` is in nanoseconds.
    unfoldable pub register_hash :
        Hashed E
        → Bool
        → Service
        → ℤ
        → EtcdRegistry
        → W
        → Option (RegistryError E) × EtcdRegistry × W
    unfolding store lookup
    register_hash (hash_error e) gone s ttl r w = (some (client_error e), r, w)
    register_hash hash_panic gone s ttl r w = (none, r, w)
    register_hash (hashed h) gone s ttl r w =
        let unchanged : Bool = elim (lookup s.name r.register) [ none ↦ false | some v ↦ v == h ] in
        if unchanged && not gone
        then (none, r, w)
        else if ltb_ℤ (pos 0) ttl
        then (let (granted, w') = client.grant (pos_part ttl / 1000000000) w in
            elim granted [
              | inl e ↦ (some (client_error e), r, w')
              | inr id ↦ store s h (some id) r w'
            ])
        else store s h none r w

    unfoldable pub register :
        (Service → Hashed E)
        → Service
        → ℤ
        → EtcdRegistry
        → W
        → Option (RegistryError E) × EtcdRegistry × W
    unfolding register_hash lookup
    register hash s ttl r w =
        if length s.nodes == 0 then (some no_nodes, r, w) else elim (lookup s.name r.leases) [
          | none ↦ register_hash (hash s) false s ttl r w
          | some id ↦
              let (e, w') = client.keep_alive_once id w in
              elim e [
                | none ↦ register_hash (hash s) false s ttl r w'
                | some x ↦
                    if client.is_lease_not_found x
                    then register_hash (hash s) true s ttl r w'
                    else (some (client_error x), r, w')
              ]
        ]

-- A service with a name alone.
abbrev pub named : String × Unit {0} → Service
named (name, u) = record { name = name; version = ""; metadata = none; endpoints = []; nodes = [] }

-- One description in the loop of `GetService`.
unfoldable pub add_service : Service → List (String × Service) → List (String × Service)
unfolding lookup insert
add_service sn m =
    let s : Service = elim (lookup sn.version m) [ none ↦ record sn { nodes = [] } | some s ↦ s ] in
    insert sn.version (record s { nodes = s.nodes ++ sn.nodes }) m

module _ (decode : String → Option Service) where
  unfoldable pub service_map : List String → List (String × Service) → List (String × Service)
  unfolding add_service
  service_map [] m = m
  service_map (v ∷ vs) m =
      service_map vs (elim (decode v) [ none ↦ m | some sn ↦ add_service sn m ])

  -- `GetService`; the services are in the order of the map.
  unfoldable pub get_service :
      {E W : Type 0}
      → (String → String → String)
      → String
      → EtcdClient E W
      → String
      → W
      → (RegistryError E ⊎ List Service) × W
  unfolding service_map service_path
  get_service join prefix client name w =
      let (got, w') = client.get (String.◌++◌ (service_path join prefix name) "/") w in
      (
        elim got [
          | inl e ↦ inl (client_error e)
          | inr vs ↦
              if length vs == 0
              then inl not_found
              else inr (map (λ (p : String × Service). p.1) (service_map vs []))
        ],
        w',
      )

  -- The set of names of `ListServices`.
  unfoldable pub name_set : List String → List (String × Unit {0}) → List (String × Unit {0})
  unfolding insert
  name_set [] names = names
  name_set (v ∷ vs) names =
      name_set vs (elim (decode v) [ none ↦ names | some sn ↦ insert sn.name tt names ])

  unfoldable pub list_services :
      {E W : Type 0} → String → EtcdClient E W → W → (RegistryError E ⊎ List Service) × W
  unfolding name_set
  list_services prefix client w =
      let (got, w') = client.get prefix w in
      (elim got [ inl e ↦ inl (client_error e) | inr vs ↦ inr (map named (name_set vs [])) ], w')

-- An event of the client: its type, `IsCreate` and `IsModify`, its value, and the value before, if
-- the server still has it.
pub record WatchEvent : Type 0 where
  pub is_delete : Bool
  pub is_create : Bool
  pub is_modify : Bool
  pub value : String
  pub prev_value : Option String

-- What the channel of a watcher delivers.
pub record WatchResponse (E : Type 0) : Type 0 where
  pub err : Option E
  pub events : List WatchEvent

-- What `Next` answers, with what is left in the channel.
pub data Next (E : Type 0) : Type 0 where
  reported : WatchResult → List (WatchResponse E) → Next E
  watch_error : E → List (WatchResponse E) → Next E
  could_not_get : Next E
  nil_panic : Next E

-- What the loop over the events of a response finds.
pub data Picked : Type 0 where
  picked : WatchResult → Picked
  no_event : Picked
  no_prev_kv : Picked

module _ (decode : String → Option Service) where
  unfoldable pub event_action : WatchEvent → String
  event_action ev =
      if ev.is_delete
      then "delete"
      else if ev.is_create
      then "create"
      else if ev.is_modify
      then "update"
      else ""

  -- The service of an event; the outer `none` is the panic of an event with no previous value.
  unfoldable pub event_service : WatchEvent → Option (Option Service)
  event_service ev =
      if ev.is_delete
      then elim ev.prev_value [ none ↦ none | some v ↦ some (decode v) ]
      else some (decode ev.value)

  unfoldable pub pick_event : List WatchEvent → Picked
  unfolding event_action event_service
  pick_event [] = no_event
  pick_event (ev ∷ evs) = elim (event_service ev) [
    | none ↦ no_prev_kv
    | some found ↦ elim found [
      | none ↦ pick_event evs
      | some s ↦ picked (record { action = event_action ev; service = some s })
    ]
  ]

  -- `Next`, on what the channel delivers until it is closed.
  unfoldable pub next : {E : Type 0} → List (WatchResponse E) → Next E
  unfolding pick_event
  next [] = could_not_get
  next (r ∷ rs) = elim r.err [
    | some e ↦ watch_error e rs
    | none ↦ elim (pick_event r.events) [
      | no_event ↦ next rs
      | picked res ↦ reported res rs
      | no_prev_kv ↦ nil_panic
    ]
  ]
