-- ===== src/Monitor.antt =====
-- monitor/os.go: heartbeats, and the status that they write to the nodes of a service. Times are in
-- seconds, and `format_int` writes a number.
pub mod Beats
use gocommon.Base.{
  ℕ, ◌+◌, ◌*◌, Bool, true, false, Option, none, some, List, [], ◌∷◌, String, string_eq, nat_eq,
  ◌==◌, ltb, ltb_ℤ, if◌then◌else◌, length, insert, ℤ, pos,
}
use gocommon.Registry.{Node, Service, Metadata, read, write, service_status, normal_state}

pub record Heartbeat : Type 0 where
  pub id : String
  pub service : Service
  pub timestamp : ℕ
  pub ttl : ℕ
  pub weights : ℤ

abbrev pub up_thresh : String
up_thresh = "upThresh"

-- `UpLimits` and `DownLimits`
pub record Limits : Type 0 where
  pub up_limits : ℤ
  pub down_limits : ℤ

-- The status of a node, from the one that it has.
unfoldable pub new_status : Limits → ℤ → String → String
new_status l weights status =
    if ltb_ℤ weights l.down_limits
    then normal_state
    else if ltb_ℤ l.up_limits weights
    then up_thresh
    else status

-- `node.Metadata[ServiceStatus]`
abbrev pub status_of : Metadata → String
status_of m = elim (read service_status m) [ none ↦ "" | some s ↦ s ]

-- `PushHeartBeat`, with the interval of the options; `none` is a panic, of a service without nodes.
unfoldable pub push_heart_beat :
    ℕ → Service → ℤ → List (String × Heartbeat) → Option (List (String × Heartbeat))
unfolding insert
push_heart_beat interval service weights hbs = elim service.nodes [
  | [] ↦ none
  | node ∷ _ ↦ some (
      insert node.id
        (record {
          id = node.id;
          service = service;
          timestamp = 0;
          ttl = interval * 2;
          weights = pos 0;
        })
        hbs)
]

-- What a tick writes to the node of a heartbeat; `none` is the panic of a nil map.
unfoldable pub mark_node : Limits → String → ℤ → Node → Option Node
unfolding write new_status
mark_node l time weights node = elim (write "timestamp" time node.metadata) [
  | none ↦ none
  | some m ↦ elim (write service_status (new_status l weights (status_of m)) m) [
    | none ↦ none
    | some m' ↦ some (record node { metadata = m' })
  ]
]

-- The nodes after a heartbeat: the first one with its id is marked, and whether there is one.
unfoldable pub beat_nodes : Limits → String → ℤ → String → List Node → Option (List Node × Bool)
unfolding mark_node
beat_nodes l time weights id [] = some ([], false)
beat_nodes l time weights id (node ∷ nodes) =
    let rest = beat_nodes l time weights id nodes in
    if node.id == id
    then (elim (mark_node l time weights node) [ none ↦ none | some n ↦ some (n ∷ nodes, true) ])
    else (elim rest [ none ↦ none | some (ns, b) ↦ some (node ∷ ns, b) ])

-- The two loops of a tick, one heartbeat after the other: the services that are registered, and the
-- heartbeats, whose services are marked. A heartbeat keeps its timestamp, since the loop writes to a
-- copy of it. `none` is a panic, which ends the goroutine.
unfoldable pub beat_all :
    (ℕ → String)
    → Limits
    → ℕ
    → List (String × Heartbeat)
    → Option (List Service × List (String × Heartbeat))
unfolding beat_nodes
beat_all format_int l now [] = some ([], [])
beat_all format_int l now ((key, hb) ∷ hbs) = elim (beat_all format_int l now hbs) [
  | none ↦ none
  | some (ss, rest) ↦
      if ltb (hb.timestamp + hb.ttl) now
      then (elim (beat_nodes l (format_int now) hb.weights hb.id hb.service.nodes) [
        | none ↦ none
        | some (nodes, b) ↦
            let service : Service = record (hb.service) { nodes = nodes } in
            some (if b then service ∷ ss else ss, (key, record hb { service = service }) ∷ rest)
      ])
      else some (ss, (key, hb) ∷ rest)
]

-- A tick of `heartbeat`; more than 1000 heartbeats are forgotten.
unfoldable pub tick :
    (ℕ → String)
    → Limits
    → ℕ
    → List (String × Heartbeat)
    → Option (List Service × List (String × Heartbeat))
unfolding beat_all
tick format_int l now hbs = elim (beat_all format_int l now hbs) [
  | none ↦ none
  | some (ss, hbs') ↦ some (ss, if ltb 1000 (length hbs) then [] else hbs')
]

-- The loop of `UpdateServiceWithoutSync` on one node.
unfoldable pub update_node : Limits → ℤ → Node → Option Node
unfolding new_status write
update_node l weights node =
    let status = new_status l weights (status_of node.metadata) in
    if status_of node.metadata == status
    then some node
    else (elim (write service_status status node.metadata) [
      | none ↦ none
      | some m ↦ some (record node { metadata = m })
    ])
