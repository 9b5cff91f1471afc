-- ===== src/Monitor/Beats.antt =====
-- What a heartbeat of monitor/os.go tells of a node.
use gocommon.Base.{
  ℕ, ◌+◌, ◌*◌, ◌≡◌, ◌<◌, refl, ◌∙◌, true, some, List, [], ◌∷◌, String, string_eq, ltb, ltb_ℤ,
  insert, lookup, lookup-insert, lookup-insert_self, same_refl, ℤ, pos, arith,
}
use gocommon.Registry.{Node, Service, read, write, service_status, normal_state}
use gocommon.Monitor.{
  Heartbeat, Limits, push_heart_beat, tick, beat_all, beat_nodes, mark_node, new_status, status_of,
}

-- The node that a heartbeat without weights makes of a node.
abbrev normal_node : String → List (String × String) → Node → Node
normal_node time m node = record node {
  metadata = some (insert service_status normal_state (insert "timestamp" time m));
}

mark_node-normal :
    (l : Limits) (time : String) (node : Node) (m : List (String × String))
    → node.metadata ≡ some m
    → ltb_ℤ (pos 0) l.down_limits ≡ true
    → mark_node l time (pos 0) node ≡ some (normal_node time m node)
unfolding mark_node write new_status
mark_node-normal l time node m d p = rw (d, p, mark_node, write, new_status) refl

beat_nodes-normal :
    (l : Limits) (time : String) (node : Node) (nodes : List Node) (m : List (String × String))
    → node.metadata ≡ some m
    → ltb_ℤ (pos 0) l.down_limits ≡ true
    → beat_nodes l time (pos 0) node.id (node ∷ nodes)
      ≡ some (normal_node time m node ∷ nodes, true)
unfolding beat_nodes
beat_nodes-normal l time node nodes m d p =
    rw (same_refl node.id, mark_node-normal l time node m d p) refl

-- After `PushHeartBeat` on a monitor without heartbeats, the next tick that is late enough registers
-- the service with its first node marked as normal, whatever weights were pushed, as long as the lower
-- limit is positive; the mark has the time of the tick, and the heartbeat stays due.
pub tick-push_heart_beat :
    (format_int : ℕ → String) (l : Limits) (interval now : ℕ) (weights : ℤ) (service : Service)
    (node : Node) (nodes : List Node) (m : List (String × String))
    → service.nodes ≡ node ∷ nodes
    → node.metadata ≡ some m
    → interval * 2 < now
    → ltb_ℤ (pos 0) l.down_limits ≡ true
    → (n : Node) × (hbs : List (String × Heartbeat)) × (hbs' : List (String × Heartbeat))
      × ((push_heart_beat interval service weights [] ≡ some hbs)
          × (tick format_int l now hbs ≡ some (record service { nodes = n ∷ nodes } ∷ [], hbs'))
          × (status_of n.metadata ≡ normal_state)
          × (read "timestamp" n.metadata ≡ some (format_int now)))
unfolding push_heart_beat tick beat_all read lookup insert
tick-push_heart_beat format_int l interval now weights service node nodes m s d t p =
    let hb : Heartbeat = record {
      id = node.id;
      service = service;
      timestamp = 0;
      ttl = interval * 2;
      weights = pos 0;
    } in
    let time = format_int now in
    let n : Node = normal_node time m node in
    let late : ltb (0 + interval * 2) now ≡ true = ground (arith, t) in
    (
      n,
      (node.id, hb) ∷ [],
      (node.id, record hb { service = record service { nodes = n ∷ nodes } }) ∷ [],
      (
        rw (s) refl,
        rw (tick, beat_all, late, s, beat_nodes-normal l time node nodes m d p) refl,
        rw
            (
              status_of,
              read,
              lookup-insert_self service_status normal_state (insert "timestamp" time m),
            )
            refl,
        lookup-insert service_status "timestamp" normal_state (insert "timestamp" time m)
            ∙ lookup-insert_self "timestamp" time m,
      ),
    )
