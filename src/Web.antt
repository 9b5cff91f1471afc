-- ===== src/Web.antt =====
-- web/roundshardtripper.go: the choice of the node to which a request goes. The transport, the
-- strategy's function and the registry's `Deregister` are parameters, on a world `W`.
pub mod Shards
use gocommon.Base.{
  ℕ, zero, suc, ◌⊎◌, inl, inr, Bool, true, false, not, ◌&&◌, Option, none, some, List, [], ◌∷◌,
  ◌++◌, String, string_eq, int_eq, nat_eq, ◌==◌, if◌then◌else◌, length, ℤ,
}
use gocommon.Registry.{Node, Service, read}
use gocommon.Selector.{Selected, failed, selected}

-- `node.Metadata[tag]`
abbrev pub tag_of : String → Node → String
tag_of tag node = elim (read tag node.metadata) [ none ↦ "" | some v ↦ v ]

-- The loops of `RoundTrip` over the nodes, which do not stop at the first node that fits.
unfoldable pub tagged_node : String → String → List Node → Option Node → Option Node
tagged_node tag server_id [] found = found
tagged_node tag server_id (node ∷ nodes) found =
    tagged_node tag server_id nodes (if tag_of tag node == server_id then some node else found)

unfoldable pub tagged_service : String → String → List Service → Option Node → Option Node
unfolding tagged_node
tagged_service tag server_id [] found = found
tagged_service tag server_id (s ∷ ss) found =
    tagged_service tag server_id ss (tagged_node tag server_id s.nodes found)

-- What `deRegisterNode` gives to `Deregister` for one service.
abbrev pub service_node : Service → Node → Service
service_node service node = record {
  name = service.name;
  version = service.version;
  metadata = none;
  endpoints = [];
  nodes = node ∷ [];
}

-- The inner loop of `deRegisterNode`. Its variable hides the parameter of the same name, so the test
-- compares each node with itself.
unfoldable pub deregister_service : Service → Node → List Node → List Service
deregister_service service failing [] = []
deregister_service service failing (node ∷ nodes) =
    if node.address == node.address && node.port == node.port
    then service_node service failing ∷ []
    else deregister_service service failing nodes

-- `deRegisterNode`: what it gives to `Deregister`, in order.
unfoldable pub deregister_node : List Service → Node → List Service
unfolding deregister_service
deregister_node [] failing = []
deregister_node (s ∷ ss) failing =
    deregister_service s failing s.nodes ++ deregister_node ss failing

-- How a request ends: with a response and the node's tag for its header, or with an error.
pub data Trip (R : Type 0) : Type 0 where
  answered : R → String → Trip R
  no_node : Trip R
  no_answer : Trip R

module _ {R W : Type 0} (rt : Node → W → Option R × W) (next : W → Selected (Option Node) × W)
    (deregister : Service → W → W) where
  unfoldable pub deregister_all : List Service → W → W
  deregister_all [] w = w
  deregister_all (s ∷ ss) w = deregister_all ss (deregister s w)

  -- `roundTrip`, with the tries that are left.
  unfoldable pub round_trip_from : String → List Service → ℕ → W → Trip R × W
  unfolding deregister_all deregister_node
  round_trip_from tag services zero w = (no_answer, w)
  round_trip_from tag services (suc tries) w =
      let (chosen, w1) = next w in
      elim chosen [
        | failed e ↦ round_trip_from tag services tries w1
        | selected none ↦ (no_node, w1)
        | selected (some node) ↦
            let (answer, w2) = rt node w1 in
            elim answer [
              | some r ↦ (answered r (tag_of tag node), w2)
              | none ↦
                  round_trip_from tag services tries
                    (deregister_all (deregister_node services node) w2)
            ]
      ]

  unfoldable pub round_trip : String → List Service → W → Trip R × W
  unfolding round_trip_from
  round_trip tag services w = round_trip_from tag services 3 w

  -- `RoundTrip`, on the services of the cache or its error, and the values of the destination header.
  unfoldable pub route :
      {E : Type 0} → String → E ⊎ List Service → List String → W → (E ⊎ Trip R) × W
  unfolding round_trip tagged_service
  route tag (inl e) destinations w = (inl e, w)
  route tag (inr services) [] w = let (t, w') = round_trip tag services w in (inr t, w')
  route tag (inr services) (server_id ∷ _) w =
      let (t, w') = round_trip tag services w in
      elim (tagged_service tag server_id services none) [
        | none ↦ (inr t, w')
        | some node ↦
            let (answer, w1) = rt node w in
            if server_id == "" then (inr t, w') else (elim answer [
              | some r ↦ (inr (answered r (tag_of tag node)), w1)
              | none ↦ (inr no_answer, w1)
            ])
      ]
