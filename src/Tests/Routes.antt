-- ===== src/Tests/Routes.antt =====
-- Tests of heartbeats and of the routes of requests, and their theorems at concrete inputs.
use gocommon.Base.{◌≡◌, none, some, List, [], ◌∷◌, String, string_eq, nat_eq, keep, pos}
use gocommon.Registry.{Node, Service, flatten}
use gocommon.Monitor.{Limits}
use gocommon.Web.{service_node, deregister_node, tagged_service}
use gocommon.Web.Shards.{last_or, has_tag, deregister_node-map, tagged_service-last}

abbrev node_of : String → String → Node
node_of id tag = record {
  id = id;
  address = id;
  port = pos 80;
  metadata = some (("tag", tag) ∷ []);
}

abbrev service_of : String → List Node → Service
service_of name nodes = record {
  name = name;
  version = "1";
  metadata = none;
  endpoints = [];
  nodes = nodes;
}

abbrev limits : Limits
limits = record { up_limits = pos 90; down_limits = pos 70 }

abbrev busy : Service
busy = service_of "busy" (node_of "n1" "a" ∷ node_of "n2" "b" ∷ [])

-- "other" has no node "n1", and loses it all the same.
abbrev two_services : List Service
two_services = busy ∷ service_of "other" (node_of "n3" "b" ∷ []) ∷ service_of "none" [] ∷ []

deregister_node-map_example :
    deregister_node two_services (node_of "n1" "a")
    ≡ service_node busy (node_of "n1" "a")
      ∷ service_node (service_of "other" (node_of "n3" "b" ∷ [])) (node_of "n1" "a")
      ∷ []
deregister_node-map_example = deregister_node-map (node_of "n1" "a") two_services

tagged_service-last_example :
    tagged_service "tag" "b" two_services none
    ≡ last_or none (keep (has_tag "tag" "b") (flatten two_services))
tagged_service-last_example = tagged_service-last "tag" "b" two_services none
