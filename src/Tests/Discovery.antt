-- ===== src/Tests/Discovery.antt =====
-- Tests of the registry in etcd, and its theorems at concrete inputs. The store is a list, the values
-- in it are names of nodes, and the client answers every call.
use Prim.Native.String
use gocommon.Base.{
  arith, ◌≡◌, ◌⊎◌, All, keep, ◌≤◌, refl, Option, none, some, List, [], ◌∷◌, String, string_eq, ◌==◌,
  if◌then◌else◌, lookup, insert, remove, lookup-insert, map, length, inr, true, false, pos,
}
use gocommon.Registry.{Node, Service, flatten}
use gocommon.Etcd.{
  EtcdClient, hashed, hash_panic, new_registry, node_path, replace_slashes, register_hash, register,
  get_service, WatchEvent, WatchResponse, event_service, event_action,
}
use gocommon.Registry.{service_status, delete_state}
use gocommon.Rcache.{
  Cache, found, not_found, cached, expiry_of, is_valid, update, get_service as get_cached,
}
use gocommon.Selector.{is_health_node, candidates}
use gocommon.Etcd.{next, reported}
use gocommon.Discovery.{NotReported, deleted_nodes_avoided}
use gocommon.Etcd.Registering.{Outcome, PutStores, register-Outcome}
use gocommon.Etcd.Reading.{of_version, decoded, get_service-nodes}
use gocommon.Etcd.Watching.{Reports, firsts, next-firsts}

abbrev Store : Type 0
Store = List (String × String)

abbrev etcd : EtcdClient String Store
etcd = record {
  put = λ k v lease w. (none, insert k v w);
  delete = λ k w. (none, remove k w);
  keep_alive_once = λ id w. (none, w);
  grant = λ ttl w. (inr 7, w);
  get = λ k w. (inr (map (λ (p : String × String). p.1) w), w);
  is_lease_not_found = λ e. e == "lease not found";
}

abbrev join : String → String → String
join a b = String.◌++◌ a (String.◌++◌ "/" b)

abbrev node : String → Node
node id = record { id = id; address = id; port = pos 80; metadata = none }

abbrev service : String → List Node → Service
service version nodes = record {
  name = "a/b";
  version = version;
  metadata = none;
  endpoints = [];
  nodes = nodes;
}

abbrev ids : List Node → String
ids [] = ""
ids (n ∷ ns) = String.◌++◌ n.id (ids ns)

abbrev encode : Service → String
encode s = ids s.nodes

abbrev decode : String → Option Service
decode v = if v == "" then none else some (service v (node v ∷ []))

-- A slash and a dash in a name give the same key.
same_key : node_path join "/r" "a/b" "1" ≡ node_path join "/r" "a-b" "1"
unfolding node_path replace_slashes
same_key = refl

-- A panic of the hash is no error of `Register`, which has stored nothing.
after_panic :
    register join "/r" etcd encode
      (λ s. hash_panic)
      (service "1" (node "x" ∷ []))
      (pos 0)
      new_registry
      []
    ≡ (none, new_registry, [])
unfolding register register_hash new_registry
after_panic = refl

put_stores : PutStores join "/r" etcd encode (λ k w. lookup k w)
put_stores k v lease w ok x = lookup-insert k x v w

abbrev two : Service
two = service "1" (node "x" ∷ node "y" ∷ [])

register-Outcome_example :
    Outcome join "/r" etcd encode
      (λ k w. lookup k w)
      two
      5
      new_registry
      (register join "/r" etcd encode (λ s. hashed 5) two (pos 1000000000) new_registry [])
unfolding node_path replace_slashes
register-Outcome_example =
    register-Outcome join "/r" etcd encode (λ k w. lookup k w) put_stores (λ s. hashed 5) two 5
      (pos 1000000000) new_registry [] refl ((refl, tt), (tt, tt))

abbrev in_etcd : Store
in_etcd = ("/r/a-b/z", "z") ∷ ("/r/a-b/y", "y") ∷ ("/r/a-b/x", "y") ∷ ("/r/a-b/w", "") ∷ []

get_service-nodes_example :
    (ss : List Service) × ((get_service decode join "/r" etcd "a/b" in_etcd).0 ≡ inr ss)
    × (flatten (of_version "y" ss)
        ≡ flatten (of_version "y" (decoded decode ("z" ∷ "y" ∷ "y" ∷ "" ∷ []))))
    × (length (of_version "y" ss) ≤ 1)
get_service-nodes_example =
    get_service-nodes decode join "/r" etcd "a/b" in_etcd ("z" ∷ "y" ∷ "y" ∷ "" ∷ []) "y" refl
      (λ e. cc)

abbrev put_event : String → WatchEvent
put_event v = record {
  is_delete = false;
  is_create = true;
  is_modify = false;
  value = v;
  prev_value = none;
}

abbrev response : List WatchEvent → WatchResponse String
response evs = record { err = none; events = evs }

abbrev delivered : List (WatchResponse String)
delivered =
    response (put_event "" ∷ put_event "x" ∷ put_event "y" ∷ [])
    ∷ response (put_event "z" ∷ [])
    ∷ []

-- The event of `y` is lost.
reported_once :
    firsts decode delivered
    ≡ record { action = "create"; service = decode "x" }
      ∷ record { action = "create"; service = decode "z" }
      ∷ []
unfolding event_service event_action
reported_once = refl

next-firsts_example : Reports decode delivered (firsts decode delivered)
unfolding event_service
next-firsts_example =
    next-firsts decode delivered (refl, (refl, tt))
      (((λ e. cc), ((λ e. cc), ((λ e. cc), tt))), (((λ e. cc), tt), tt))

abbrev live : String → Node
live id = record { id = id; address = id; port = pos 80; metadata = some [] }

abbrev marked : String → Node
marked id = record {
  id = id;
  address = id;
  port = pos 80;
  metadata = some ((service_status, delete_state) ∷ []);
}

abbrev holding : List Node → Cache
holding nodes = record {
  ttl = 100;
  cache = ("a/b", service "1" nodes ∷ []) ∷ [];
  ttls = ("a/b", 150) ∷ [];
  watched = [];
  exited = false;
}

abbrev deleted : WatchEvent
deleted = record {
  is_delete = true;
  is_create = false;
  is_modify = false;
  value = "";
  prev_value = some "y";
}

abbrev decode_live : String → Option Service
decode_live v = if v == "" then none else some (service "1" (live v ∷ []))

deleted_nodes_avoided_example :
    (next decode_live {E = String} (record { err = none; events = deleted ∷ [] } ∷ [])
      ≡ reported (record { action = "delete"; service = decode_live "y" }) [])
    × ((ss : List Service) × ((get_cached {E = String} 200 not_found "a/b"
            (holding (live "x" ∷ marked "y" ∷ []))).0
          ≡ found ss)
        × ((keep (is_health_node (λ t. pos 0) 5) (flatten ss) ≡ [])
            ⊎ All (NotReported (live "y" ∷ [])) (candidates (λ t. pos 0) 5 ss)))
unfolding update cached expiry_of lookup is_valid
deleted_nodes_avoided_example =
    deleted_nodes_avoided (λ t. pos 0) decode_live deleted [] [] "y" (service "1" (live "y" ∷ []))
      (service "1" (live "x" ∷ live "y" ∷ []) ∷ []) (holding (live "x" ∷ live "y" ∷ []))
      (holding (live "x" ∷ marked "y" ∷ [])) 5 200 not_found refl refl refl (omega arith)
      ((λ e. cc), tt) refl refl (refl, tt) refl
