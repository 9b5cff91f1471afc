-- ===== src/Registry.antt =====
-- registry/base.go: the description of a service, and what a watcher reports (registry/watcher.go).
use gocommon.Base.{ℕ, Option, none, some, List, [], ◌∷◌, ◌++◌, String, string_eq, lookup, insert, ℤ}

-- A map of strings that may be nil.
abbrev pub Metadata : Type 0
Metadata = Option (List (String × String))

-- A read of a nil map finds nothing.
unfoldable pub read : String → Metadata → Option String
read key none = none
read key (some m) = lookup key m

-- A write to a nil map panics.
unfoldable pub write : String → String → Metadata → Option Metadata
write key v none = none
write key v (some m) = some (some (insert key v m))

-- `Value`, and a list of them.
mutual
  pub data Value : Type 0 where
    value : String → String → Values → Value

  pub data Values : Type 0 where
    no_values : Values
    more_values : Value → Values → Values

pub record Endpoint : Type 0 where
  pub name : String
  pub request : Option Value
  pub response : Option Value
  pub metadata : Metadata

pub record Node : Type 0 where
  pub id : String
  pub address : String
  pub port : ℤ
  pub metadata : Metadata

pub record Service : Type 0 where
  pub name : String
  pub version : String
  pub metadata : Metadata
  pub endpoints : List Endpoint
  pub nodes : List Node

-- `Action` is a string.
pub record WatchResult : Type 0 where
  pub action : String
  pub service : Option Service

-- The nodes of all services, in order.
unfoldable pub flatten : List Service → List Node
flatten [] = []
flatten (s ∷ ss) = s.nodes ++ flatten ss

-- The values that monitor/common.go has for the state of a node.
abbrev pub service_status : String
service_status = "ServiceStatus"

abbrev pub normal_state : String
normal_state = "normal"

abbrev pub delete_state : String
delete_state = "deleted"

-- `HeartBeatTTL`, in seconds
abbrev pub heart_beat_ttl : ℕ
heart_beat_ttl = 60
