-- ===== src/Tests/Connections.antt =====
-- Runs of the pool of connections.
use gocommon.Base.{◌≡◌, refl, some, [], ◌∷◌, pos, lookup, string_eq}
use gocommon.Transport.{PoolConn, ConnPool, conns_of, is_old, get, take_conn}
use gocommon.Transport.Reuse.{Split, IsBounded, get-Split}

abbrev young : PoolConn
young = record { id = "y"; remote = "host:1"; created = 90 }

abbrev aged : PoolConn
aged = record { id = "a"; remote = "host:1"; created = 10 }

abbrev two_idle : ConnPool
two_idle = record { size = pos 2; ttl = 50; conns = ("host:1", young ∷ aged ∷ []) ∷ [] }

abbrev none_idle : ConnPool
none_idle = record { size = pos 2; ttl = 50; conns = [] }

get_run : (get 100 "host:1" two_idle).0 ≡ some young
unfolding get take_conn conns_of is_old lookup
get_run = refl

get-Split_example : Split 100 50 (conns_of "host:1" two_idle) (
  (get 100 "host:1" two_idle).0,
  conns_of "host:1" (get 100 "host:1" two_idle).2,
  (get 100 "host:1" two_idle).1,
)
get-Split_example = get-Split 100 "host:1" two_idle

none_idle-IsBounded : IsBounded none_idle
unfolding conns_of lookup
none_idle-IsBounded addr = refl
