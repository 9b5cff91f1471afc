-- ===== src/Transport.antt =====
-- transport/pool/default.go: idle connections, kept for each remote address. A time is in
-- nanoseconds. Dialing is the transport's business: its answer is an argument.
pub mod Memory
pub mod Reuse
use gocommon.Base.{
  ℕ, zero, suc, ◌+◌, Bool, true, false, Option, none, some, List, [], ◌∷◌, ◌++◌, String, string_eq,
  if◌then◌else◌, ltb, leb_ℤ, ℤ, pos, length, get_elem?, take, lookup, insert,
}

-- `poolConn`, with the address that `Remote` gives.
pub record PoolConn : Type 0 where
  pub id : String
  pub remote : String
  pub created : ℕ

pub record ConnPool : Type 0 where
  pub size : ℤ
  pub ttl : ℕ
  pub conns : List (String × List PoolConn)

unfoldable pub new_pool : ℤ → ℕ → ConnPool
new_pool size ttl = record { size = size; ttl = ttl; conns = [] }

-- `p.conns[addr]`
unfoldable pub conns_of : String → ConnPool → List PoolConn
unfolding lookup
conns_of addr p = elim (lookup addr p.conns) [ none ↦ [] | some cs ↦ cs ]

unfoldable pub is_old : ℕ → ℕ → PoolConn → Bool
is_old now ttl c = ltb (c.created + ttl) now

-- The loop of `Get` where `n` connections are left: the connection that it returns, if it finds
-- one, those that it leaves, and those that it closes, the last one first.
unfoldable pub take_conn :
    ℕ → ℕ → List PoolConn → ℕ → Option PoolConn × List PoolConn × List PoolConn
unfolding is_old
take_conn now ttl conns zero = (none, take 0 conns, [])
take_conn now ttl conns (suc n) =
    let (found, left, closed) = take_conn now ttl conns n in
    elim (get_elem? conns n) [
      | none ↦ (none, take n conns, [])
      | some c ↦ if is_old now ttl c then (found, left, c ∷ closed) else (some c, take n conns, [])
    ]

-- `Get` up to the dialing, which follows if it finds no connection.
unfoldable pub get : ℕ → String → ConnPool → Option PoolConn × List PoolConn × ConnPool
unfolding take_conn conns_of insert
get now addr p =
    let cs = conns_of addr p in
    let (found, left, closed) = take_conn now p.ttl cs (length cs) in
    (found, closed, if ltb 0 (length cs) then record p { conns = insert addr left p.conns } else p)

-- `Release`: whether it closes the connection, and the pool.
unfoldable pub release : Bool → PoolConn → ConnPool → Bool × ConnPool
unfolding conns_of insert
release failed conn p =
    let cs = conns_of conn.remote p in
    if failed
    then (true, p)
    else if leb_ℤ p.size (pos (length cs))
    then (true, p)
    else (false, record p { conns = insert conn.remote (cs ++ conn ∷ []) p.conns })

-- `Close`: the connections that it closes, and the pool.
unfoldable pub close_all : List (String × List PoolConn) → List PoolConn
close_all [] = []
close_all ((addr, cs) ∷ m) = cs ++ close_all m

unfoldable pub close : ConnPool → List PoolConn × ConnPool
unfolding close_all
close p = (close_all p.conns, record p { conns = [] })
