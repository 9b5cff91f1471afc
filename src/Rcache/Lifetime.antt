-- ===== src/Rcache/Lifetime.antt =====
-- How long rcache/rcache.go answers from the cache.
use gocommon.Base.{
  ℕ, ◌+◌, ◌*◌, ◌≤◌, ◌≡◌, ◌≢◌, ◌↔◌, refl, ap, true, List, [], ◌∷◌, String, string_eq, arith,
  lookup-insert_self, nat_eq,
}
use gocommon.Registry.{Service, Node, Endpoint}
use gocommon.Rcache.{
  Cache, found, registry_error, is_valid, cp, cp_nodes, cp_endpoints, set, cached, expiry_of, get,
  get_service,
}

cp_nodes-same : (ns : List Node) → cp_nodes ns ≡ ns
unfolding cp_nodes
cp_nodes-same [] = refl
cp_nodes-same (n ∷ ns) = ap (λ l. n ∷ l) (cp_nodes-same ns)

cp_endpoints-same : (es : List Endpoint) → cp_endpoints es ≡ es
unfolding cp_endpoints
cp_endpoints-same [] = refl
cp_endpoints-same (e ∷ es) = ap (λ l. e ∷ l) (cp_endpoints-same es)

-- A copy has the contents of what it copies.
pub cp-same : (ss : List Service) → cp ss ≡ ss
unfolding cp
cp-same [] = refl
cp-same (s ∷ ss) = rw (cp_nodes-same s.nodes, cp_endpoints-same s.endpoints, cp-same ss)

cached-set :
    (now : ℕ) (name : String) (ss : List Service) (c : Cache) → cached name (set now name ss c) ≡ ss
unfolding cached set
cached-set now name ss c = rw (lookup-insert_self name ss c.cache, cached, set)

expiry_of-set :
    (now : ℕ) (name : String) (ss : List Service) (c : Cache)
    → expiry_of name (set now name ss c) ≡ now + c.ttl
unfolding expiry_of set
expiry_of-set now name ss c = rw (lookup-insert_self name (now + c.ttl) c.ttls, expiry_of, set)

valid_until :
    (later now ttl : ℕ) (s : Service) (ss : List Service)
    → now ≢ 0
    → (is_valid later ttl (s ∷ ss) (now + ttl) ≡ true) ↔ (later ≤ now + 2 * ttl)
unfolding is_valid set
valid_until later now ttl s ss ne = ground arith

-- What is stored at the time `now`, some time after the zero time, is valid until twice the TTL has
-- passed, and no longer.
pub is_valid-set :
    (now later : ℕ) (name : String) (s : Service) (ss : List Service) (c : Cache)
    → now ≢ 0
    → let c' = set now name (s ∷ ss) c in
      (is_valid later c'.ttl (cached name c') (expiry_of name c') ≡ true)
      ↔ (later ≤ now + 2 * c.ttl)
unfolding is_valid set
is_valid-set now later name s ss c ne =
    rw (cached-set now name (s ∷ ss) c, expiry_of-set now name (s ∷ ss) c)
      (valid_until later now c.ttl s ss ne)

-- While the registry fails, a name for which services are cached, however old, is answered from
-- the cache, and the cache stays as it is.
pub get_service_survives :
    {E : Type 0} (now : ℕ) (e : E) (name : String) (s : Service) (ss : List Service) (c : Cache)
    → cached name c ≡ s ∷ ss
    → ((get_service now (registry_error e) name c).0 ≡ found (s ∷ ss))
      × ((get_service now (registry_error e) name c).2 ≡ c)
unfolding get_service get is_valid
get_service_survives now e name s ss c h = ground (arith, h, cp-same (cached name c))
