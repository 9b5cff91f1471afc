-- ===== src/Etcd/Reading.antt =====
-- What `GetService` of registry/etcdv3.go makes of the descriptions in etcd.
use gocommon.Base.{
  ◌≡◌, ◌≢◌, ◌≤◌, nat_eq, length, refl, ap, sym, ◌∙◌, false, Option, none, some, List, [], ◌∷◌, ◌++◌,
  append-nil, append_assoc, String, string_eq, ◌==◌, if◌then◌else◌, keep, map, lookup, insert,
  lookup-same, if_cases, subst, lookup-insert, IsMap, IsMap-insert, All, Option-cases, Bool-cases,
  inl, inr, same_comm, arith,
}
use gocommon.Registry.{Service, Node, flatten}
use gocommon.Etcd.{EtcdClient, service_path, add_service, service_map, get_service}
use Prim.Native.String

-- The descriptions that can be decoded, in order.
abbrev pub decoded : (String → Option Service) → List String → List Service
decoded decode [] = []
decoded decode (v ∷ vs) = elim (decode v) [
  | none ↦ decoded decode vs
  | some s ↦ s ∷ decoded decode vs
]

-- The services of a version, and their nodes.
abbrev pub of_version : String → List Service → List Service
of_version v ss = keep (λ (s : Service). s.version == v) ss

abbrev nodes_of : Option Service → List Node
nodes_of none = []
nodes_of (some s) = s.nodes

abbrev nodes_at : String → List (String × Service) → List Node
nodes_at v m = nodes_of (lookup v m)

nodes_at-insert :
    (v k : String) (s : Service) (m : List (String × Service))
    → nodes_at v (insert k s m) ≡ (if v == k then s.nodes else nodes_at v m)
nodes_at-insert v k s m = elim (Bool-cases (v == k)) [
  | inl t ↦ ground (arith, lookup-insert k v s m, t)
  | inr f ↦ ground (arith, lookup-insert k v s m, f)
]

add_service-nodes :
    (v : String) (sn : Service) (m : List (String × Service))
    → nodes_at v (add_service sn m)
      ≡ (if v == sn.version then nodes_at sn.version m ++ sn.nodes else nodes_at v m)
unfolding add_service
add_service-nodes v sn m = elim (Option-cases (lookup sn.version m)) [
  | inl n ↦ rw n (nodes_at-insert v sn.version (record sn { nodes = sn.nodes }) m)
  | inr (old, e) ↦
      rw e (nodes_at-insert v sn.version (record old { nodes = old.nodes ++ sn.nodes }) m)
]

-- The keys of the map are the versions of its services.
abbrev Versioned : List (String × Service) → Type 0
Versioned m = All (λ (p : String × Service). p.1.version ≡ p.0) m

Versioned-lookup :
    (v : String) (m : List (String × Service)) (s : Service)
    → Versioned m
    → lookup v m ≡ some s
    → s.version ≡ v
unfolding lookup
Versioned-lookup v [] s h e = cc
Versioned-lookup v ((k, s') ∷ m) s h e = elim (Bool-cases (v == k)) [
  | inl t ↦ ground (arith, e, t, h.0, string_eq.same_iff v k)
  | inr f ↦ Versioned-lookup v m s h.1 (ground (arith, e, f))
]

Versioned-insert :
    (s : Service) (m : List (String × Service)) → Versioned m → Versioned (insert s.version s m)
unfolding insert
Versioned-insert s [] h = (refl, tt)
Versioned-insert s ((k, s') ∷ m) h =
    if_cases Versioned (s.version == k) _ _ (λ t. ((string_eq.same_iff s.version k).0 t, h.1))
      (λ f. (h.0, Versioned-insert s m h.1))

add_service-Versioned :
    (sn : Service) (m : List (String × Service)) → Versioned m → Versioned (add_service sn m)
unfolding add_service
add_service-Versioned sn m h = elim (Option-cases (lookup sn.version m)) [
  | inl n ↦ rw n (Versioned-insert (record sn { nodes = sn.nodes }) m h)
  | inr (s, e) ↦ rw e (
      subst (λ v. Versioned (insert v (record s { nodes = s.nodes ++ sn.nodes }) m))
        (Versioned-lookup sn.version m s h e)
        (Versioned-insert (record s { nodes = s.nodes ++ sn.nodes }) m h))
]

-- One service for a version, with the nodes that the map has for it.
Versioned-nodes :
    (v : String) (m : List (String × Service))
    → Versioned m
    → IsMap m
    → of_version v (map (λ (p : String × Service). p.1) m)
      ≡ elim (lookup v m) [ none ↦ [] | some s ↦ s ∷ [] ]
unfolding lookup
Versioned-nodes v [] h i = refl
Versioned-nodes v ((k, s) ∷ m) h i = elim (Bool-cases (v == k)) [
  | inl t ↦ rw (h.0, same_comm k v, t, Versioned-nodes v m h.1 i.1, lookup-same v k m t, i.0) refl
  | inr f ↦ rw (h.0, same_comm k v, f) (Versioned-nodes v m h.1 i.1)
]

module _ (decode : String → Option Service) where
  service_map-nodes :
      (v : String) (vs : List String) (m : List (String × Service))
      → nodes_at v (service_map decode vs m)
        ≡ nodes_at v m ++ flatten (of_version v (decoded decode vs))
  unfolding service_map flatten
  service_map-nodes v [] m = sym (append-nil (nodes_at v m))
  service_map-nodes v (x ∷ vs) m = elim (Option-cases (decode x)) [
    | inl n ↦ rw (n, decoded) (service_map-nodes v vs m)
    | inr (sn, e) ↦
        rw (e, decoded)
          (service_map-nodes v vs (add_service sn m)
            ∙ rw (add_service-nodes v sn m) (elim (Bool-cases (v == sn.version)) [
              | inl t ↦
                  rw
                    (same_comm sn.version v, t, ap (λ o. nodes_of o) (lookup-same v sn.version m t))
                    (append_assoc (nodes_at sn.version m) sn.nodes _)
              | inr f ↦ rw (same_comm sn.version v, f) refl
            ]))
  ]

  service_map-IsMap :
      (vs : List String) (m : List (String × Service))
      → Versioned m
      → IsMap m
      → Versioned (service_map decode vs m) × IsMap (service_map decode vs m)
  unfolding service_map add_service
  service_map-IsMap [] m h i = (h, i)
  service_map-IsMap (x ∷ vs) m h i = elim (Option-cases (decode x)) [
    | inl n ↦ rw n (service_map-IsMap vs m h i)
    | inr (sn, e) ↦ rw e (
        service_map-IsMap vs (add_service sn m) (add_service-Versioned sn m h)
          (IsMap-insert sn.version _ m i))
  ]

  one_or_none :
      (o : Option Service)
      → (flatten (elim o [ none ↦ [] | some s ↦ s ∷ [] ]) ≡ nodes_of o)
        × (length (elim o as (λ _. List Service) [ none ↦ [] | some s ↦ s ∷ [] ]) ≤ 1)
  unfolding flatten
  one_or_none none = (refl, omega arith)
  one_or_none (some s) = (append-nil s.nodes, omega arith)

  -- Where etcd has descriptions for a name, `GetService` finds services: for each version at most
  -- one, and its nodes are those of all the descriptions of the version that can be decoded, in
  -- order.
  pub get_service-nodes :
      {E W : Type 0} (join : String → String → String) (prefix : String) (client : EtcdClient E W)
      (name : String) (w : W) (vs : List String) (v : String)
      → (client.get (String.◌++◌ (service_path join prefix name) "/") w).0 ≡ inr vs
      → length vs ≢ 0
      → (ss : List Service) × ((get_service decode join prefix client name w).0 ≡ inr ss)
        × (flatten (of_version v ss) ≡ flatten (of_version v (decoded decode vs)))
        × (length (of_version v ss) ≤ 1)
  unfolding get_service
  get_service-nodes join prefix client name w vs v got ne =
      let m = service_map decode vs [] in
      let (h, i) = service_map-IsMap vs [] tt tt in
      let z : (length vs == 0) ≡ false = ground (arith, ne) in
      let one = Versioned-nodes v m h i in
      let (nodes, few) = one_or_none (lookup v m) in
      (
        map (λ (p : String × Service). p.1) m,
        rw (got, z) refl,
        ap flatten one ∙ nodes ∙ service_map-nodes v vs [],
        subst (λ ss. length ss ≤ 1) (sym one) few,
      )
