-- ===== src/Etcd/Registering.antt =====
-- What `Register` of registry/etcdv3.go leaves in etcd and in its maps.
use gocommon.Base.{
  ℕ, pos_part, ◌/◌, ◌≡◌, ◌≢◌, refl, ap, sym, ◌∙◌, Bool, true, false, ◌&&◌, not, Option, none, some,
  List, [], ◌∷◌, String, string_eq, nat_eq, ◌==◌, if◌then◌else◌, length, lookup, lookup-insert_self,
  All, Option-cases, inl, inr, same_refl, subst, ◌⊎◌, if_cases, if_both, ltb_ℤ, arith, ℤ, pos,
}
use gocommon.Registry.{Service, Node}
use gocommon.Etcd.{
  EtcdRegistry, EtcdClient, Hashed, hashed, RegistryError, client_error, node_path, one_node,
  put_nodes, store, register_hash, register,
}

module _ (join : String → String → String) (prefix : String) {E W : Type 0}
    (client : EtcdClient E W) (encode : Service → String) where
  -- The keys of the nodes differ.
  abbrev pub Distinct : String → List Node → Type 0
  Distinct name [] = Unit
  Distinct name (n ∷ ns) =
      All
        (λ (m : Node). (node_path join prefix name n.id == node_path join prefix name m.id) ≡ false)
        ns
      × Distinct name ns

  -- What a successful `Put` does: `value_of` reads the value of a key.
  abbrev pub PutStores : (String → W → Option String) → Type 0
  PutStores value_of =
      (k v : String) (lease : Option ℕ) (w : W)
      → (client.put k v lease w).0 ≡ none
      → (x : String)
      → value_of x (client.put k v lease w).1 ≡ (if x == k then some v else value_of x w)

  -- Each node's key holds the description of that node.
  abbrev pub Stored : (String → W → Option String) → Service → W → List Node → Type 0
  Stored value_of s w ns =
      All
        (λ (n : Node).
          value_of (node_path join prefix s.name n.id) w
          ≡ some (encode (one_node join prefix client encode s n)))
        ns

  -- The first `Put` of the loop, and the rest of it.
  put_nodes-cons :
      (s : Service) (lease : Option ℕ) (n : Node) (ns : List Node) (w : W)
      → (put_nodes join prefix client encode s lease (n ∷ ns) w).0 ≡ none
      → let head =
          client.put
            (node_path join prefix s.name n.id)
            (encode (one_node join prefix client encode s n))
            lease
            w in
        (head.0 ≡ none)
        × ((put_nodes join prefix client encode s lease ns head.1).0 ≡ none)
        × (put_nodes join prefix client encode s lease (n ∷ ns) w
            ≡ put_nodes join prefix client encode s lease ns head.1)
  unfolding put_nodes
  put_nodes-cons s lease n ns w h =
      let head =
        client.put (node_path join prefix s.name n.id)
          (encode (one_node join prefix client encode s n)) lease w in
      elim (Option-cases head.0) [ inl e ↦ (e, rw e at h, rw e refl) | inr (x, e) ↦ cc (rw e at h) ]

  put_nodes-other :
      (value_of : String → W → Option String)
      → PutStores value_of
      → (s : Service) (lease : Option ℕ) (ns : List Node) (w : W) (x : String)
      → All (λ (m : Node). (x == node_path join prefix s.name m.id) ≡ false) ns
      → (put_nodes join prefix client encode s lease ns w).0 ≡ none
      → value_of x (put_nodes join prefix client encode s lease ns w).1 ≡ value_of x w
  put_nodes-other value_of law s lease [] w x d h = unfold put_nodes in refl
  put_nodes-other value_of law s lease (n ∷ ns) w x d h =
      let key = node_path join prefix s.name n.id in
      let v = encode (one_node join prefix client encode s n) in
      let (ok, rest, same) = put_nodes-cons s lease n ns w h in
      ap (λ p. value_of x p.1) same
      ∙ put_nodes-other value_of law s lease ns (client.put key v lease w).1 x d.1 rest
      ∙ law key v lease w ok x
      ∙ rw d.0 refl

  put_nodes-Stored :
      (value_of : String → W → Option String)
      → PutStores value_of
      → (s : Service) (lease : Option ℕ) (ns : List Node) (w : W) → Distinct s.name ns
      → (put_nodes join prefix client encode s lease ns w).0 ≡ none
      → Stored value_of s (put_nodes join prefix client encode s lease ns w).1 ns
  put_nodes-Stored value_of law s lease [] w d h = tt
  put_nodes-Stored value_of law s lease (n ∷ ns) w d h =
      let key = node_path join prefix s.name n.id in
      let v = encode (one_node join prefix client encode s n) in
      let (ok, rest, same) = put_nodes-cons s lease n ns w h in
      subst (λ p. Stored value_of s p.1 (n ∷ ns)) (sym same)
        (
          put_nodes-other value_of law s lease ns (client.put key v lease w).1 key d.0 rest
              ∙ law key v lease w ok key
              ∙ rw (same_refl key) refl,
          put_nodes-Stored value_of law s lease ns (client.put key v lease w).1 d.1 rest,
        )

  -- What `store` answers and leaves.
  store-Stored :
      (value_of : String → W → Option String)
      → PutStores value_of
      → (s : Service) (h : ℕ) (lease : Option ℕ) (r : EtcdRegistry) (w : W)
      → Distinct s.name s.nodes
      → let (e, r', w') = store join prefix client encode s h lease r w in
        ((e ≡ none) × Stored value_of s w' s.nodes × (lookup s.name r'.register ≡ some h))
        ⊎ ((x : E) × (e ≡ some (client_error x)) × (r' ≡ r))
  unfolding store
  store-Stored value_of law s h lease r w d =
      let run = put_nodes join prefix client encode s lease s.nodes w in
      elim (Option-cases run.0) [
        | inl e ↦ rw e (
            inl (
              refl,
              put_nodes-Stored value_of law s lease s.nodes w d e,
              lookup-insert_self s.name h r.register,
            ))
        | inr (x, e) ↦ rw e (inr (x, refl, refl))
      ]

  -- Either an error, and the maps are as they were; or the hash is in the map, and each node is in
  -- etcd or the hash was there before.
  abbrev pub Outcome :
      (String → W → Option String)
      → Service
      → ℕ
      → EtcdRegistry
      → Option (RegistryError E) × EtcdRegistry × W
      → Type 0
  Outcome value_of s h r (e, r', w') =
      ((e ≢ none) × (r' ≡ r))
      ⊎ ((e ≡ none)
          × (lookup s.name r'.register ≡ some h)
          × (Stored value_of s w' s.nodes ⊎ ((lookup s.name r.register ≡ some h) × (r' ≡ r))))

  store-Outcome :
      (value_of : String → W → Option String)
      → PutStores value_of
      → (s : Service) (h : ℕ) (lease : Option ℕ) (r : EtcdRegistry) (w : W)
      → Distinct s.name s.nodes
      → Outcome value_of s h r (store join prefix client encode s h lease r w)
  store-Outcome value_of law s h lease r w d = elim (store-Stored value_of law s h lease r w d) [
    | inl (e, stored, known) ↦ inr (e, known, inl stored)
    | inr (x, e, same) ↦ inl ((λ n. cc), same)
  ]

  granted-Outcome :
      (value_of : String → W → Option String)
      → PutStores value_of
      → (s : Service) (h : ℕ) (r : EtcdRegistry) (granted : E ⊎ ℕ) (w : W) → Distinct s.name s.nodes
      → Outcome value_of s h r (elim granted [
        | inl e ↦ (some (client_error e), r, w)
        | inr id ↦ store join prefix client encode s h (some id) r w
      ])
  granted-Outcome value_of law s h r (inl e) w d = inl ((λ n. cc), refl)
  granted-Outcome value_of law s h r (inr id) w d = store-Outcome value_of law s h (some id) r w d

  register_hash-Outcome :
      (value_of : String → W → Option String)
      → PutStores value_of
      → (s : Service) (h : ℕ) (gone : Bool) (ttl : ℤ) (r : EtcdRegistry) (w : W)
      → Distinct s.name s.nodes
      → Outcome value_of s h r (register_hash join prefix client encode (hashed h) gone s ttl r w)
  unfolding register_hash
  register_hash-Outcome value_of law s h gone ttl r w d =
      let unchanged : Bool = elim (lookup s.name r.register) [ none ↦ false | some v ↦ v == h ] in
      if_cases {A = Option (RegistryError E) × EtcdRegistry × W} (Outcome value_of s h r)
        (unchanged && not gone) _ _
        (λ e.
          let known : lookup s.name r.register ≡ some h = ground (arith, e) in
          inr (refl, known, inr (known, refl)))
        (λ e.
          if_both {A = Option (RegistryError E) × EtcdRegistry × W} (Outcome value_of s h r)
            (ltb_ℤ (pos 0) ttl) _ _
            (granted-Outcome value_of law s h r (client.grant (pos_part ttl / 1000000000) w).0
              (client.grant (pos_part ttl / 1000000000) w).1 d)
            (store-Outcome value_of law s h none r w d))

  -- Where the service has a hash, a successful `Put` stores its value, and the keys of the nodes
  -- differ: `Register` fails and leaves its maps as they were, so that the next call tries again; or
  -- it keeps the hash, and each node is in etcd, unless the hash was there before, in which case it
  -- leaves the maps as they were.
  pub register-Outcome :
      (value_of : String → W → Option String)
      → PutStores value_of
      → (hash : Service → Hashed E) (s : Service) (h : ℕ) (ttl : ℤ) (r : EtcdRegistry) (w : W)
      → hash s ≡ hashed h
      → Distinct s.name s.nodes
      → Outcome value_of s h r (register join prefix client encode hash s ttl r w)
  unfolding register
  register-Outcome value_of law hash s h ttl r w k d =
      if_both {A = Option (RegistryError E) × EtcdRegistry × W} (Outcome value_of s h r)
        (length s.nodes == 0) _ _ (inl ((λ n. cc), refl))
        (elim (Option-cases (lookup s.name r.leases)) [
          | inl n ↦ rw (n, k) (register_hash-Outcome value_of law s h false ttl r w d)
          | inr (id, n) ↦ rw n (
              let run = client.keep_alive_once id w in
              elim (Option-cases run.0) [
                | inl ok ↦ rw (ok, k) (register_hash-Outcome value_of law s h false ttl r run.1 d)
                | inr (x, bad) ↦
                    rw (bad, k)
                      (if_both {A = Option (RegistryError E) × EtcdRegistry × W}
                        (Outcome value_of s h r) (client.is_lease_not_found x) _ _
                        (register_hash-Outcome value_of law s h true ttl r run.1 d)
                        (inl ((λ n. cc), refl)))
              ])
        ])
