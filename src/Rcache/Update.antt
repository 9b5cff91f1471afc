-- ===== src/Rcache/Update.antt =====
-- What a report of a watcher does to the services that rcache/rcache.go holds.
use gocommon.Base.{
  ℕ, ◌≡◌, ◌≢◌, ◌⊎◌, refl, subst, sym, inl, inr, true, false, none, some, List, [], ◌∷◌, String,
  string_eq, nat_eq, ◌==◌, ◌||◌, arith, All, any, length, lookup, insert, lookup-insert_self,
  Option-cases, Bool-cases, ℤ,
}
use gocommon.Registry.{Service, Node, read, write, service_status, delete_state}
use gocommon.Selector.{is_deleted_node, is_health_node}
use gocommon.Rcache.{
  Cache, cached, find_node, replace_nodes, replace_services, mark_node, delete_nodes,
  delete_services, update, update_cached,
}

-- The first reported node with an id.
abbrev pub FirstWith : String → List Node → Node → Type 0
FirstWith id [] n = ⊥
FirstWith id (m ∷ event) n =
    (((id == m.id) ≡ true) × (n ≡ m)) ⊎ (((id == m.id) ≡ false) × FirstWith id event n)

-- What becomes of a node: it stays where none was reported with its id.
abbrev pub Replaced : List Node → Node → Node → Type 0
Replaced event old new =
    ((any (λ (m : Node). old.id == m.id) event ≡ false) × (new ≡ old)) ⊎ FirstWith old.id event new

abbrev pub AllReplaced : List Node → List Node → List Node → Type 0
AllReplaced event [] [] = Unit
AllReplaced event [] (_ ∷ _) = ⊥
AllReplaced event (_ ∷ _) [] = ⊥
AllReplaced event (old ∷ olds) (new ∷ news) = Replaced event old new × AllReplaced event olds news

-- A service of the version that was reported keeps all but its nodes, any other one is the same.
abbrev pub ServiceReplaced : Service → Service → Service → Type 0
ServiceReplaced res old new =
    (((old.version == res.version) ≡ true)
      × (new ≡ record old { nodes = new.nodes })
      × AllReplaced res.nodes old.nodes new.nodes)
    ⊎ (((old.version == res.version) ≡ false) × (new ≡ old))

abbrev pub ServicesReplaced : Service → List Service → List Service → Type 0
ServicesReplaced res [] [] = Unit
ServicesReplaced res [] (_ ∷ _) = ⊥
ServicesReplaced res (_ ∷ _) [] = ⊥
ServicesReplaced res (old ∷ olds) (new ∷ news) =
    ServiceReplaced res old new × ServicesReplaced res olds news

find_node-FirstWith :
    (id : String) (event : List Node) (n : Node)
    → find_node id event ≡ some n
    → FirstWith id event n
unfolding find_node
find_node-FirstWith id [] n h = absurd (ground arith)
find_node-FirstWith id (m ∷ event) n h = elim (Bool-cases (id == m.id)) [
  | inl t ↦ inl (t, ground (arith, h, t))
  | inr f ↦ inr (f, find_node-FirstWith id event n (ground (arith, h, f)))
]

find_node-none :
    (id : String) (event : List Node)
    → find_node id event ≡ none
    → any (λ (m : Node). id == m.id) event ≡ false
unfolding find_node
find_node-none id [] h = refl
find_node-none id (m ∷ event) h = ground (arith, h, find_node-none id event)

replace_nodes-AllReplaced : (event ns : List Node) → AllReplaced event ns (replace_nodes event ns)
unfolding replace_nodes
replace_nodes-AllReplaced event [] = tt
replace_nodes-AllReplaced event (n ∷ ns) =
    let rest = replace_nodes-AllReplaced event ns in
    elim (Option-cases (find_node n.id event)) [
      | inl e ↦ (inl (find_node-none n.id event e, rw e refl), rest)
      | inr (m, e) ↦ (inr (rw e (find_node-FirstWith n.id event m e)), rest)
    ]

replace_services-ServicesReplaced :
    (res : Service) (ss : List Service) → ServicesReplaced res ss (replace_services res ss)
unfolding replace_services
replace_services-ServicesReplaced res [] = tt
replace_services-ServicesReplaced res (s ∷ ss) =
    let rest = replace_services-ServicesReplaced res ss in
    let nodes = replace_nodes-AllReplaced res.nodes s.nodes in
    elim (Bool-cases (s.version == res.version)) [
      | inl t ↦ (inl (t, rw t refl, rw t nodes), rest)
      | inr f ↦ (inr (f, rw f refl), rest)
    ]

cached-insert :
    (name : String) (ss : List Service) (c : Cache)
    → cached name (record c { cache = insert name ss c.cache }) ≡ ss
unfolding cached
cached-insert name ss c = rw (lookup-insert_self name ss c.cache, cached)

-- A "create" or "update" with nodes, of a version that is cached, replaces each cached node of that
-- version by the first reported node with its id, where there is one, and changes nothing else in
-- the services of the name: a reported node with a new id is not added.
pub update-ServicesReplaced :
    (now : ℕ) (action : String) (res : Service) (services : List Service) (c : Cache)
    → lookup res.name c.cache ≡ some services
    → length res.nodes ≢ 0
    → (action == "create" || action == "update") ≡ true
    → any (λ (s : Service). s.version == res.version) services ≡ true
    → (c' : Cache) × (update now (record { action = action; service = some res }) c ≡ some c')
      × ServicesReplaced res services (cached res.name c')
unfolding update update_cached
update-ServicesReplaced now action res services c held ne act known =
    let news = replace_services res services in
    (
      record c { cache = insert res.name news c.cache },
      ground (arith, held, act, known),
      subst (λ ss. ServicesReplaced res services ss) (sym (cached-insert res.name news c))
          (replace_services-ServicesReplaced res services),
    )

module _ (parse_int : String → ℤ) (now : ℕ) where
  -- A node that no strategy takes for a healthy one.
  abbrev pub IsGone : Node → Type 0
  IsGone n = (is_deleted_node n ≡ true) × (is_health_node parse_int now n ≡ false)

  -- Each node is gone, or none that was reported has its id.
  abbrev pub AllGone : List Node → List Node → Type 0
  AllGone event ns =
      All (λ (n : Node). (any (λ (m : Node). n.id == m.id) event ≡ false) ⊎ IsGone n) ns

  mark_node-IsGone :
      (n : Node) → n.metadata ≢ none → (n' : Node) × (mark_node n ≡ some n') × IsGone n'
  unfolding mark_node write is_deleted_node is_health_node read
  mark_node-IsGone n ne = elim (Option-cases n.metadata) [
    | inl e ↦ absurd (ne e)
    | inr (m, e) ↦
        let s = lookup-insert_self service_status delete_state m in
        (
          record n { metadata = some (insert service_status delete_state m) },
          rw (e, mark_node, write),
          (ground (arith, s), ground (arith, s)),
        )
  ]

  find_node-All :
      (P : Node → Type 0) (id : String) (event : List Node) (n : Node)
      → All P event
      → find_node id event ≡ some n
      → P n
  unfolding find_node
  find_node-All P id [] n ps h = absurd (ground arith)
  find_node-All P id (m ∷ event) n ps h = elim (Bool-cases (id == m.id)) [
    | inl t ↦ subst P (ground (arith, h, t)) ps.0
    | inr f ↦ find_node-All P id event n ps.1 (ground (arith, h, f))
  ]

  delete_nodes-AllGone :
      (event ns : List Node)
      → All (λ (n : Node). n.metadata ≢ none) event
      → (ns' : List Node) × (delete_nodes event ns ≡ some ns') × AllGone event ns'
  unfolding delete_nodes
  delete_nodes-AllGone event [] ms = ([], refl, _)
  delete_nodes-AllGone event (n ∷ ns) ms =
      let (ns', run, gone) = delete_nodes-AllGone event ns ms in
      elim (Option-cases (find_node n.id event)) [
        | inl e ↦ (n ∷ ns', rw (e, run, delete_nodes), (inl (find_node-none n.id event e), gone))
        | inr (m, e) ↦
            let (m', marked, g) =
              mark_node-IsGone m (find_node-All (λ x. x.metadata ≢ none) n.id event m ms e) in
            (m' ∷ ns', rw (e, marked, run, delete_nodes), (inr g, gone))
      ]

  delete_services-AllGone :
      (res : Service) (ss : List Service)
      → All (λ (n : Node). n.metadata ≢ none) res.nodes
      → (ss' : List Service) × (delete_services res ss ≡ some ss')
        × All
            (λ (s : Service). ((s.version == res.version) ≡ false) ⊎ AllGone res.nodes s.nodes)
            ss'
  unfolding delete_services
  delete_services-AllGone res [] ms = ([], refl, _)
  delete_services-AllGone res (s ∷ ss) ms =
      let (ss', run, gone) = delete_services-AllGone res ss ms in
      let (ns', nodes, g) = delete_nodes-AllGone res.nodes s.nodes ms in
      elim (Bool-cases (s.version == res.version)) [
        | inl t ↦
            (record s { nodes = ns' } ∷ ss', rw (t, nodes, run, delete_services), (inr g, gone))
        | inr f ↦ (s ∷ ss', rw (f, run, delete_services), (inl f, gone))
      ]

  -- A "delete" with nodes, none of which has a nil map, does not panic, and after it every cached
  -- node of the version, whose id was reported, is marked as deleted and not taken for healthy.
  pub update-AllGone :
      (res : Service) (services : List Service) (c : Cache)
      → lookup res.name c.cache ≡ some services
      → length res.nodes ≢ 0
      → All (λ (n : Node). n.metadata ≢ none) res.nodes
      → (c' : Cache) × (update now (record { action = "delete"; service = some res }) c ≡ some c')
        × All
            (λ (s : Service). ((s.version == res.version) ≡ false) ⊎ AllGone res.nodes s.nodes)
            (cached res.name c')
  unfolding update update_cached cached
  update-AllGone res services c held ne ms =
      let (ss', run, gone) = delete_services-AllGone res services ms in
      (
        record c { cache = insert res.name ss' c.cache },
        ground (arith, held, run),
        subst
            (λ ss.
              All
                (λ (s : Service). ((s.version == res.version) ≡ false) ⊎ AllGone res.nodes s.nodes)
                ss)
            (sym (cached-insert res.name ss' c)) gone,
      )
