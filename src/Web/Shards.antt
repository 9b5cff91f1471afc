-- ===== src/Web/Shards.antt =====
-- What web/roundshardtripper.go takes from the registry after a failed request, and where it routes.
use gocommon.Base.{
  ◌≡◌, refl, ap, sym, ◌∙◌, Bool, not, Option, some, List, [], ◌∷◌, ◌++◌, String, string_eq, int_eq,
  nat_eq, ◌==◌, if◌then◌else◌, length, keep, map, same_refl, arith, keep-append, inl, inr,
  Bool-cases,
}
use gocommon.Registry.{Node, Service, flatten}
use gocommon.Web.{
  service_node, deregister_service, deregister_node, tag_of, tagged_node, tagged_service,
}

deregister_service-length :
    (s : Service) (failing : Node) (nodes : List Node)
    → deregister_service s failing nodes
      ≡ (if length nodes == 0 then [] else service_node s failing ∷ [])
unfolding deregister_service
deregister_service-length s failing [] = refl
deregister_service-length s failing (n ∷ ns) =
    rw (same_refl n.address, same_refl n.port) (ground arith)

-- `deRegisterNode` does not look for the node that has failed: it takes it off under the name and the
-- version of every service that has a node at all.
pub deregister_node-map :
    (failing : Node) (services : List Service)
    → deregister_node services failing
      ≡ map (λ s. service_node s failing) (keep (λ s. not (length s.nodes == 0)) services)
unfolding deregister_node deregister_service
deregister_node-map failing [] = refl
deregister_node-map failing (s ∷ ss) = elim (Bool-cases (length s.nodes == 0)) [
  | inl t ↦ rw (deregister_service-length s failing s.nodes, t) (deregister_node-map failing ss)
  | inr f ↦
      rw (deregister_service-length s failing s.nodes, f)
        (ap (λ l. service_node s failing ∷ l) (deregister_node-map failing ss))
]

-- The last element of a list, or a value.
abbrev pub last_or : {A : Type 0} → Option A → List A → Option A
last_or d [] = d
last_or d (x ∷ xs) = last_or (some x) xs

last_or-append :
    {A : Type 0} (d : Option A) (xs ys : List A) → last_or d (xs ++ ys) ≡ last_or (last_or d xs) ys
last_or-append d [] ys = refl
last_or-append d (x ∷ xs) ys = last_or-append (some x) xs ys

abbrev pub has_tag : String → String → Node → Bool
has_tag tag server_id n = tag_of tag n == server_id

tagged_node-last :
    (tag server_id : String) (nodes : List Node) (found : Option Node)
    → tagged_node tag server_id nodes found ≡ last_or found (keep (has_tag tag server_id) nodes)
unfolding tagged_node
tagged_node-last tag server_id [] found = refl
tagged_node-last tag server_id (n ∷ ns) found = elim (Bool-cases (tag_of tag n == server_id)) [
  | inl t ↦ rw (t) (tagged_node-last tag server_id ns (some n))
  | inr f ↦ rw (f) (tagged_node-last tag server_id ns found)
]

-- `RoundTrip` routes a request with a destination to the last node, of all services in order, that
-- has it as its tag, if there is one.
pub tagged_service-last :
    (tag server_id : String) (services : List Service) (found : Option Node)
    → tagged_service tag server_id services found
      ≡ last_or found (keep (has_tag tag server_id) (flatten services))
unfolding tagged_service flatten
tagged_service-last tag server_id [] found = refl
tagged_service-last tag server_id (s ∷ ss) found =
    tagged_service-last tag server_id ss (tagged_node tag server_id s.nodes found)
    ∙ ap (λ f. last_or f (keep (has_tag tag server_id) (flatten ss)))
        (tagged_node-last tag server_id s.nodes found)
    ∙ sym (
        last_or-append found (keep (has_tag tag server_id) s.nodes)
          (keep (has_tag tag server_id) (flatten ss)))
    ∙ ap (last_or found) (sym (keep-append (has_tag tag server_id) s.nodes (flatten ss)))
