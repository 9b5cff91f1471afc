-- ===== src/Selector/RoundBin.antt =====
-- `RoundBinSelect` of selector/strategy.go: the candidates, and their turns.
use gocommon.Base.{
  ℕ, zero, suc, ◌+◌, ◌-◌, ◌%◌, ◌^◌, ◌<◌, ◌≡◌, ◌≢◌, refl, ap, ◌∙◌, sym, false, some, List, [], ◌∷◌,
  String, length, get_elem?, get_elem?_of_lt, keep, if◌then◌else◌, arith, not, ◌&&◌, ◌==◌, nat_eq,
  ℤ,
}
use native.Mathlib.Nat.{mod-lt, mod-eq_of_lt, mod-add-mod, add-mod-mod, add-mod_right}
use gocommon.Registry.{Service, Node, flatten}
use gocommon.Selector.{is_health_node, is_deleted_node, sort_nodes, candidates, next_node, selected}

sort_nodes-keep :
    (parse_int : String → ℤ) (now : ℕ) (ns : List Node)
    → sort_nodes parse_int now ns ≡ (
      keep (is_health_node parse_int now) ns,
      keep (λ (n : Node). not (is_health_node parse_int now n) && is_deleted_node n) ns,
    )
unfolding sort_nodes
sort_nodes-keep parse_int now [] = refl
sort_nodes-keep parse_int now (n ∷ ns) = ground (arith, sort_nodes-keep parse_int now ns)

next_node_lem :
    (nodes : List Node) (key : ℕ) (n : Node)
    → length nodes ≢ 0
    → key + 1 < 2 ^ 64
    → get_elem? nodes ((key + 1) % length nodes) ≡ some n
    → next_node nodes key ≡ (selected n, key + 1)
unfolding next_node
next_node_lem nodes key n ne lt e =
    let small : (key + 1) % 2 ^ 64 ≡ key + 1 = omega arith in
    let some_nodes : (length nodes == 0) ≡ false = ground (arith, ne) in
    rw (some_nodes, small, e, next_node) (ap (λ k. (selected n, k)) small)

-- The key after `k` calls.
unfoldable pub keys : List Node → ℕ → ℕ → ℕ
unfolding next_node
keys nodes key zero = key
keys nodes key (suc k) = (next_node nodes (keys nodes key k)).1

keys-add :
    (nodes : List Node) (key k : ℕ)
    → length nodes ≢ 0
    → key + k < 2 ^ 64
    → keys nodes key k ≡ key + k
unfolding keys
keys-add nodes key zero ne lt = omega arith
keys-add nodes key (suc k) ne lt =
    let ih = keys-add nodes key k ne (omega arith) in
    let (n, e) =
      get_elem?_of_lt nodes ((key + k + 1) % length nodes) (mod-lt (key + k + 1) (omega arith)) in
    ap (λ c. (next_node nodes c).1) ih
    ∙ ap (λ r. r.1) (next_node_lem nodes (key + k) n ne (omega arith) e)
    ∙ omega arith

turn : (n key i : ℕ) → i < n → (key + (i + (n - (key + 1) % n)) % n + 1) % n ≡ i
turn n key i lt =
    let r : (key + 1) % n < n = mod-lt (key + 1) (omega arith) in
    let j : ℕ = i + (n - (key + 1) % n) in
    let shift : key + j % n + 1 ≡ key + 1 + j % n = omega arith in
    let back : (key + 1) % n + j ≡ i + n = omega arith in
    ap (λ x. x % n) shift
    ∙ add-mod-mod (key + 1) j n
    ∙ sym (mod-add-mod (key + 1) n j)
    ∙ ap (λ x. x % n) back
    ∙ add-mod_right i n
    ∙ mod-eq_of_lt lt

-- While the key does not wrap around, every one of the nodes is chosen by one of as many calls as
-- there are nodes.
pub next_node-fair :
    (nodes : List Node) (key i : ℕ) (n : Node)
    → get_elem? nodes i ≡ some n
    → i < length nodes
    → key + length nodes < 2 ^ 64
    → (j : ℕ) × (j < length nodes) × ((next_node nodes (keys nodes key j)).0 ≡ selected n)
next_node-fair nodes key i n e lt room =
    let j : ℕ = (i + (length nodes - (key + 1) % length nodes)) % length nodes in
    let small : j < length nodes = mod-lt _ (omega arith) in
    let ne : length nodes ≢ 0 = omega arith in
    (
      j,
      small,
      ap (λ c. (next_node nodes c).0) (keys-add nodes key j ne (omega arith))
          ∙ ap (λ r. r.0)
              (next_node_lem nodes (key + j) n ne (omega arith)
                (ap (λ x. get_elem? nodes x) (turn (length nodes) key i lt) ∙ e)),
    )

-- The candidates are the healthy nodes of all services in order, if there are any; else they are
-- the others that are marked as deleted.
pub candidates-healthy :
    (parse_int : String → ℤ) (now : ℕ) (services : List Service)
    → candidates parse_int now services ≡ (
        if length (keep (is_health_node parse_int now) (flatten services)) == 0
        then keep
            (λ (n : Node). not (is_health_node parse_int now n) && is_deleted_node n)
            (flatten services)
        else keep (is_health_node parse_int now) (flatten services))
unfolding candidates
candidates-healthy parse_int now services =
    ap (λ p. if length p.0 == 0 then p.1 else p.0)
      (sort_nodes-keep parse_int now (flatten services))
