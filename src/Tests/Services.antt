-- ===== src/Tests/Services.antt =====
-- Runs of the cache of services and of the selection of a node.
use gocommon.Base.{
  ℕ, ◌<◌, ◌≡◌, ◌⊎◌, refl, false, not, ◌&&◌, none, some, List, [], ◌∷◌, arith, ℤ, pos, String,
  string_eq, nat_eq, ◌==◌, if◌then◌else◌, All, keep, length, lookup,
}
use gocommon.Registry.{Service, Node, flatten, read}
use gocommon.Selector.{
  selected, has_label, filter_label, is_health_node, is_deleted_node, candidates, next_node,
}
use gocommon.Selector.RoundBin.{keys, next_node-fair, candidates-healthy}
use gocommon.Rcache.{Cache, set, cached, update}
use gocommon.Rcache.Update.{ServicesReplaced, AllGone, update-ServicesReplaced, update-AllGone}

abbrev node_a : Node
node_a = record {
  id = "a";
  address = "10.0.0.1";
  port = pos 80;
  metadata = some (("zone", "x") ∷ []);
}

abbrev node_b : Node
node_b = record { id = "b"; address = "10.0.0.2"; port = pos 80; metadata = some [] }

abbrev shop : Service
shop = record {
  name = "shop";
  version = "1";
  metadata = none;
  endpoints = [];
  nodes = node_a ∷ node_b ∷ [];
}

-- What is reported of the node b alone.
abbrev report : Service
report = record {
  name = "shop";
  version = "1";
  metadata = none;
  endpoints = [];
  nodes = node_b ∷ [];
}

abbrev stored : Cache
stored = record {
  ttl = 60;
  cache = ("shop", shop ∷ []) ∷ [];
  ttls = ("shop", 100) ∷ [];
  watched = [];
  exited = false;
}

-- Stands for `strconv.ParseInt` on texts that are no numbers.
abbrev parse_none : String → ℤ
parse_none s = pos 0

filter_run : flatten (filter_label "zone" "x" (shop ∷ [])) ≡ node_a ∷ []
unfolding filter_label has_label flatten read lookup
filter_run = refl

next_node-fair_example :
    (j : ℕ) × (j < 2)
    × ((next_node (node_a ∷ node_b ∷ []) (keys (node_a ∷ node_b ∷ []) 7 j)).0 ≡ selected node_b)
next_node-fair_example =
    next_node-fair (node_a ∷ node_b ∷ []) 7 1 node_b refl (omega arith) (omega arith)

abbrev all_nodes : List Node
all_nodes = flatten (shop ∷ [])

candidates-healthy_example : candidates parse_none 50 (shop ∷ []) ≡ (
    if length (keep (is_health_node parse_none 50) all_nodes) == 0
    then keep (λ (n : Node). not (is_health_node parse_none 50 n) && is_deleted_node n) all_nodes
    else keep (is_health_node parse_none 50) all_nodes)
candidates-healthy_example = candidates-healthy parse_none 50 (shop ∷ [])

abbrev renewed : Cache
renewed = set 500 "shop" (shop ∷ []) stored

update-ServicesReplaced_example :
    (c' : Cache) × (update 300 (record { action = "update"; service = some report }) stored
      ≡ some c')
    × ServicesReplaced report (shop ∷ []) (cached "shop" c')
unfolding lookup
update-ServicesReplaced_example =
    update-ServicesReplaced 300 "update" report (shop ∷ []) stored refl (omega arith) refl refl

update-AllGone_example :
    (c' : Cache) × (update 300 (record { action = "delete"; service = some report }) stored
      ≡ some c')
    × All
        (λ (s : Service).
          ((s.version == report.version) ≡ false) ⊎ AllGone parse_none 300 report.nodes s.nodes)
        (cached "shop" c')
unfolding lookup
update-AllGone_example =
    update-AllGone parse_none 300 report (shop ∷ []) stored refl (omega arith) ((λ e. cc), _)
