-- ===== src/Discovery.antt =====
-- The way of a node that is taken off the registry: the watcher of registry/etcdv3watcher.go reports
-- it, rcache/rcache.go marks it, and `RoundBinSelect` of selector/strategy.go, which asks the cache
-- through `Select` of default.go, leaves it out.
use gocommon.Base.{
  ℕ, ◌≡◌, ◌≢◌, ◌⊎◌, inl, inr, refl, sym, ap, ◌∙◌, subst, true, false, Option, none, some,
  some-injective, List, [], ◌∷◌, String, string_eq, nat_eq, ◌==◌, if_cases, All, All-append, any,
  keep, length, lookup, Bool-cases, ℤ, arith,
}
use gocommon.Registry.{Service, Node, flatten}
use gocommon.Rcache.{Cache, Answer, found, cached, expiry_of, is_valid, update, get, get_service}
use gocommon.Rcache.Lifetime.{cp-same}
use gocommon.Rcache.Update.{AllGone, update-AllGone}
use gocommon.Selector.{is_health_node, candidates}
use gocommon.Selector.RoundBin.{candidates-healthy}
use gocommon.Etcd.{
  WatchEvent, WatchResponse, next, reported, event_service, event_action, pick_event,
}

-- The node is none of those of an event.
abbrev pub NotReported : List Node → Node → Type 0
NotReported event n = any (λ (m : Node). n.id == m.id) event ≡ false

length-eq-zero : (ns : List Node) → length ns ≡ 0 → ns ≡ []
length-eq-zero [] e = refl
length-eq-zero (n ∷ ns) e = absurd (omega (arith, e))

module _ (parse_int : String → ℤ) (now : ℕ) where
  AllGone-flatten :
      (res : Service) (ss : List Service)
      → All (λ (s : Service). (s.version == res.version) ≡ true) ss
      → All
          (λ (s : Service).
            ((s.version == res.version) ≡ false) ⊎ AllGone parse_int now res.nodes s.nodes)
          ss
      → AllGone parse_int now res.nodes (flatten ss)
  unfolding flatten
  AllGone-flatten res [] v h = tt
  AllGone-flatten res (s ∷ ss) v h =
      All-append _ s.nodes (flatten ss) (elim h.0 [ inl f ↦ cc (f, v.0) | inr g ↦ g ])
        (AllGone-flatten res ss v.1 h.1)

  healthy-NotReported :
      (event ns : List Node)
      → AllGone parse_int now event ns
      → All (NotReported event) (keep (is_health_node parse_int now) ns)
  healthy-NotReported event [] h = tt
  healthy-NotReported event (n ∷ ns) h =
      if_cases (All (NotReported event)) (is_health_node parse_int now n) _ _
        (λ e. (elim h.0 [ inl f ↦ f | inr g ↦ cc (g.1, e) ], healthy-NotReported event ns h.1))
        (λ e. healthy-NotReported event ns h.1)

  candidates-NotReported :
      (event : List Node) (ss : List Service)
      → AllGone parse_int now event (flatten ss)
      → (keep (is_health_node parse_int now) (flatten ss) ≡ [])
        ⊎ All (NotReported event) (candidates parse_int now ss)
  candidates-NotReported event ss h =
      let healthy = keep (is_health_node parse_int now) (flatten ss) in
      elim (Bool-cases (length healthy == 0)) [
        | inl t ↦ inl (length-eq-zero healthy (ground (arith, t)))
        | inr f ↦ inr (
            subst (All (NotReported event)) (sym (candidates-healthy parse_int now ss ∙ rw f refl))
              (healthy-NotReported event (flatten ss) h))
      ]

-- A cache that holds services answers with them.
get_service-cached :
    {E : Type 0} (later : ℕ) (asked : Answer E) (name : String) (c : Cache)
    → is_valid later c.ttl (cached name c) (expiry_of name c) ≡ true
    → (get_service later asked name c).0 ≡ found (cached name c)
unfolding get_service get is_valid
get_service-cached later asked name c v = ground (arith, v, cp-same (cached name c))

delete_action :
    (decode : String → Option Service) (ev : WatchEvent)
    → ev.is_delete ≡ true
    → event_action decode ev ≡ "delete"
unfolding event_action
delete_action decode ev d = rw d refl

next-delete :
    {E : Type 0} (decode : String → Option Service) (ev : WatchEvent) (evs : List WatchEvent)
    (rs : List (WatchResponse E)) (v : String) (res : Service)
    → ev.is_delete ≡ true
    → ev.prev_value ≡ some v
    → decode v ≡ some res
    → next decode (record { err = none; events = ev ∷ evs } ∷ rs)
      ≡ reported (record { action = "delete"; service = some res }) rs
unfolding next
next-delete decode ev evs rs v res d p e =
    rw (d, p, e, event_service, event_action, pick_event, next)
      (ap (λ a. reported (record { action = a; service = some res }) rs)
        (delete_action decode ev d))

module _ (parse_int : String → ℤ) where
  -- Where the channel of a watcher delivers the deletion of a key, whose last value had nodes, none of
  -- them with nil metadata, and `update` makes `c'` of a cache that has the name, in which each
  -- version is the one that was deleted: `Next` reports the deletion, and while `c'` is valid,
  -- `GetService` answers with services of which none is healthy, or `RoundBinSelect` has none of the
  -- deleted nodes among its candidates.
  pub deleted_nodes_avoided :
      {E X : Type 0} (decode : String → Option Service) (ev : WatchEvent) (evs : List WatchEvent)
      (rs : List (WatchResponse E)) (v : String) (res : Service) (services : List Service)
      (c c' : Cache) (now later : ℕ) (asked : Answer X)
      → ev.is_delete ≡ true
      → ev.prev_value ≡ some v
      → decode v ≡ some res
      → length res.nodes ≢ 0
      → All (λ (n : Node). n.metadata ≢ none) res.nodes
      → lookup res.name c.cache ≡ some services
      → update now (record { action = "delete"; service = some res }) c ≡ some c'
      → All (λ (s : Service). (s.version == res.version) ≡ true) (cached res.name c')
      → is_valid later c'.ttl (cached res.name c') (expiry_of res.name c') ≡ true
      → (next decode (record { err = none; events = ev ∷ evs } ∷ rs)
          ≡ reported (record { action = "delete"; service = some res }) rs)
        × ((ss : List Service) × ((get_service later asked res.name c').0 ≡ found ss)
            × ((keep (is_health_node parse_int now) (flatten ss) ≡ [])
                ⊎ All (NotReported res.nodes) (candidates parse_int now ss)))
  deleted_nodes_avoided decode ev evs rs v res services c c' now later asked d p e ne ms held run
        one valid =
      let (c'', run', gone) = update-AllGone parse_int now res services c held ne ms in
      let same : c'' ≡ c' = some-injective c'' c' (sym run' ∙ run) in
      let gone' =
        subst
          (λ (x : Cache).
            All
              (λ (s : Service).
                ((s.version == res.version) ≡ false) ⊎ AllGone parse_int now res.nodes s.nodes)
              (cached res.name x))
          same gone in
      (
        next-delete decode ev evs rs v res d p e,
        (
          cached res.name c',
          get_service-cached later asked res.name c' valid,
          candidates-NotReported parse_int now res.nodes (cached res.name c')
              (AllGone-flatten parse_int now res (cached res.name c') one gone'),
        ),
      )
