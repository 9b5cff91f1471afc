-- ===== src/Etcd/Watching.antt =====
-- Which events `Next` of registry/etcdv3watcher.go reports.
use gocommon.Base.{
  ◌≡◌, ◌≢◌, ◌⊎◌, inl, inr, refl, ◌∙◌, Option, none, some, List, [], ◌∷◌, ◌++◌, String, All, take,
  Option-cases,
}
use gocommon.Registry.{Service, WatchResult}
use gocommon.Etcd.{
  WatchEvent, WatchResponse, reported, could_not_get, picked, no_event, event_action, event_service,
  pick_event, next,
}

-- The results of a watcher whose `Next` is called until the channel is closed.
pub data Reports {E : Type 0} (decode : String → Option Service)
    : List (WatchResponse E) → List WatchResult → Type 0 where
  done : {rs : List (WatchResponse E)} → next decode rs ≡ could_not_get → Reports decode rs []
  more :
      {rs rest : List (WatchResponse E)} {res : WatchResult} {ys : List WatchResult}
      → next decode rs ≡ reported res rest
      → Reports decode rest ys
      → Reports decode rs (res ∷ ys)

module _ (decode : String → Option Service) where
  -- The results that the events of a response stand for.
  abbrev pub results_of : List WatchEvent → List WatchResult
  results_of [] = []
  results_of (ev ∷ evs) = elim (event_service decode ev) [
    | none ↦ results_of evs
    | some found ↦ elim found [
      | none ↦ results_of evs
      | some s ↦ record { action = event_action decode ev; service = some s } ∷ results_of evs
    ]
  ]

  -- The first result of each response.
  abbrev pub firsts : {E : Type 0} → List (WatchResponse E) → List WatchResult
  firsts [] = []
  firsts (r ∷ rs) = take 1 (results_of r.events) ++ firsts rs

  -- The previous value of what an event deletes is there.
  abbrev pub HasPrev : {E : Type 0} → WatchResponse E → Type 0
  HasPrev r = All (λ (ev : WatchEvent). event_service decode ev ≢ none) r.events

  pick_event-first :
      (evs : List WatchEvent)
      → All (λ (ev : WatchEvent). event_service decode ev ≢ none) evs
      → ((pick_event decode evs ≡ no_event) × (take 1 (results_of evs) ≡ []))
        ⊎ ((res : WatchResult) × (pick_event decode evs ≡ picked res)
            × (take 1 (results_of evs) ≡ res ∷ []))
  unfolding pick_event
  pick_event-first [] h = inl (refl, refl)
  pick_event-first (ev ∷ evs) h = elim (Option-cases (event_service decode ev)) [
    | inl n ↦ absurd (h.0 n)
    | inr (none, e) ↦ rw (e, results_of, pick_event) (pick_event-first evs h.1)
    | inr (some s, e) ↦ rw (e, results_of, pick_event) (inr (_, refl, refl))
  ]

  Reports-skip :
      {E : Type 0} {rs rs' : List (WatchResponse E)} {ys : List WatchResult}
      → next decode rs ≡ next decode rs'
      → Reports decode rs' ys
      → Reports decode rs ys
  Reports-skip q (done e) = done (q ∙ e)
  Reports-skip q (more e rest) = more (q ∙ e) rest

  next-nil : {E : Type 0} → next decode {E = E} [] ≡ could_not_get
  unfolding next
  next-nil = refl

  next-skips :
      {E : Type 0} (r : WatchResponse E) (rs : List (WatchResponse E))
      → r.err ≡ none
      → pick_event decode r.events ≡ no_event
      → next decode (r ∷ rs) ≡ next decode rs
  unfolding next
  next-skips r rs e p = rw (e, p, next) refl

  next-reports :
      {E : Type 0} (r : WatchResponse E) (rs : List (WatchResponse E)) (res : WatchResult)
      → r.err ≡ none
      → pick_event decode r.events ≡ picked res
      → next decode (r ∷ rs) ≡ reported res rs
  unfolding next
  next-reports r rs res e p = rw (e, p, next) refl

  -- Where the server still has the previous value of all that is deleted, and no response is an
  -- error, the calls of `Next` report the first event of each response that has a description, and
  -- no other one.
  pub next-firsts :
      {E : Type 0} (rs : List (WatchResponse E))
      → All (λ (r : WatchResponse E). r.err ≡ none) rs
      → All (λ (r : WatchResponse E). HasPrev r) rs
      → Reports decode rs (firsts rs)
  next-firsts [] ok h = done next-nil
  next-firsts (r ∷ rs) ok h = elim (pick_event-first r.events h.0) [
    | inl (p, e) ↦ rw e (Reports-skip (next-skips r rs ok.0 p) (next-firsts rs ok.1 h.1))
    | inr (res, p, e) ↦ rw e (more (next-reports r rs res ok.0 p) (next-firsts rs ok.1 h.1))
  ]
