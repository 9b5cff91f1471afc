-- ===== src/Gpool/LoopQueue/Expiry.antt =====
-- `retrieveExpiry` of gpool/worker_loop_queue.go against the front of a list of workers.
use gocommon.Base.{
  ℕ, zero, suc, ◌+◌, ◌<◌, ◌≡◌, refl, ◌∙◌, ap, sym, true, false, Option, some, List, [], ◌∷◌, ◌++◌,
  map, append-nil, append_assoc, arith, if◌then◌else◌, length, Bool-cases, inl, inr,
}
use gocommon.Gpool.Worker.{GoWorker, is_fresh}
use gocommon.Gpool.LoopQueue.{LoopQueue, drop_head, expire, retrieve_expiry}
use gocommon.Gpool.LoopQueue.Repr.{
  Repr, is_empty-nil, is_empty-cons, head-cons, drop_head-Repr, length-le-size,
}

-- The workers at the front that have expired, and what is behind them.
unfoldable pub expired_prefix : ℕ → ℕ → List GoWorker → List GoWorker
expired_prefix now duration [] = []
expired_prefix now duration (w ∷ ws) =
    if is_fresh now duration w then [] else w ∷ expired_prefix now duration ws

unfoldable pub fresh_suffix : ℕ → ℕ → List GoWorker → List GoWorker
fresh_suffix now duration [] = []
fresh_suffix now duration (w ∷ ws) =
    if is_fresh now duration w then w ∷ ws else fresh_suffix now duration ws

with_expiry-Repr :
    {wq : LoopQueue} {ws : List GoWorker} (out : List (Option GoWorker))
    → Repr wq ws
    → Repr (record wq { expiry = out }) ws
with_expiry-Repr out r = record {
  slots = r.slots;
  head_in = r.head_in;
  tail_in = r.tail_in;
  held = r.held;
  not_full = r.not_full;
  full = r.full;
}

-- What the loop leaves, from a queue that holds `ws` with `out` collected so far.
record Expired (now duration : ℕ) (out : List (Option GoWorker)) (ws : List GoWorker)
    (left : LoopQueue) : Type 0 where
  collected : left.expiry ≡ out ++ map some (expired_prefix now duration ws)
  kept : Repr left (fresh_suffix now duration ws)

module _ (now duration : ℕ) where
  expire-nil :
      (fuel : ℕ) {wq : LoopQueue} → Repr wq [] → expire (suc fuel) now duration wq ≡ some wq
  unfolding expire
  expire-nil fuel r = ground (arith, is_empty-nil r)

  expire-fresh :
      (fuel : ℕ) {wq : LoopQueue} {w : GoWorker} {ws : List GoWorker}
      → Repr wq (w ∷ ws)
      → is_fresh now duration w ≡ true
      → expire (suc fuel) now duration wq ≡ some wq
  unfolding expire
  expire-fresh fuel r f = ground (arith, is_empty-cons r, head-cons r)

  expire-more :
      (fuel : ℕ) {wq : LoopQueue} {w : GoWorker} {ws : List GoWorker}
      → Repr wq (w ∷ ws)
      → is_fresh now duration w ≡ false
      → expire (suc fuel) now duration wq
        ≡ expire fuel now duration (record (drop_head wq) { expiry = wq.expiry ++ some w ∷ [] })
  unfolding expire
  expire-more fuel r f = ground (arith, is_empty-cons r, head-cons r)

  expire_lem :
      (fuel : ℕ) (wq : LoopQueue) (ws : List GoWorker)
      → Repr wq ws
      → length ws < fuel
      → (left : LoopQueue) × (expire fuel now duration wq ≡ some left)
        × Expired now duration wq.expiry ws left
  unfolding expired_prefix fresh_suffix
  expire_lem zero wq ws r h = elim h [ ]
  expire_lem (suc fuel) wq [] r h =
      (wq, expire-nil fuel r, record { collected = sym (append-nil wq.expiry); kept = r })
  expire_lem (suc fuel) wq (w ∷ ws) r h = elim (Bool-cases (is_fresh now duration w)) [
    | inl f ↦ (
      wq,
      expire-fresh fuel r f,
      record { collected = rw f (sym (append-nil wq.expiry)); kept = rw f r },
    )
    | inr f ↦
        let (left, ran, e) =
          expire_lem fuel (record (drop_head wq) { expiry = wq.expiry ++ some w ∷ [] }) ws
            (with_expiry-Repr (wq.expiry ++ some w ∷ []) (drop_head-Repr r)) (omega arith) in
        (
          left,
          expire-more fuel r f ∙ ran,
          record {
            collected = rw f (
                e.collected
                ∙ append_assoc wq.expiry (some w ∷ []) (map some (expired_prefix now duration ws)));
            kept = rw f e.kept;
          },
        )
  ]

  -- On a queue that holds `ws`, `retrieve_expiry` returns, and never reads a nil slot: it hands out
  -- the workers before the first one that has not expired, and leaves a queue that holds the others.
  pub retrieve_expiry_lem :
      {wq : LoopQueue} (ws : List GoWorker)
      → Repr wq ws
      → (left : LoopQueue) × (retrieve_expiry now duration wq
          ≡ some (map some (expired_prefix now duration ws), left))
        × Repr left (fresh_suffix now duration ws)
  unfolding retrieve_expiry expired_prefix fresh_suffix
  retrieve_expiry_lem {wq} [] r = (wq, ground (arith, is_empty-nil r), r)
  retrieve_expiry_lem {wq} (w ∷ ws) r =
      let (left, ran, e) =
        expire_lem (wq.size + 1) (record wq { expiry = [] }) (w ∷ ws) (with_expiry-Repr [] r)
          (omega (arith, length-le-size r)) in
      (left, rw (is_empty-cons r) (rw ran (ap (λ o. some (o, left)) e.collected)), e.kept)

-- Nothing is lost: the two parts make up the list.
pub expired_prefix-append :
    (now duration : ℕ) (ws : List GoWorker)
    → expired_prefix now duration ws ++ fresh_suffix now duration ws ≡ ws
unfolding expired_prefix fresh_suffix
expired_prefix-append now duration [] = refl
expired_prefix-append now duration (w ∷ ws) = ground (arith, expired_prefix-append now duration ws)
