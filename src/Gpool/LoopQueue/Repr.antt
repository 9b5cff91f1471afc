-- ===== src/Gpool/LoopQueue/Repr.antt =====
-- The circular queue of gpool/worker_loop_queue.go against a bounded list of workers, oldest first.
use gocommon.Base.{
  ℕ, suc, ◌≤◌, ◌<◌, ◌≡◌, refl, ap₂, sym, ◌∙◌, ◌≢◌, true, false, Option, none, some, List, [], ◌∷◌,
  ◌++◌, map, map-append, arith, ◌==◌, nat_eq, if◌then◌else◌, length, get_or, set, length-set,
  length-append, length-replicate, get_or-set_self, ◌↔◌, Bool-cases, inl, inr,
}
use gocommon.Gpool.Worker.{GoWorker, QueueError, queue_is_full}
use gocommon.Gpool.LoopQueue.{
  LoopQueue, new_worker_loop_queue, len, is_empty, next, insert, drop_head, detach,
}
use gocommon.Gpool.LoopQueue.Window.{window, steps, window-set_outside, window_end}

-- `wq` holds the workers `ws`, oldest first, from `head` on.
pub record Repr (wq : LoopQueue) (ws : List GoWorker) : Type 0 where
  pub slots : length wq.items ≡ wq.size
  pub head_in : wq.head < wq.size
  pub tail_in : wq.tail < wq.size
  pub held : window wq.items wq.size wq.head (length ws) ≡ map some ws
  pub not_full : wq.is_full ≡ false → length ws ≡ steps wq.size wq.head wq.tail
  pub full : wq.is_full ≡ true → (length ws ≡ wq.size) × (wq.head ≡ wq.tail)

-- What `insert` and `detach` promise, on the list.
unfoldable pub put : ℕ → GoWorker → List GoWorker → Option QueueError × List GoWorker
put size w ws = if length ws == size then (some queue_is_full, ws) else (none, ws ++ w ∷ [])

unfoldable pub get : List GoWorker → Option GoWorker × List GoWorker
get [] = (none, [])
get (w ∷ ws) = (some w, ws)

-- A new queue of a positive size holds no worker.
pub new_worker_loop_queue-Repr : (size : ℕ) → 0 < size → Repr (new_worker_loop_queue size) []
unfolding new_worker_loop_queue
new_worker_loop_queue-Repr size h = record {
  slots = length-replicate size none;
  head_in = h;
  tail_in = h;
  held = refl;
  not_full = λ e. ground arith;
  full = λ e. cc;
}

-- The number of workers, and the test for none, follow the list.
pub len-Repr :
    {wq : LoopQueue} {ws : List GoWorker}
    → Repr wq ws
    → (len wq ≡ length ws) × ((is_empty wq ≡ true) ↔ (length ws ≡ 0))
unfolding len is_empty
len-Repr r = ground arith

insert-held :
    {wq : LoopQueue} {ws : List GoWorker} (w : GoWorker)
    → Repr wq ws
    → wq.is_full ≡ false
    → window (set wq.items wq.tail (some w)) wq.size wq.head (suc (length ws))
      ≡ map some (ws ++ w ∷ [])
insert-held {wq} {ws} w r e =
    window_end (set wq.items wq.tail (some w)) wq.size wq.head wq.tail (length ws) r.head_in
      r.tail_in (sym (r.not_full e))
    ∙ ap₂ (λ a b. a ++ b ∷ [])
        (window-set_outside wq.items wq.size wq.head wq.tail (length ws) (some w) r.head_in
            r.tail_in (omega (arith, r.not_full e))
          ∙ r.held)
        (get_or-set_self wq.items wq.tail (some w) none (omega (arith, r.slots, r.tail_in)))
    ∙ sym (map-append some ws (w ∷ []))

length-snoc : (ws : List GoWorker) (w : GoWorker) → length (ws ++ w ∷ []) ≡ suc (length ws)
length-snoc ws w = omega (arith, length-append ws (w ∷ []))

insert-Repr :
    {wq : LoopQueue} {ws : List GoWorker} (w : GoWorker)
    → Repr wq ws
    → wq.is_full ≡ false
    → Repr
        (record wq {
          items = set wq.items wq.tail (some w);
          tail = next wq.size wq.tail;
          is_full = if next wq.size wq.tail == wq.head then true else wq.is_full;
        })
        (ws ++ w ∷ [])
insert-Repr {wq} {ws} w r e = record {
  slots = length-set wq.items wq.tail (some w) ∙ r.slots;
  head_in = r.head_in;
  tail_in = ground (arith, r.tail_in);
  held = rw (length-snoc ws w) (insert-held w r e);
  not_full = λ h. ground (arith, r.not_full e, length-append ws (w ∷ []), h);
  full = λ h. ground (arith, r.not_full e, length-append ws (w ∷ []), h);
}

insert_error :
    {wq : LoopQueue} {ws : List GoWorker} (w : GoWorker)
    → Repr wq ws
    → wq.is_full ≡ true
    → insert w wq ≡ (some queue_is_full, wq)
unfolding insert
insert_error w r e = ground (arith, r.head_in)

insert_room :
    {wq : LoopQueue} {ws : List GoWorker} (w : GoWorker)
    → Repr wq ws
    → wq.is_full ≡ false
    → insert w wq ≡ (
      none,
      record wq {
        items = set wq.items wq.tail (some w);
        tail = next wq.size wq.tail;
        is_full = if next wq.size wq.tail == wq.head then true else wq.is_full;
      },
    )
unfolding insert
insert_room w r e = ground (arith, r.head_in)

put_full :
    (size : ℕ) (w : GoWorker) (ws : List GoWorker)
    → length ws ≡ size
    → put size w ws ≡ (some queue_is_full, ws)
unfolding put
put_full size w ws h = ground arith

put_room :
    (size : ℕ) (w : GoWorker) (ws : List GoWorker)
    → length ws ≢ size
    → put size w ws ≡ (none, ws ++ w ∷ [])
unfolding put
put_room size w ws h = ground arith

-- On a queue that holds `ws`, `insert` returns the error of `put` on `ws`, full or none, and leaves
-- a queue that holds the list of `put`.
pub insert_refines :
    {wq : LoopQueue} {ws : List GoWorker} (w : GoWorker)
    → Repr wq ws
    → ((insert w wq).0 ≡ (put wq.size w ws).0) × Repr (insert w wq).1 (put wq.size w ws).1
insert_refines {wq} {ws} w r = elim (Bool-cases wq.is_full) [
  | inl e ↦ rw (insert_error w r e, put_full wq.size w ws (r.full e).0) (refl, r)
  | inr e ↦
      rw
        (
          insert_room w r e,
          put_room wq.size w ws (ground (arith, r.not_full e, r.head_in, r.tail_in)),
        )
        (refl, insert-Repr w r e)
]

pub is_empty-cons :
    {wq : LoopQueue} {w : GoWorker} {ws : List GoWorker} → Repr wq (w ∷ ws) → is_empty wq ≡ false
unfolding is_empty
is_empty-cons r = ground (arith, r.not_full)

pub is_empty-nil : {wq : LoopQueue} → Repr wq [] → is_empty wq ≡ true
unfolding is_empty
is_empty-nil r = ground (arith, r.not_full, r.full, r.head_in)

pub head-cons :
    {wq : LoopQueue} {w : GoWorker} {ws : List GoWorker}
    → Repr wq (w ∷ ws)
    → get_or wq.items wq.head none ≡ some w
head-cons r = cc (r.held)

-- Never more workers than slots.
pub length-le-size : {wq : LoopQueue} {ws : List GoWorker} → Repr wq ws → length ws ≤ wq.size
length-le-size {wq} r = elim (Bool-cases wq.is_full) [
  | inl e ↦ omega (arith, (r.full e).0)
  | inr e ↦ ground (arith, r.not_full e, r.head_in, r.tail_in)
]

-- With one worker fewer the slots still reach from the next head to the tail.
steps_drop :
    {wq : LoopQueue} {w : GoWorker} {ws : List GoWorker}
    → Repr wq (w ∷ ws)
    → length ws ≡ steps wq.size (next wq.size wq.head) wq.tail
steps_drop {wq} r = elim (Bool-cases wq.is_full) [
  | inl e ↦ ground (arith, r.full e, r.head_in, r.tail_in)
  | inr e ↦ ground (arith, r.not_full e, r.head_in, r.tail_in)
]

steps_round : (size h n : ℕ) → h < size → suc n ≤ size → n ≤ steps size (next size h) h
steps_round size h n a b = ground arith

pub drop_head-Repr :
    {wq : LoopQueue} {w : GoWorker} {ws : List GoWorker} → Repr wq (w ∷ ws) → Repr (drop_head wq) ws
drop_head-Repr {wq} {w} {ws} r = record {
  slots = length-set wq.items wq.head none ∙ r.slots;
  head_in = ground (arith, r.head_in);
  tail_in = r.tail_in;
  held =
      window-set_outside wq.items wq.size (next wq.size wq.head) wq.head (length ws) none
        (ground (arith, r.head_in)) r.head_in
        (steps_round wq.size wq.head (length ws) r.head_in (length-le-size r))
      ∙ cc (r.held);
  not_full = λ h. steps_drop r;
  full = λ h. cc;
}

detach-cons :
    {wq : LoopQueue} {w : GoWorker} {ws : List GoWorker}
    → Repr wq (w ∷ ws)
    → detach wq ≡ (some w, drop_head wq)
unfolding detach
detach-cons r = ground (arith, is_empty-cons r, head-cons r)

detach-nil : {wq : LoopQueue} → Repr wq [] → detach wq ≡ (none, wq)
unfolding detach
detach-nil r = ground (arith, is_empty-nil r)

-- On a queue that holds `ws`, `detach` returns the worker of `get` on `ws`, the oldest or none, and
-- leaves a queue that holds the list of `get`.
pub detach_refines :
    {wq : LoopQueue} (ws : List GoWorker)
    → Repr wq ws
    → ((detach wq).0 ≡ (get ws).0) × Repr (detach wq).1 (get ws).1
unfolding get
detach_refines [] r = rw (detach-nil r) (refl, r)
detach_refines (w ∷ ws) r = rw (detach-cons r) (refl, drop_head-Repr r)
