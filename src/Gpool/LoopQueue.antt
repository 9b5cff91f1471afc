-- ===== src/Gpool/LoopQueue.antt =====
-- gpool/worker_loop_queue.go: idle workers in a circular queue of a fixed size.
pub mod Window
pub mod Repr
pub mod Expiry
pub mod Release
use gocommon.Base.{
  ℕ, zero, suc, ◌+◌, ◌-◌, ◌≡◌, Bool, true, false, not, ◌&&◌, Option, none, some, List, [], ◌∷◌,
  ◌++◌, ltb, ◌==◌, nat_eq, if◌then◌else◌, get_or, set, replicate,
}
use gocommon.Gpool.Worker.{GoWorker, QueueError, queue_is_full, queue_is_released, is_fresh}

-- `loopQueue`. A slot of `items` is a pointer that may be nil.
pub record LoopQueue : Type 0 where
  pub items : List (Option GoWorker)
  pub expiry : List (Option GoWorker)
  pub head : ℕ
  pub tail : ℕ
  pub size : ℕ
  pub is_full : Bool

unfoldable pub new_worker_loop_queue : ℕ → LoopQueue
new_worker_loop_queue size = record {
  items = replicate size none;
  expiry = [];
  head = 0;
  tail = 0;
  size = size;
  is_full = false;
}

unfoldable pub len : LoopQueue → ℕ
len wq =
    if wq.size == 0
    then 0
    else if wq.head == wq.tail
    then (if wq.is_full then wq.size else 0)
    else if ltb wq.head wq.tail
    then wq.tail - wq.head
    else wq.size - wq.head + wq.tail

unfoldable pub is_empty : LoopQueue → Bool
is_empty wq = wq.head == wq.tail && not wq.is_full

-- An index after its increment: back to 0 at the size.
abbrev pub next : ℕ → ℕ → ℕ
next size i = if i + 1 == size then 0 else i + 1

unfoldable pub insert : GoWorker → LoopQueue → Option QueueError × LoopQueue
insert worker wq =
    if wq.size == 0
    then (some queue_is_released, wq)
    else if wq.is_full
    then (some queue_is_full, wq)
    else let tail' = next wq.size wq.tail in
      (
        none,
        record wq {
          items = set wq.items wq.tail (some worker);
          tail = tail';
          is_full = if tail' == wq.head then true else wq.is_full;
        },
      )

-- The steps that `detach` and `retrieveExpiry` share: clear the slot at `head` and move on.
abbrev pub drop_head : LoopQueue → LoopQueue
drop_head wq = record wq {
  items = set wq.items wq.head none;
  head = next wq.size wq.head;
  is_full = false;
}

unfoldable pub detach : LoopQueue → Option GoWorker × LoopQueue
unfolding is_empty
detach wq = if is_empty wq then (none, wq) else (get_or wq.items wq.head none, drop_head wq)

-- The loop of `retrieveExpiry`, which returns `wq.expiry`. `none` is the end of the fuel, or a
-- read of the time of a nil worker, which panics.
unfoldable pub expire : ℕ → ℕ → ℕ → LoopQueue → Option LoopQueue
unfolding is_empty
expire zero now duration wq = none
expire (suc fuel) now duration wq = elim (is_empty wq) [
  | true ↦ some wq
  | false ↦ elim (get_or wq.items wq.head none) [
    | none ↦ none
    | some w ↦ elim (is_fresh now duration w) [
      | true ↦ some wq
      | false ↦
          expire fuel now duration (record (drop_head wq) { expiry = wq.expiry ++ some w ∷ [] })
    ]
  ]
]

unfoldable pub retrieve_expiry : ℕ → ℕ → LoopQueue → Option (List (Option GoWorker) × LoopQueue)
unfolding is_empty expire
retrieve_expiry now duration wq =
    if is_empty wq
    then some ([], wq)
    else elim (expire (wq.size + 1) now duration (record wq { expiry = [] })) [
      | none ↦ none
      | some left ↦ some (left.expiry, left)
    ]

-- The loop `for w := wq.detach(); w != nil; { w.args <- nil }` of `reset`, which detaches once,
-- before the first round. The list is of the workers that are sent nil so far.
unfoldable pub notify : ℕ → Option GoWorker → List GoWorker → Option (List GoWorker)
notify zero w sent = none
notify (suc fuel) none sent = some sent
notify (suc fuel) (some w) sent = notify fuel (some w) (sent ++ w ∷ [])

-- `reset`, with the workers that it sends nil. `none` means that the fuel ran out.
unfoldable pub reset : ℕ → LoopQueue → Option (List GoWorker × LoopQueue)
unfolding is_empty detach notify
reset fuel wq =
    if is_empty wq
    then some ([], wq)
    else let (w, wq') = detach wq in
      elim (notify fuel w []) [
        | none ↦ none
        | some sent ↦ some (sent, record wq' { items = []; size = 0; head = 0; tail = 0 })
      ]
