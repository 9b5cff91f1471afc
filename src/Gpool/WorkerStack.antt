-- ===== src/Gpool/WorkerStack.antt =====
-- gpool/work_stack.go: idle workers as a stack, the last one put back on top.
pub mod Search
pub mod Laws
use gocommon.Base.{
  ℕ, zero, suc, ◌+◌, ◌-◌, ◌/◌, Bool, true, false, Option, none, some, List, [], ◌∷◌, ◌++◌, ltb,
  ◌==◌, if◌then◌else◌, length, get_elem?, take, drop, nat_eq,
}
use gocommon.Gpool.Worker.{GoWorker, QueueError, is_fresh}

-- `workerStack`. The slots beyond `len(items)`, which the code sets to nil, are not read again.
pub record WorkerStack : Type 0 where
  pub items : List GoWorker
  pub expiry : List GoWorker
  pub size : ℕ

unfoldable pub new_worker_stack : ℕ → WorkerStack
new_worker_stack size = record { items = []; expiry = []; size = size }

unfoldable pub len : WorkerStack → ℕ
len wq = length wq.items

unfoldable pub is_empty : WorkerStack → Bool
is_empty wq = length wq.items == 0

-- The error is always nil.
unfoldable pub insert : GoWorker → WorkerStack → Option QueueError × WorkerStack
insert worker wq = (none, record wq { items = wq.items ++ worker ∷ [] })

unfoldable pub detach : WorkerStack → Option GoWorker × WorkerStack
unfolding len
detach wq =
    let l = len wq in
    if l == 0
    then (none, wq)
    else (get_elem? wq.items (l - 1), record wq { items = take (l - 1) wq.items })

-- The loop of `binarySearch`. `r` is held as `r + 1`, since it falls to -1; the result is
-- `r + 1` too, the number of workers up to and with index `r`. `none` is a read out of range,
-- or the end of the fuel.
unfoldable pub binary_search : ℕ → List GoWorker → ℕ → ℕ → ℕ → ℕ → Option ℕ
binary_search zero items l r now duration = none
binary_search (suc fuel) items l r now duration = elim (ltb l r) [
  | false ↦ some r
  | true ↦
      let mid = (l + (r - 1)) / 2 in
      elim (get_elem? items mid) [
        | none ↦ none
        | some w ↦ elim (is_fresh now duration w) [
          | true ↦ binary_search fuel items l mid now duration
          | false ↦ binary_search fuel items (mid + 1) r now duration
        ]
      ]
]

-- `wq.expiry[:0]` and the append leave the expired workers in `expiry`; `copy` and the cut leave
-- the others in `items`. `index != -1` is `k` other than 0.
split_expiry : ℕ → WorkerStack → List GoWorker × WorkerStack
split_expiry k wq =
    if k == 0
    then ([], record wq { expiry = [] })
    else (take k wq.items, record wq { items = drop k wq.items; expiry = take k wq.items })

unfoldable pub retrieve_expiry : ℕ → ℕ → WorkerStack → Option (List GoWorker × WorkerStack)
unfolding len binary_search split_expiry is_fresh
retrieve_expiry now duration wq =
    let n = len wq in
    if n == 0 then some ([], wq) else elim (binary_search (n + 1) wq.items 0 n now duration) [
      | none ↦ none
      | some k ↦ some (split_expiry k wq)
    ]

-- `reset` sends nil to every worker on the stack, bottom first, and empties it. The first part
-- is the list of workers that are sent nil.
unfoldable pub reset : WorkerStack → List GoWorker × WorkerStack
reset wq = (wq.items, record wq { items = [] })
