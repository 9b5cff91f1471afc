-- ===== src/Gpool/WorkerArray.antt =====
-- The interface `workerArray` of gpool/worker.go, and what both of its implementations promise
-- of the workers that they hold.
use gocommon.Base.{
  ℕ, zero, suc, ◌+◌, ◌≡◌, refl, ap, ◌∙◌, sym, ◌<◌, ◌⊎◌, inl, inr, true, Option, none, some, List,
  [], ◌∷◌, ◌++◌, map, length, length-append, arith, ◌==◌, nat_eq, Bool-cases, subst,
}
use gocommon.Gpool.Worker.{GoWorker, QueueError, queue_is_full}
use gocommon.Gpool.WorkerStack
use gocommon.Gpool.WorkerStack.{WorkerStack, new_worker_stack}
use gocommon.Gpool.WorkerStack.Laws
use gocommon.Gpool.LoopQueue
use gocommon.Gpool.LoopQueue.{LoopQueue, new_worker_loop_queue}
use gocommon.Gpool.LoopQueue.Repr.{
  Repr, put, get, insert_refines, detach_refines, new_worker_loop_queue-Repr, is_empty-nil,
}
use gocommon.Gpool.LoopQueue.Release.{reset_never_returns}
use gocommon.Gpool.LoopQueue.Expiry.{
  expired_prefix, fresh_suffix, retrieve_expiry_lem, expired_prefix-append,
}

pub data ArrayType : Type 0 where
  stack_type loop_queue_type : ArrayType

pub data WorkerArray : Type 0 where
  stack : WorkerStack → WorkerArray
  loop_queue : LoopQueue → WorkerArray

-- The two values of `arrayType` that the code has; its default is the stack.
unfoldable pub new_worker_array : ArrayType → ℕ → WorkerArray
new_worker_array stack_type size = stack (new_worker_stack size)
new_worker_array loop_queue_type size = loop_queue (new_worker_loop_queue size)

unfoldable pub insert : GoWorker → WorkerArray → Option QueueError × WorkerArray
insert w (stack s) = let (e, s') = WorkerStack.insert w s in (e, stack s')
insert w (loop_queue q) = let (e, q') = LoopQueue.insert w q in (e, loop_queue q')

unfoldable pub detach : WorkerArray → Option GoWorker × WorkerArray
detach (stack s) = let (w, s') = WorkerStack.detach s in (w, stack s')
detach (loop_queue q) = let (w, q') = LoopQueue.detach q in (w, loop_queue q')

-- The number of workers handed out, and the array that is left.
unfoldable pub retrieve_expiry : ℕ → ℕ → WorkerArray → Option (ℕ × WorkerArray)
retrieve_expiry now duration (stack s) = elim (WorkerStack.retrieve_expiry now duration s) [
  | none ↦ none
  | some (out, s') ↦ some (length out, stack s')
]
retrieve_expiry now duration (loop_queue q) = elim (LoopQueue.retrieve_expiry now duration q) [
  | none ↦ none
  | some (out, q') ↦ some (length out, loop_queue q')
]

-- The number of workers that are told to stop, and the array that is left.
unfoldable pub reset : ℕ → WorkerArray → Option (ℕ × WorkerArray)
reset fuel (stack s) = let (sent, s') = WorkerStack.reset s in some (length sent, stack s')
reset fuel (loop_queue q) = elim (LoopQueue.reset fuel q) [
  | none ↦ none
  | some (sent, q') ↦ some (length sent, loop_queue q')
]

-- `a` holds `n` workers.
abbrev pub Holds : WorkerArray → ℕ → Type 0
Holds (stack s) n = length s.items ≡ n
Holds (loop_queue q) n = (ws : List GoWorker) × Repr q ws × (length ws ≡ n)

-- A new stack holds no worker, whatever its size.
pub new_stack-Holds : (size : ℕ) → Holds (new_worker_array stack_type size) 0
unfolding new_worker_array new_worker_stack
new_stack-Holds size = refl

-- An array made for a pool, of a positive size where it is a queue, holds no worker.
pub new_worker_array-Holds :
    (t : ArrayType) (size : ℕ) → 0 < size → Holds (new_worker_array t size) 0
unfolding new_worker_array new_worker_stack
new_worker_array-Holds stack_type size h = refl
new_worker_array-Holds loop_queue_type size h = ([], new_worker_loop_queue-Repr size h, refl)

-- `detach` gives nil and changes nothing, from an array that holds no worker, or else it gives a
-- worker and leaves one fewer.
pub detach-Holds :
    (a : WorkerArray) (n : ℕ)
    → Holds a n
    → ((n ≡ 0) × ((detach a).0 ≡ none) × Holds (detach a).1 n)
      ⊎ ((w : GoWorker) × (m : ℕ) × (n ≡ suc m) × ((detach a).0 ≡ some w) × Holds (detach a).1 m)
unfolding detach WorkerStack.len get
detach-Holds (stack s) zero h = let e = WorkerStack.Laws.detach-none s h in inl (refl, rw e, rw e h)
detach-Holds (stack s) (suc m) h =
    let (w, e, less) = WorkerStack.Laws.detach-some s (omega arith) in
    inr (w, m, refl, e, omega arith)
detach-Holds (loop_queue q) n ([], r, e) =
    let (found, left) = detach_refines [] r in inl (sym e, found, ([], left, e))
detach-Holds (loop_queue q) n (w ∷ ws, r, e) =
    let (found, left) = detach_refines (w ∷ ws) r in
    inr (w, length ws, sym e, found, (ws, left, refl))

-- `insert` either stores the worker or returns an error and stores nothing.
pub insert-Holds :
    (w : GoWorker) (a : WorkerArray) (n : ℕ)
    → Holds a n
    → (((insert w a).0 ≡ none) × Holds (insert w a).1 (suc n))
      ⊎ ((x : QueueError) × ((insert w a).0 ≡ some x) × Holds (insert w a).1 n)
unfolding insert WorkerStack.insert put
insert-Holds w (stack s) n h = inl (refl, omega (arith, length-append s.items (w ∷ [])))
insert-Holds w (loop_queue q) n (ws, r, e) = elim (Bool-cases (length ws == q.size)) [
  | inl f ↦
      let (found, left) = insert_refines w r in
      inr (queue_is_full, found ∙ rw f, (ws, rw f at left, e))
  | inr f ↦
      let (found, left) = insert_refines w r in
      inl (found ∙ rw f, (ws ++ w ∷ [], rw f at left, omega (arith, length-append ws (w ∷ []))))
]

length-map-some : (ws : List GoWorker) → length (map {B = Option GoWorker} some ws) ≡ length ws
length-map-some [] = refl
length-map-some (w ∷ ws) = ap suc (length-map-some ws)

-- `retrieve_expiry` always returns, and the workers that it hands out and those that it leaves
-- make up the workers that there were.
pub retrieve_expiry-Holds :
    (now duration : ℕ) (a : WorkerArray) (n : ℕ)
    → Holds a n
    → (out : ℕ) × (left : WorkerArray) × (m : ℕ) × (retrieve_expiry now duration a
        ≡ some (out, left))
      × Holds left m
      × (out + m ≡ n)
unfolding retrieve_expiry
retrieve_expiry-Holds now duration (stack s) n h =
    let (out, left, ran, all) = WorkerStack.Laws.retrieve_expiry_conserves now duration s in
    (
      length out,
      stack left,
      length left.items,
      rw (ran, retrieve_expiry),
      refl,
      sym (length-append out left.items) ∙ ap length all ∙ h,
    )
retrieve_expiry-Holds now duration (loop_queue q) n (ws, r, e) =
    let (left, ran, kept) = retrieve_expiry_lem now duration ws r in
    (
      length (map {B = Option GoWorker} some (expired_prefix now duration ws)),
      loop_queue left,
      length (fresh_suffix now duration ws),
      rw (ran, retrieve_expiry),
      (fresh_suffix now duration ws, kept, refl),
      omega (
        arith,
        length-map-some (expired_prefix now duration ws),
        length-append (expired_prefix now duration ws) (fresh_suffix now duration ws),
        ap length (expired_prefix-append now duration ws),
      ),
    )

reset_loop_queue :
    (fuel : ℕ) (q : LoopQueue) → LoopQueue.reset fuel q ≡ none → reset fuel (loop_queue q) ≡ none
unfolding reset
reset_loop_queue fuel q e = rw (e, reset)

reset_empty :
    (fuel : ℕ) (q : LoopQueue)
    → LoopQueue.is_empty q ≡ true
    → reset fuel (loop_queue q) ≡ some (0, loop_queue q)
unfolding reset LoopQueue.reset
reset_empty fuel q h = ground arith

-- If `reset` returns, it has told every worker to stop, once, and the array holds none.
pub reset-Holds :
    (fuel : ℕ) (a left : WorkerArray) (n sent : ℕ)
    → Holds a n
    → reset fuel a ≡ some (sent, left)
    → (sent ≡ n) × Holds left 0
unfolding WorkerStack.reset
reset-Holds fuel (stack s) left n sent h e =
    let same : stack (WorkerStack.reset s).1 ≡ left = unfold reset in cc in
    (unfold reset in cc, subst (λ a. Holds a 0) same refl)
reset-Holds fuel (loop_queue q) left n sent ([], r, c) e =
    let run = reset_empty fuel q (is_empty-nil r) in
    let same : loop_queue q ≡ left = cc run in (cc run, subst (λ a. Holds a 0) same ([], r, refl))
reset-Holds fuel (loop_queue q) left n sent (w ∷ ws, r, c) e =
    absurd (cc (reset_loop_queue fuel q (reset_never_returns r fuel)))
