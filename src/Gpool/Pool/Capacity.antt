-- ===== src/Gpool/Pool/Capacity.antt =====
-- `retrieveWorker` of gpool/pool.go gives up the lock before the goroutine that it spawns is counted:
-- the number of goroutines against the capacity.
use gocommon.Base.{
  ℕ, zero, suc, ◌+◌, ◌<◌, ◌≡◌, refl, ap, ◌∙◌, subst, false, arith, ◌^◌, pos, to_int32-small,
}
use gocommon.Gpool.WorkerArray
use gocommon.Gpool.WorkerArray.{new_worker_array, stack_type}
use gocommon.Gpool.WorkerStack
use gocommon.Gpool.Pool.{
  Pool, Options, ok, spawn, new_pool, build_pool, choose_array, make_pool, with_expiry,
  pool_type_worker, retrieve_enter, inc_running,
}
use gocommon.Gpool.Pool.Steps.{System, settle, start_of, enter, start, Reach, here, next}

-- `k` callers decide to spawn before the first of them has counted its goroutine.
entered :
    {p : Pool}
    → retrieve_enter p ≡ (spawn, p)
    → (k : ℕ) → Reach (start_of p) (record (start_of p) { spawning = k })
unfolding settle
entered e zero = here
entered {p} e (suc k) =
    subst (Reach (start_of p))
      (ap (λ r. settle r (record (start_of p) { spawning = k })) e
        ∙ ap (λ n. record (start_of p) { spawning = n }) (omega arith))
      (next (entered e k) (enter (record (start_of p) { spawning = k })))

-- Those that have decided spawn, one after the other.
started :
    (k : ℕ) {u s : System}
    → s.spawning ≡ k
    → Reach u s
    → (t : System) × Reach u t × (t.pool.running ≡ s.pool.running + k)
unfolding inc_running
started zero {s = s} e r = (s, r, omega arith)
started (suc k) {s = s} e r =
    let (t, rt, n) = started k refl (next r (start s k e)) in (t, rt, omega (arith, n))

new_pool_stack :
    (size : ℕ) (opts : Options) {p : Pool}
    → opts.pre_alloc ≡ false
    → new_pool (pos (suc size)) opts ≡ ok p
    → make_pool (pos (suc size)) (with_expiry opts) pool_type_worker (new_worker_array stack_type 0)
      ≡ p
unfolding new_pool build_pool choose_array
new_pool_stack size opts pre e = ground (arith, pre, e)

stack_spawns :
    (size : ℕ) (opts : Options)
    → suc size < 2 ^ 31
    → let p = make_pool (pos (suc size)) opts pool_type_worker (new_worker_array stack_type 0) in
      (retrieve_enter p ≡ (spawn, p)) × (p.running ≡ 0) × (p.capacity ≡ pos (suc size))
unfolding make_pool retrieve_enter new_worker_array WorkerArray.detach WorkerStack.detach
    WorkerStack.new_worker_stack
stack_spawns size opts lt = rw (to_int32-small (suc size) lt) (ground arith, refl, refl)

-- A pool of any positive size, with its idle workers on a stack, can have any number `k` of
-- goroutines running at once: more than its capacity, if `k` is.
pub capacity_exceeded :
    (size k : ℕ) (opts : Options) {p : Pool}
    → suc size < 2 ^ 31
    → opts.pre_alloc ≡ false
    → new_pool (pos (suc size)) opts ≡ ok p
    → (p.capacity ≡ pos (suc size)) × (t : System) × Reach (start_of p) t × (t.pool.running ≡ k)
capacity_exceeded size k opts {p = p} lt pre e =
    let (spawns, none_yet, cap) =
      subst (λ q. (retrieve_enter q ≡ (spawn, q)) × (q.running ≡ 0) × (q.capacity ≡ pos (suc size)))
        (new_pool_stack size opts pre e) (stack_spawns size (with_expiry opts) lt) in
    let (t, r, n) = started k refl (entered spawns k) in (cap, t, r, omega (arith, n))
