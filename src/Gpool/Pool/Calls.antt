-- ===== src/Gpool/Pool/Calls.antt =====
-- What the calls of gpool/pool.go return: `NewPool`, `Submit`, `Release` and `revertWorker`.
use gocommon.Base.{
  ℕ, ◌<◌, ◌≡◌, ◌≢◌, ◌↔◌, refl, ap, Bool, true, false, ◌||◌, some, arith, ℤ, pos, negsuc, pos_part,
  ltb_ℤ, leb_ℤ, int_eq, ◌==◌, inl, inr, if_cases, subst, if◌then◌else◌,
}
use gocommon.Gpool.Worker.{GoWorker}
use gocommon.Gpool.WorkerStack.{WorkerStack}
use gocommon.Gpool.WorkerStack
use gocommon.Gpool.WorkerStack.Laws
use gocommon.Gpool.WorkerArray
use gocommon.Gpool.WorkerArray.{
  Holds, detach-Holds, new_worker_array, new_worker_array-Holds, new_stack-Holds, stack, stack_type,
  loop_queue_type,
}
use gocommon.Gpool.Pool.{
  Pool, PoolType, pool_type_worker, Options, Result, ok, err, pool_closed, pool_overload, got,
  spawn, normal_size, new_pool, build_pool, make_pool, choose_array, with_expiry,
  invalid_pool_expiry, invalid_pre_alloc_size, retrieve_enter, submit, close, revert_worker,
  revert_allowed,
}
use gocommon.Gpool.Pool.Steps.{System, start_of, Reach}
use gocommon.Gpool.Pool.Retrieve.{Sound}
use gocommon.Gpool.Pool.Invariant.{Reach-Sound}

-- What a pool is right after it is made.
abbrev Fresh : Result Pool → Type 0
Fresh (err x) = Unit
Fresh (ok p) =
    Holds p.workers 0
    × (p.running ≡ 0)
    × (p.closed ≡ false)
    × (p.blocking_num ≡ 0)
    × (0 < pos_part p.options.expiry_duration)

normal_size-pos :
    (size : ℤ) → (normal_size size == negsuc 0) ≡ false → 0 < pos_part (normal_size size)
normal_size-pos size h = ground arith

make_pool-Fresh :
    (size : ℤ) (opts : Options) (t : PoolType) (a : WorkerArray.WorkerArray)
    → Holds a 0
    → 0 < pos_part opts.expiry_duration
    → Fresh (ok (make_pool size opts t a))
unfolding make_pool
make_pool-Fresh size opts t a h d = (h, refl, refl, refl, d)

with_expiry-pos :
    (opts : Options)
    → ltb_ℤ opts.expiry_duration (pos 0) ≡ false
    → 0 < pos_part (with_expiry opts).expiry_duration
with_expiry-pos opts h = ground arith

-- A pool that can be made has a positive expiry, starts open with no goroutine and no idle worker,
-- and makes its array of a size that the array can work with.
build_pool-Fresh :
    (size : ℤ) (opts : Options) (t : PoolType) → Fresh (build_pool (normal_size size) opts t)
unfolding build_pool choose_array
build_pool-Fresh size opts t =
    let z = normal_size size in
    let o = with_expiry opts in
    if_cases Fresh (ltb_ℤ opts.expiry_duration (pos 0)) (err invalid_pool_expiry)
      (choose_array z o t) (λ _. tt)
      λ nonneg.
        if_cases Fresh o.pre_alloc
          (if z == negsuc 0
            then err invalid_pre_alloc_size
            else ok (make_pool z o t (new_worker_array loop_queue_type (pos_part z))))
          (ok (make_pool z o t (new_worker_array stack_type 0)))
          (λ _.
            if_cases Fresh (z == negsuc 0) (err invalid_pre_alloc_size)
              (ok (make_pool z o t (new_worker_array loop_queue_type (pos_part z)))) (λ _. tt)
              λ some_size.
                make_pool-Fresh z o t _
                  (new_worker_array-Holds loop_queue_type (pos_part z)
                    (normal_size-pos size some_size))
                  (with_expiry-pos opts nonneg))
          (λ _. make_pool-Fresh z o t _ (new_stack-Holds 0) (with_expiry-pos opts nonneg))

-- `NewPool` fails exactly on a negative expiry, and on a pool without limit that is to allocate
-- its workers beforehand.
pub new_pool_errors :
    (size : ℤ) (opts : Options)
    → ((new_pool size opts ≡ err invalid_pool_expiry) ↔ (ltb_ℤ opts.expiry_duration (pos 0) ≡ true))
      × ((new_pool size opts ≡ err invalid_pre_alloc_size) ↔ (
          (ltb_ℤ opts.expiry_duration (pos 0) ≡ false)
          × (opts.pre_alloc ≡ true)
          × (leb_ℤ size (pos 0) ≡ true)))
unfolding new_pool build_pool choose_array
new_pool_errors size opts = ground arith

Fresh-Sound : {p : Pool} (r : Result Pool) → Fresh r → r ≡ ok p → Sound (start_of p)
Fresh-Sound {p} r f e =
    let (h, run, _, none_blocked, _) = subst Fresh e f in
    (
      0,
      record {
        stored = h;
        accounts = omega (arith, run);
        waiting = none_blocked;
        limited = λ ne. omega arith;
      },
    )

-- From a pool that `NewPool` made, however its callers, its workers, its clean-up, `Tune`,
-- `Release` and `Reboot` interleave: the running goroutines are the busy ones and the idle ones in
-- the array, the array stays well-formed, `blocking_num` is the number of callers in `cond.Wait`,
-- and that number is within `max_blocking_tasks` where this is not 0, and 0 where it is negative.
pub new_pool-Sound :
    (size : ℤ) (opts : Options) {p : Pool} {t : System}
    → new_pool size opts ≡ ok p
    → Reach (start_of p) t
    → Sound t
new_pool-Sound size opts e r = Reach-Sound r (
    Fresh-Sound (new_pool size opts)
      (unfold new_pool in build_pool-Fresh size opts pool_type_worker) e)

-- Whether a pool has room for one more goroutine, by its own account.
abbrev pub has_room : Pool → Bool
has_room p = p.capacity == negsuc 0 || ltb_ℤ (pos p.running) p.capacity

-- A call on an open pool that never blocks, with `n` idle workers, gets an idle worker if there is
-- one; else it spawns one if there is room; else it fails with `pool_overload`. It never waits.
pub submit_nonblocking :
    (p : Pool) (n : ℕ)
    → Holds p.workers n
    → p.closed ≡ false
    → p.options.nonblocking ≡ true
    → (((submit p).0 ≡ err pool_overload) ↔ ((n ≡ 0) × (has_room p ≡ false)))
      × (((submit p).0 ≡ ok spawn) ↔ ((n ≡ 0) × (has_room p ≡ true)))
      × (((w : GoWorker) × ((submit p).0 ≡ ok (got w))) ↔ (n ≢ 0))
unfolding submit retrieve_enter
submit_nonblocking p n h o b = elim (detach-Holds p.workers n h) [
  | inl (z, e, left) ↦ (
    ground (arith, e),
    ground (arith, e),
    ((λ q. absurd (let (w, g) = q in ground (arith, e))), λ ne. absurd (ne z)),
  )
  | inr (w, m, z, e, left) ↦ (
    ground (arith, e),
    ground (arith, e),
    ((λ _ q. ground (arith, q)), λ ne. (w, ground (arith, e))),
  )
]

-- After `Release` has stored the state every call fails with `pool_closed`, no worker is put back,
-- and neither changes the pool.
pub close_refuses :
    (p : Pool) (now : ℕ) (w : GoWorker)
    → (submit (close p) ≡ (err pool_closed, close p))
      × (revert_worker now w (close p) ≡ (false, close p))
unfolding submit close revert_worker
close_refuses p now w = (refl, ground arith)

revert_stack :
    (p : Pool) (s : WorkerStack) (now : ℕ) (w : GoWorker)
    → p.workers ≡ stack s
    → revert_allowed p ≡ true
    → revert_worker now w p ≡ (
      true,
      record p { workers = stack (WorkerStack.insert (record w { recycle_time = now }) s).1 },
    )
unfolding revert_worker WorkerArray.insert WorkerStack.insert
revert_stack p s now w e a = ground (arith, e, a)

submit_stack :
    (p : Pool) (s : WorkerStack) (w : GoWorker)
    → p.workers ≡ stack s
    → p.closed ≡ false
    → (WorkerStack.detach s).0 ≡ some w
    → (submit p).0 ≡ ok (got w)
unfolding submit retrieve_enter WorkerArray.detach
submit_stack p s w e c d = ground (arith, e, c, d)

revert_allowed-open : (p : Pool) → revert_allowed p ≡ true → p.closed ≡ false
unfolding revert_allowed
revert_allowed-open p a = ground arith

-- On a pool that keeps its idle workers on a stack, a worker that may be put back is the one that
-- the next call gets, with the time of its return.
pub submit-revert_worker :
    (p : Pool) (s : WorkerStack) (now : ℕ) (w : GoWorker)
    → p.workers ≡ stack s
    → revert_allowed p ≡ true
    → (submit (revert_worker now w p).1).0 ≡ ok (got (record w { recycle_time = now }))
submit-revert_worker p s now w e a =
    let w' = record w { recycle_time = now } in
    rw (revert_stack p s now w e a) (
      submit_stack _ (WorkerStack.insert w' s).1 w' refl (revert_allowed-open p a)
        (ap (λ r. r.0) (WorkerStack.Laws.detach-insert w' s)))
