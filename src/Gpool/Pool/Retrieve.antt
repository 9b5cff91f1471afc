-- ===== src/Gpool/Pool/Retrieve.antt =====
-- What holds between two cuts of gpool/pool.go, and that `retrieveWorker` keeps it.
use gocommon.Base.{
  leb_ℤ, pos, pos_part, int_eq, suc, false, ℕ, suc, ◌+◌, ◌≤◌, ◌≡◌, ◌≢◌, List, ◌∷◌, ◌++◌, arith, ℤ,
  length, length-append, if_both, ap, ◌∙◌, ◌-◌, Bool-cases, not, ◌&&◌, ◌==◌, nat_eq, inl, inr,
}
use gocommon.Gpool.Worker.{GoWorker}
use gocommon.Gpool.WorkerArray
use gocommon.Gpool.WorkerArray.{
  Holds, detach-Holds, insert-Holds, retrieve_expiry-Holds, reset-Holds,
}
use gocommon.Gpool.Pool.{
  Pool, got, spawn, refused, retrieve_enter, retrieve_again, retrieve_wake, block,
}
use gocommon.Gpool.Pool.Steps.{System, settle}

-- The running goroutines are those that hold a task and those that are idle in the array. The
-- pool's count of waiting callers is right, and within the limit where there is one.
pub record IsSound (s : System) (idle : ℕ) : Type 0 where
  pub stored : Holds s.pool.workers idle
  pub accounts : s.pool.running ≡ s.busy + idle
  pub waiting : s.pool.blocking_num ≡ length s.waiters
  pub limited :
      s.pool.options.max_blocking_tasks ≢ pos 0
      → length s.waiters ≤ pos_part s.pool.options.max_blocking_tasks

abbrev pub Sound : System → Type 0
Sound s = (idle : ℕ) × IsSound s idle

-- A caller that is not refused is within the limit.
not_refused :
    (limit : ℤ) (blocking waiters : ℕ)
    → limit ≢ pos 0
    → (not (limit == pos 0) && leb_ℤ limit (pos blocking)) ≡ false
    → blocking ≡ waiters
    → suc waiters ≤ pos_part limit
not_refused limit blocking waiters ne t e = elim (Bool-cases (limit == pos 0)) [
  | inl z ↦ absurd (ne ((int_eq.same_iff limit (pos 0)).0 z))
  | inr f ↦ ground (arith, f, t, e)
]

-- A pool whose array has changed into one that holds as many workers.
swap-IsSound :
    {s : System} {idle : ℕ} (a : WorkerArray.WorkerArray)
    → IsSound s idle
    → Holds a idle
    → IsSound (record s { pool = record s.pool { workers = a } }) idle
swap-IsSound a v h = record {
  stored = h;
  accounts = v.accounts;
  waiting = v.waiting;
  limited = v.limited;
}

module _ (s : System) {idle : ℕ} where
  module _ (p : Pool) (v : IsSound (record s { pool = p }) idle) where
    spawn-IsSound : IsSound (settle (spawn, p) s) idle
    unfolding settle
    spawn-IsSound = record {
      stored = v.stored;
      accounts = v.accounts;
      waiting = v.waiting;
      limited = v.limited;
    }

    refused-IsSound : IsSound (settle (refused, p) s) idle
    unfolding settle
    refused-IsSound = v

    block-IsSound : (c : ℤ) → IsSound (settle (block c p) s) idle
    unfolding settle block
    block-IsSound c =
        elim (Bool-cases (
          not (p.options.max_blocking_tasks == pos 0)
          && leb_ℤ p.options.max_blocking_tasks (pos p.blocking_num))) [
            | inl t ↦ rw t v
            | inr t ↦ rw t (record {
              stored = v.stored;
              accounts = v.accounts;
              waiting = omega (arith, v.waiting);
              limited = λ ne.
                  not_refused p.options.max_blocking_tasks p.blocking_num (length s.waiters) ne t
                    v.waiting;
            })
          ]

got-IsSound :
    (s : System) {m : ℕ} (w : GoWorker) (p : Pool) (a : WorkerArray.WorkerArray)
    → IsSound (record s { pool = p }) (suc m)
    → Holds a m
    → IsSound (settle (got w, record p { workers = a }) s) m
unfolding settle
got-IsSound s w p a v h = record {
  stored = h;
  accounts = omega (arith, v.accounts);
  waiting = v.waiting;
  limited = v.limited;
}

pub enter-Sound : (s : System) → Sound s → Sound (settle (retrieve_enter s.pool) s)
unfolding retrieve_enter
enter-Sound s (idle, v) = elim (detach-Holds s.pool.workers idle v.stored) [
  | inl (z, e, h) ↦
      let p = record s.pool { workers = (WorkerArray.detach s.pool.workers).1 } in
      let v' = swap-IsSound (WorkerArray.detach s.pool.workers).1 v h in
      (
        idle,
        rw (e, retrieve_enter)
            (if_both (λ r. IsSound (settle r s) idle) _ _ _ (spawn-IsSound s p v')
              (if_both (λ r. IsSound (settle r s) idle) _ _ _ (refused-IsSound s p v')
                (block-IsSound s p v' s.pool.capacity))),
      )
  | inr (w, m, z, e, h) ↦ (
    m,
    rw (e, retrieve_enter)
        (got-IsSound s w s.pool (WorkerArray.detach s.pool.workers).1 (rw z at v) h),
  )
]

length-take_out :
    (before after : List ℤ) (c : ℤ) → length (before ++ c ∷ after) ≡ suc (length (before ++ after))
length-take_out before after c =
    omega (arith, length-append before (c ∷ after), length-append before after)

-- A caller that leaves `cond.Wait` is no longer counted.
woken-IsSound :
    (s : System) (idle : ℕ) (before after : List ℤ) (c : ℤ)
    → s.waiters ≡ before ++ c ∷ after
    → IsSound s idle
    → IsSound
        (record s {
          pool = record s.pool { blocking_num = s.pool.blocking_num - 1 };
          waiters = before ++ after;
        })
        idle
woken-IsSound s idle before after c e v =
    let n = ap length e ∙ length-take_out before after c in
    record {
      stored = v.stored;
      accounts = v.accounts;
      waiting = omega (arith, v.waiting, n);
      limited = λ ne. omega (arith, v.limited ne, n);
    }

again-Sound :
    (c : ℤ) (p : Pool) (s : System)
    → Sound (record s { pool = p })
    → Sound (settle (retrieve_again c p) s)
unfolding retrieve_again
again-Sound c p s (idle, v) = elim (Bool-cases (p.running == 0)) [
  | inl z ↦ (
    idle,
    rw (z, retrieve_again)
        (if_both (λ r. IsSound (settle (r, p) s) idle) p.closed _ _ (refused-IsSound s p v)
          (spawn-IsSound s p v)),
  )
  | inr ne ↦ elim (detach-Holds p.workers idle v.stored) [
    | inl (z, e, h) ↦
        let p' = record p { workers = (WorkerArray.detach p.workers).1 } in
        let v' = swap-IsSound (WorkerArray.detach p.workers).1 v h in
        (
          idle,
          rw (ne, retrieve_again)
              (rw e (
                if_both (λ r. IsSound (settle r s) idle) _ _ _ (spawn-IsSound s p' v')
                  (block-IsSound s p' v' c))),
        )
    | inr (w, m, z, e, h) ↦ (
      m,
      rw (ne, retrieve_again)
          (rw e (got-IsSound s w p (WorkerArray.detach p.workers).1 (rw z at v) h)),
    )
  ]
]

pub wake-Sound :
    (s : System) (before after : List ℤ) (c : ℤ)
    → s.waiters ≡ before ++ c ∷ after
    → Sound s
    → Sound (settle (retrieve_wake c s.pool) (record s { waiters = before ++ after }))
unfolding retrieve_wake
wake-Sound s before after c e (idle, v) =
    again-Sound c (record s.pool { blocking_num = s.pool.blocking_num - 1 })
      (record s { waiters = before ++ after }) (idle, woken-IsSound s idle before after c e v)
