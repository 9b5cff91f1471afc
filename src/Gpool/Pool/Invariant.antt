-- ===== src/Gpool/Pool/Invariant.antt =====
-- What each step around a pool of gpool/pool.go keeps: the account of its workers and of the callers
-- that wait.
use gocommon.Base.{
  ℕ, suc, ◌+◌, ◌≡◌, subst, Bool, true, false, none, some, arith, ℤ, inl, inr, Bool-cases,
  Option-cases, if_both, pos_part, to_int32,
}
use gocommon.Gpool.Worker.{GoWorker}
use gocommon.Gpool.WorkerArray
use gocommon.Gpool.WorkerArray.{Holds, insert-Holds, retrieve_expiry-Holds, reset-Holds}
use gocommon.Gpool.Pool.{
  Pool, tune, tune_ignored, reboot, close, reset_workers, inc_running, dec_running, revert_insert,
  purge,
}
use gocommon.Gpool.Pool.Steps.{
  System, Step, enter, wake, start, put_back, finish, clean, resize, shut, empty, restart, Reach,
  here, next,
}
use gocommon.Gpool.Pool.Retrieve.{IsSound, Sound, enter-Sound, wake-Sound}

start-Sound :
    (s : System) (n : ℕ)
    → s.spawning ≡ suc n
    → Sound s
    → Sound (record s { pool = inc_running s.pool; spawning = n; busy = s.busy + 1 })
unfolding inc_running
start-Sound s n e (idle, v) = (
  idle,
  record {
    stored = v.stored;
    accounts = omega (arith, v.accounts);
    waiting = v.waiting;
    limited = v.limited;
  },
)

finish-Sound :
    (s : System) (n : ℕ)
    → s.busy ≡ suc n
    → Sound s
    → Sound (record s { pool = dec_running s.pool; busy = n })
unfolding dec_running
finish-Sound s n e (idle, v) = (
  idle,
  record {
    stored = v.stored;
    accounts = omega (arith, v.accounts);
    waiting = v.waiting;
    limited = v.limited;
  },
)

-- A pool that has only its array changed, so that `moved` workers became busy.
array-Sound :
    (s : System) (a : WorkerArray.WorkerArray) (idle m busy : ℕ)
    → IsSound s idle
    → Holds a m
    → busy + m ≡ s.busy + idle
    → Sound (record s { pool = record s.pool { workers = a }; busy = busy })
array-Sound s a idle m busy v h e = (
  m,
  record {
    stored = h;
    accounts = omega (arith, v.accounts);
    waiting = v.waiting;
    limited = v.limited;
  },
)

put_back-Sound :
    (s : System) (n now : ℕ) (w : GoWorker)
    → s.busy ≡ suc n
    → (revert_insert now w s.pool).0 ≡ true
    → Sound s
    → Sound (record s { pool = (revert_insert now w s.pool).1; busy = n })
unfolding revert_insert
put_back-Sound s n now w e ok (idle, v) = elim (Bool-cases s.pool.closed) [
  | inl c ↦ absurd (ground (arith, c, ok))
  | inr c ↦ elim (insert-Holds (record w { recycle_time = now }) s.pool.workers idle v.stored) [
    | inl (good, h) ↦
        rw (c, revert_insert)
          (rw good (
            array-Sound s (WorkerArray.insert (record w { recycle_time = now }) s.pool.workers).1
              idle (suc idle) n v h (omega arith)))
    | inr (x, bad, h) ↦ absurd (ground (arith, c, bad, ok))
  ]
]

clean-Sound :
    (s : System) (now out : ℕ) (p : Pool)
    → purge now s.pool ≡ some (out, p)
    → Sound s
    → Sound (record s { pool = p; busy = s.busy + out })
clean-Sound s now out p e (idle, v) =
    let (out', left, m, ran, h, sum) =
      retrieve_expiry-Holds now (pos_part s.pool.options.expiry_duration) s.pool.workers idle
        v.stored in
    let run : purge now s.pool ≡ some (out', record s.pool { workers = left }) =
      unfold purge in rw (ran, purge) in
    let same : record s.pool { workers = left } ≡ p = cc run in
    let same_out : out' ≡ out = cc run in
    subst (λ q. Sound (record s { pool = q; busy = s.busy + out })) same
      (array-Sound s left idle m (s.busy + out) v h (omega arith))

empty-Sound :
    (s : System) (fuel sent : ℕ) (p : Pool)
    → reset_workers fuel s.pool ≡ some (sent, p)
    → Sound s
    → Sound (record s { pool = p; busy = s.busy + sent })
empty-Sound s fuel sent p e (idle, v) =
    elim (Option-cases (WorkerArray.reset fuel s.pool.workers)) [
      | inl none_left ↦
          let run : reset_workers fuel s.pool ≡ none =
            unfold reset_workers in rw (none_left, reset_workers) in
          absurd (cc run)
      | inr ((sent', left), ran) ↦
          let run : reset_workers fuel s.pool ≡ some (sent', record s.pool { workers = left }) =
            unfold reset_workers in rw (ran, reset_workers) in
          let same : record s.pool { workers = left } ≡ p = cc run in
          let same_out : sent' ≡ sent = cc run in
          let (all, h) = reset-Holds fuel s.pool.workers left idle sent' v.stored ran in
          subst (λ q. Sound (record s { pool = q; busy = s.busy + sent })) same
            (array-Sound s left idle 0 (s.busy + sent) v h (omega arith))
    ]

-- A pool that agrees with the one before in all that the invariant reads.
other-Sound :
    (s : System) (c : ℤ) (b : Bool)
    → Sound s
    → Sound (record s { pool = record s.pool { capacity = c; closed = b } })
other-Sound s c b (idle, v) = (
  idle,
  record { stored = v.stored; accounts = v.accounts; waiting = v.waiting; limited = v.limited },
)

tune-Sound : (s : System) (size : ℤ) → Sound s → Sound (record s { pool = tune size s.pool })
unfolding tune
tune-Sound s size h =
    if_both (λ p. Sound (record s { pool = p })) (tune_ignored size s.pool) s.pool
      (record s.pool { capacity = to_int32 size }) h (other-Sound s (to_int32 size) s.pool.closed h)

reboot-Sound : (s : System) → Sound s → Sound (record s { pool = reboot s.pool })
unfolding reboot
reboot-Sound s h =
    if_both (λ p. Sound (record s { pool = p })) s.pool.closed (record s.pool { closed = false })
      s.pool (other-Sound s s.pool.capacity false h) h

close-Sound : (s : System) → Sound s → Sound (record s { pool = close s.pool })
unfolding close
close-Sound s h = other-Sound s s.pool.capacity true h

Step-Sound : {s t : System} → Step s t → Sound s → Sound t
Step-Sound (enter s) h = enter-Sound s h
Step-Sound (wake s before after c e) h = wake-Sound s before after c e h
Step-Sound (start s n e) h = start-Sound s n e h
Step-Sound (put_back s n now w e ok) h = put_back-Sound s n now w e ok h
Step-Sound (finish s n e) h = finish-Sound s n e h
Step-Sound (clean s now out p e) h = clean-Sound s now out p e h
Step-Sound (resize s size) h = tune-Sound s size h
Step-Sound (shut s) h = close-Sound s h
Step-Sound (empty s fuel sent p e) h = empty-Sound s fuel sent p e h
Step-Sound (restart s) h = reboot-Sound s h

-- In every interleaving, from a sound start, the running goroutines are the busy ones and the idle
-- ones in the array, and the waiting callers are counted in `blocking_num` and within the limit.
pub Reach-Sound : {s t : System} → Reach s t → Sound s → Sound t
Reach-Sound here h = h
Reach-Sound (next r st) h = Step-Sound st (Reach-Sound r h)
