-- ===== src/Promise.antt =====
-- util/process/progoroutine.go: a promise, cut where the code takes or gives up its lock, and the
-- loop of `All` over what arrives on its channels.
pub mod Once
pub mod Collect
use gocommon.Base.{
  ℕ, zero, suc, ◌-◌, ◌⊎◌, inl, inr, Bool, true, false, Option, none, some, List, [], ◌∷◌, nat_eq,
  ◌==◌, if◌then◌else◌, length, set, replicate,
}

-- `ProGoroutine`; `waits` is the counter of its WaitGroup.
pub record Promise (A E : Type 0) : Type 0 where
  pub pending : Bool
  pub result : Option A
  pub err : Option E
  pub waits : ℕ

-- What `resolve` is given: a value, or a promise, with what awaiting it has returned.
pub data Resolution (A E : Type 0) : Type 0 where
  value : A → Resolution A E
  awaited : E ⊎ A → Resolution A E

module _ {A E : Type 0} where
  -- `New`, before its goroutine runs.
  unfoldable pub new_promise : Promise A E
  new_promise = record { pending = true; result = none; err = none; waits = 1 }

  -- `wg.Done`; `none` is the panic of a negative counter.
  unfoldable pub wg_done : Promise A E → Option (Promise A E)
  wg_done p = if p.waits == 0 then none else some (record p { waits = p.waits - 1 })

  -- `reject`
  unfoldable pub reject : E → Promise A E → Option (Promise A E)
  unfolding wg_done
  reject e p = if p.pending then wg_done (record p { err = some e; pending = false }) else some p

  unfoldable pub resolve_to : A → Promise A E → Option (Promise A E)
  unfolding wg_done
  resolve_to a p =
      if p.pending then wg_done (record p { result = some a; pending = false }) else some p

  -- `resolve`, under the lock: the promise, and the error with which `resolve` calls `reject` after it
  -- has given up the lock.
  unfoldable pub resolve : Resolution A E → Promise A E → Option (Promise A E) × Option E
  unfolding resolve_to
  resolve (value a) p = (resolve_to a p, none)
  resolve (awaited (inr a)) p = (resolve_to a p, none)
  resolve (awaited (inl e)) p = (some p, if p.pending then some e else none)

  -- `Await`: the result and the error; `none` where it waits.
  unfoldable pub await : Promise A E → Option (Option A × Option E)
  await p = if p.waits == 0 then some (p.result, p.err) else none

  -- The handlers of `Then` and `Catch`, by what they do with the promise that they return.
  unfoldable pub then_handler : (A → A) → Option A × Option E → Option (E ⊎ A)
  then_handler fulfillment (result, some e) = some (inl e)
  then_handler fulfillment (some a, none) = some (inr (fulfillment a))
  then_handler fulfillment (none, none) = none

  unfoldable pub catch_handler : (E → E) → Option A × Option E → Option (E ⊎ A)
  catch_handler rejection (result, some e) = some (inl (rejection e))
  catch_handler rejection (some a, none) = some (inr a)
  catch_handler rejection (none, none) = none

  -- The loop of `All`: what arrives is an error, or an index with its data. `none` where it waits.
  unfoldable pub collect : ℕ → List (E ⊎ (ℕ × A)) → List (Option A) → Option (E ⊎ List (Option A))
  collect zero arrivals resolutions = some (inr resolutions)
  collect (suc n) [] resolutions = none
  collect (suc n) (inl e ∷ arrivals) resolutions = some (inl e)
  collect (suc n) (inr (i, a) ∷ arrivals) resolutions =
      collect n arrivals (set resolutions i (some a))

  -- `All`, of so many promises.
  unfoldable pub all : ℕ → List (E ⊎ (ℕ × A)) → Option (E ⊎ List (Option A))
  unfolding collect
  all n arrivals = collect n arrivals (replicate n none)
