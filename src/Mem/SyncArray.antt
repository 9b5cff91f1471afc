-- ===== src/Mem/SyncArray.antt =====
-- util/mem/SyncArray.go: an array of values that expire.
-- A time is a number of nanoseconds; `time.Since` is the difference that the parameter `now` gives.
use gocommon.Base.{
  ℕ, zero, suc, ◌+◌, ◌-◌, ◌≡◌, refl, ap, ◌∙◌, Bool, true, false, Option, none, some, List, [], ◌∷◌,
  if◌then◌else◌, ltb, leb, arith, length, replicate, drop,
}

module _ {ℓ} (V : Type ℓ) where
  pub record Element : Type ℓ where
    pub is_bempty : Bool
    pub when : ℕ
    pub value : Option V

  pub record SyncArray : Type ℓ where
    pub arrays : List Element
    pub select_key : ℕ
    pub out_date : ℕ

  -- One call on the array.
  pub data Call : Type ℓ where
    push : ℕ → V → Call
    pop : Call
    clear_all : Call

module _ {ℓ} {V : Type ℓ} where
  -- The zero value, which `make` fills the array with.
  abbrev pub zero_element : Element V
  zero_element = record { is_bempty = false; when = 0; value = none }

  -- `for _, e := range`: the writes to `e` are to a copy, so the array stays as `make` made it.
  unfoldable pub new_sync_list : ℕ → ℕ → SyncArray V
  new_sync_list up_limits out = record {
    arrays = replicate up_limits zero_element;
    select_key = 0;
    out_date = out;
  }

  -- One loop of `PushBack` at the time `now`, from an index on; whether it ends in `return`.
  -- `e` is a copy of the element here too, so its fields are written in vain.
  unfoldable pub push_loop : ℕ → ℕ → Bool → List (Element V) → Bool
  push_loop now out need_loop [] = false
  push_loop now out need_loop (e ∷ es) = if e.is_bempty then true else elim e.value [
    | none ↦ push_loop now out need_loop es
    | some _ ↦
        if need_loop
        then push_loop now out (ltb out (now - e.when)) es
        else push_loop now out need_loop es
  ]

  unfoldable pub push_back : ℕ → V → SyncArray V → SyncArray V
  unfolding push_loop
  push_back now v l =
      let key = if leb (length l.arrays) l.select_key then 0 else l.select_key in
      if push_loop now l.out_date true (drop key l.arrays)
      then record l { select_key = key + 1 }
      else if push_loop now l.out_date true l.arrays
      then record l { select_key = key + 1 }
      else record l { select_key = key }

  -- The loop of `PopFront`; the element that it returns is cleared in a copy.
  unfoldable pub pop_loop : List (Element V) → Option V
  pop_loop [] = none
  pop_loop (e ∷ es) = if e.is_bempty then pop_loop es else e.value

  unfoldable pub pop_front : SyncArray V → Option V × SyncArray V
  unfolding pop_loop
  pop_front l = (pop_loop l.arrays, l)

  -- `Clear`: the loop writes to copies.
  unfoldable pub clear : SyncArray V → SyncArray V
  clear l = record l { select_key = 0 }

  unfoldable pub run_call : Call V → SyncArray V → SyncArray V
  unfolding push_back pop_front clear
  run_call (push now v) l = push_back now v l
  run_call pop l = (pop_front l).1
  run_call clear_all l = clear l

  unfoldable pub run_calls : List (Call V) → SyncArray V → SyncArray V
  unfolding run_call
  run_calls [] l = l
  run_calls (c ∷ cs) l = run_calls cs (run_call c l)

  run_call-arrays : (c : Call V) (l : SyncArray V) → (run_call c l).arrays ≡ l.arrays
  unfolding run_call
  run_call-arrays (push now v) l = ground arith
  run_call-arrays pop l = refl
  run_call-arrays clear_all l = refl

  run_calls-arrays : (cs : List (Call V)) (l : SyncArray V) → (run_calls cs l).arrays ≡ l.arrays
  unfolding run_calls
  run_calls-arrays [] l = refl
  run_calls-arrays (c ∷ cs) l = run_calls-arrays cs (run_call c l) ∙ run_call-arrays c l

  pop_loop-replicate : (n : ℕ) → pop_loop (replicate n zero_element) ≡ none
  unfolding pop_loop
  pop_loop-replicate zero = refl
  pop_loop-replicate (suc n) = refl

  -- Whatever is pushed, popped and cleared, and at whatever times, a new array has nothing to pop.
  pub pop_front-new_sync_list :
      (up_limits out : ℕ) (cs : List (Call V))
      → (pop_front (run_calls cs (new_sync_list up_limits out))).0 ≡ none
  unfolding pop_front new_sync_list
  pop_front-new_sync_list up_limits out cs =
      ap pop_loop (run_calls-arrays cs (new_sync_list up_limits out)) ∙ pop_loop-replicate up_limits
