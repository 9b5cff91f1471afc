-- ===== src/Log/Buffered.antt =====
-- What the buffer of log/newlog/pool.go hands out, and when.
use gocommon.Base.{
  ℕ, ◌+◌, ◌≡◌, ◌≤◌, ◌<◌, refl, ap, true, false, List, [], ◌∷◌, ltb, length, take, replicate,
  length-replicate, arith, All,
}
use gocommon.Log.{LogPool, new_pool, append_data, write, write_all}

module _ {B : Type 0} where
  -- A pool that holds one entry, in a buffer of its length.
  abbrev pub holding : List B → LogPool B
  holding d = record { current = length d; buffer = d }

  -- The entries but the last one, and the last one.
  abbrev pub all_but_last : List B → List (List B) → List (List B)
  all_but_last d [] = []
  all_but_last d (x ∷ xs) = d ∷ all_but_last x xs

  abbrev pub last_of : List B → List (List B) → List B
  last_of d [] = d
  last_of d (x ∷ xs) = last_of x xs

  pub take-length : (xs : List B) → take (length xs) xs ≡ xs
  take-length [] = refl
  take-length (x ∷ xs) = ap (λ l. x ∷ l) (take-length xs)

  append_data-empty :
      (x buffer : List B) → append_data x (record { current = 0; buffer = buffer }) ≡ holding x
  unfolding append_data
  append_data-empty x buffer = ap (λ n. record { current = n; buffer = x }) (omega arith)

  write-fits :
      (x : List B) (p : LogPool B)
      → ltb (length p.buffer) (p.current + length x) ≡ false
      → write x p ≡ ([], append_data x p)
  unfolding write
  write-fits x p e = rw e refl

  write-holding : (d x : List B) → 0 < length x → write x (holding d) ≡ (d ∷ [], holding x)
  unfolding write
  write-holding d x h =
      let e : ltb (length d) (length d + length x) ≡ true = ground arith in
      rw (e, take-length d, append_data-empty x d) refl

  write_all-holding :
      (d : List B) (xs : List (List B))
      → All (λ x. 0 < length x) xs
      → write_all xs (holding d) ≡ (all_but_last d xs, holding (last_of d xs))
  unfolding write_all
  write_all-holding d [] h = refl
  write_all-holding d (x ∷ xs) h = rw (write-holding d x h.0, write_all-holding x xs h.1) refl

  write-new_pool :
      (b : B) (size : ℕ) (d : List B)
      → length d ≤ size
      → write d (new_pool b size) ≡ ([], holding d)
  unfolding new_pool
  write-new_pool b size d l =
      let e : ltb (length (replicate size b)) (0 + length d) ≡ false =
        rw (length-replicate size b) (ground arith) in
      rw (write-fits d (new_pool b size) e, append_data-empty d (replicate size b)) refl

  -- Whatever the size of the buffer, it holds one entry: from the second entry on, `write` hands out
  -- the entry before, alone. The entries are not empty, and the first one fits into the buffer.
  pub write_all-new_pool :
      (b : B) (size : ℕ) (d : List B) (xs : List (List B))
      → length d ≤ size
      → All (λ x. 0 < length x) xs
      → write_all (d ∷ xs) (new_pool b size) ≡ (all_but_last d xs, holding (last_of d xs))
  unfolding write_all
  write_all-new_pool b size d xs l h = rw (write-new_pool b size d l, write_all-holding d xs h) refl
