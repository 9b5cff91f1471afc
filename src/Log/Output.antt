-- ===== src/Log/Output.antt =====
-- The bytes that go through the buffer of log/newlog/pool.go, and their order.
use gocommon.Base.{
  ℕ, ◌+◌, ◌≡◌, ◌≤◌, refl, ap, sym, ◌∙◌, List, [], ◌∷◌, ◌++◌, if_cases, ltb, length, take,
  length-take, length-append, append-nil, append_assoc, arith,
}
use gocommon.Log.{LogPool, append_data, write, flush, write_all}
use gocommon.Log.Buffered.{take-length}

module _ {B : Type 0} where
  -- The bytes of texts, one after the other.
  abbrev pub bytes : List (List B) → List B
  bytes [] = []
  bytes (x ∷ xs) = x ++ bytes xs

  -- What the pool still has to hand out.
  abbrev pub pending : LogPool B → List B
  pending p = take p.current p.buffer

  -- The position is inside the buffer.
  abbrev pub InBuffer : LogPool B → Type 0
  InBuffer p = p.current ≤ length p.buffer

  bytes-append : (xs ys : List (List B)) → bytes (xs ++ ys) ≡ bytes xs ++ bytes ys
  bytes-append [] ys = refl
  bytes-append (x ∷ xs) ys =
      ap (λ l. x ++ l) (bytes-append xs ys) ∙ sym (append_assoc x (bytes xs) (bytes ys))

  take-all : (n : ℕ) (xs : List B) → length xs ≡ n → take n xs ≡ xs
  take-all n xs e = rw (sym e) (take-length xs)

  append_data-length :
      (x : List B) (p : LogPool B)
      → InBuffer p
      → length (take p.current p.buffer ++ x) ≡ p.current + length x
  append_data-length x p h =
      omega (arith, h, length-append (take p.current p.buffer) x, length-take p.current p.buffer)

  append_data-InBuffer : (x : List B) (p : LogPool B) → InBuffer p → InBuffer (append_data x p)
  unfolding append_data
  append_data-InBuffer x p h = omega (arith, append_data-length x p h)

  append_data-pending :
      (x : List B) (p : LogPool B) → InBuffer p → pending (append_data x p) ≡ pending p ++ x
  unfolding append_data
  append_data-pending x p h = take-all (p.current + length x) _ (append_data-length x p h)

  write-pending :
      (x : List B) (p : LogPool B)
      → InBuffer p
      → (bytes (write x p).0 ++ pending (write x p).1 ≡ pending p ++ x) × InBuffer (write x p).1
  unfolding write
  write-pending x p h =
      let q : LogPool B = record p { current = 0 } in
      if_cases {A = List (List B) × LogPool B}
        (λ r. (bytes r.0 ++ pending r.1 ≡ pending p ++ x) × InBuffer r.1)
        (ltb (length p.buffer) (p.current + length x))
        (take p.current p.buffer ∷ [], append_data x q) ([], append_data x p)
        (λ e. (
          rw (append_data-pending x q (omega arith), append-nil (pending p)) refl,
          append_data-InBuffer x q (omega arith),
        ))
        (λ e. (append_data-pending x p h, append_data-InBuffer x p h))

  write_all-pending :
      (xs : List (List B)) (p : LogPool B)
      → InBuffer p
      → (bytes (write_all xs p).0 ++ pending (write_all xs p).1 ≡ pending p ++ bytes xs)
        × InBuffer (write_all xs p).1
  unfolding write_all
  write_all-pending [] p h = (sym (append-nil (pending p)), h)
  write_all-pending (x ∷ xs) p h =
      let one : _ = write-pending x p h in
      let rest : _ = write_all-pending xs (write x p).1 one.1 in
      let q : LogPool B = (write_all xs (write x p).1).1 in
      (
        ap (λ l. l ++ pending q) (bytes-append (write x p).0 (write_all xs (write x p).1).0)
            ∙ append_assoc (bytes (write x p).0) _ (pending q)
            ∙ ap (λ l. bytes (write x p).0 ++ l) rest.0
            ∙ sym (append_assoc (bytes (write x p).0) _ (bytes xs))
            ∙ ap (λ l. l ++ bytes xs) one.0
            ∙ append_assoc (pending p) x (bytes xs),
        rest.1,
      )

  take-zero : (p : LogPool B) → p.current ≡ 0 → pending p ≡ []
  take-zero p e = rw e refl

  flush-pending : (p : LogPool B) → (bytes (flush p).0 ≡ pending p) × (pending (flush p).1 ≡ [])
  unfolding flush
  flush-pending p =
      if_cases {A = List (List B) × LogPool B} (λ r. (bytes r.0 ≡ pending p) × (pending r.1 ≡ []))
        (ltb 0 p.current) (pending p ∷ [], record { current = 0; buffer = [] }) ([], p)
        (λ e. (append-nil (pending p), refl))
        (λ e. let z : p.current ≡ 0 = ground arith in (sym (take-zero p z), take-zero p z))

  -- Where the position is inside the buffer, the writes of entries and a flush after them hand out
  -- the bytes that were pending and those of the entries, all of them, in order, once; nothing is
  -- pending then.
  pub write_all-flush :
      (xs : List (List B)) (p : LogPool B)
      → InBuffer p
      → (bytes ((write_all xs p).0 ++ (flush (write_all xs p).1).0) ≡ pending p ++ bytes xs)
        × (pending (flush (write_all xs p).1).1 ≡ [])
  write_all-flush xs p h =
      let q : LogPool B = (write_all xs p).1 in
      (
        bytes-append (write_all xs p).0 (flush q).0
            ∙ ap (λ l. bytes (write_all xs p).0 ++ l) (flush-pending q).0
            ∙ (write_all-pending xs p h).0,
        (flush-pending q).1,
      )
