-- ===== src/Log/Rolled.antt =====
-- Where the files of log/newlog/output.go are after `rollRunOnce`.
use gocommon.Base.{
  ℕ, zero, suc, ◌≡◌, ◌≢◌, ◌<◌, refl, ap, sym, ◌∙◌, Bool, true, false, [], ◌∷◌, ◌++◌, pos, length,
  drop, ◌==◌, ◌&&◌, nat_eq, int_eq, arith, inl, inr, Bool-cases, length-append, ltb, pos_part, ◌^◌,
}
use native.Mathlib.Nat.{eq-or-lt_of_le}
use gocommon.Log.Rotation.{
  Name, name_eq, decimal, digits_value, unsigned, clamp, clamp_neg, atoi, itoa, next_int,
  sequence_of, next_file_name,
}

-- A test holds of all numbers below a bound.
abbrev all_below : (ℕ → Bool) → ℕ → Bool
all_below p zero = true
all_below p (suc n) = all_below p n && p n

all_below-elim : (p : ℕ → Bool) (k n : ℕ) → all_below p k ≡ true → n < k → p n ≡ true
all_below-elim p zero n e l = absurd (omega arith)
all_below-elim p (suc k) n e l = elim (eq-or-lt_of_le {n = n} {m = k} (omega arith)) [
  | inl q ↦ ground (arith, ap p q)
  | inr lt ↦ all_below-elim p k n (ground (arith, e)) lt
]

round_trips : all_below (λ n. atoi (itoa (pos n)) == pos n) 51 ≡ true
unfolding atoi itoa digits_value unsigned clamp clamp_neg decimal
round_trips = refl

-- The name of the log file with a number.
abbrev pub file_name : Name → ℕ → Name
file_name prefix zero = prefix
file_name prefix (suc n) = prefix ++ (46 ∷ itoa (pos (suc n)))

atoi-itoa : (n : ℕ) → n < 51 → atoi (itoa (pos n)) ≡ pos n
atoi-itoa n l =
    (int_eq.same_iff (atoi (itoa (pos n))) (pos n)).0
      (all_below-elim (λ k. atoi (itoa (pos k)) == pos k) 51 n round_trips l)

pub next_int-pos : (n : ℕ) → n < 50 → next_int (pos n) ≡ pos (suc n)
unfolding next_int
next_int-pos n l = let e : (suc n == 2 ^ 63) ≡ false = ground arith in rw e refl

pub next_file_name-file_name :
    (prefix : Name) (n : ℕ) → n < 50 → next_file_name prefix (pos n) ≡ file_name prefix (suc n)
unfolding next_file_name
next_file_name-file_name prefix n l = rw (next_int-pos n l) refl

drop-prefix :
    (prefix rest : Name) (b : ℕ) → drop (suc (length prefix)) (prefix ++ (b ∷ rest)) ≡ rest
drop-prefix [] rest b = refl
drop-prefix (p ∷ ps) rest b = drop-prefix ps rest b

sequence_of-file_name :
    (prefix : Name) (n : ℕ) → n < 51 → sequence_of prefix (file_name prefix n) ≡ pos n
unfolding sequence_of
sequence_of-file_name prefix zero l =
    let e : ltb (length prefix) (length prefix) ≡ false = ground arith in rw e refl
sequence_of-file_name prefix (suc n) l =
    let e : ltb (length prefix) (length (prefix ++ (46 ∷ itoa (pos (suc n))))) ≡ true =
      ground (arith, length-append prefix (46 ∷ itoa (pos (suc n)))) in
    rw (e, drop-prefix prefix (itoa (pos (suc n))) 46) (atoi-itoa (suc n) l)

-- Different numbers have different names.
pub file_name-differ :
    (prefix : Name) (a b : ℕ)
    → a < 51
    → b < 51
    → a ≢ b
    → (file_name prefix a == file_name prefix b) ≡ false
file_name-differ prefix a b l m n = elim (Bool-cases (file_name prefix a == file_name prefix b)) [
  | inl t ↦
      let e : pos a ≡ pos b =
        sym (sequence_of-file_name prefix a l)
        ∙ ap (sequence_of prefix) ((name_eq.same_iff _ _).0 t)
        ∙ sequence_of-file_name prefix b m in
      absurd (n (ap pos_part e))
  | inr f ↦ f
]
