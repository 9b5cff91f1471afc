-- ===== src/Log/Shift.antt =====
-- How `rollRunOnce` of log/newlog/output.go shifts the log files, where no call of os fails.
use gocommon.Base.{
  ℕ, suc, ◌≡◌, ◌<◌, refl, sym, ◌∙◌, true, false, none, some, List, [], ◌∷◌, length, lookup,
  lookup-insert, insert, lookup-insert_self, if_both, is_some, ◌==◌, nat_eq, arith, subst, All, map,
  any, inl, inr, Bool-cases,
}
use gocommon.Log.Rotation.{
  Name, name_eq, Directory, Entry, roll_file, roll_files, open_new, old_log_files, roll_run_once,
}
use gocommon.Log.Rolled.{file_name, file_name-differ}
use gocommon.Log.Moves.{no_faults, info, roll_file-other, roll_file-moves, roll_file-leaves}

module _ (prefix : Name) where
  abbrev pub Descending : List ℕ → Type 0
  Descending [] = Unit
  Descending (n ∷ ns) = All (λ k. k < n) ns × Descending ns

  roll_files-other :
      (x : Name) (ns : List ℕ) (d : Directory)
      → All (λ n. n < 50) ns
      → All (λ n. (x == file_name prefix n) ≡ false) ns
      → All (λ n. (x == file_name prefix (suc n)) ≡ false) ns
      → lookup x (roll_files no_faults prefix (map (info prefix) ns) d).1 ≡ lookup x d
  unfolding roll_files
  roll_files-other x [] d l a b = refl
  roll_files-other x (n ∷ ns) d l a b =
      roll_files-other x ns (roll_file no_faults prefix (info prefix n) d).1 l.1 a.1 b.1
      ∙ roll_file-other prefix x n d l.0 a.0 b.0

  -- The name with a number is not one of those with a smaller number.
  above-differ :
      (m : ℕ) (ns : List ℕ)
      → m < 51
      → All (λ k. k < m) ns
      → All (λ k. (file_name prefix m == file_name prefix k) ≡ false) ns
  above-differ m [] l a = tt
  above-differ m (k ∷ ns) l a = (
    file_name-differ prefix m k l (omega (arith, a.0)) (λ e. absurd (omega (arith, a.0))),
    above-differ m ns l a.1,
  )

  above_next-differ :
      (n : ℕ) (ns : List ℕ)
      → suc n < 51
      → All (λ k. k < n) ns
      → All (λ k. (file_name prefix (suc n) == file_name prefix k) ≡ false) ns
        × All (λ k. (file_name prefix (suc n) == file_name prefix (suc k)) ≡ false) ns
  above_next-differ n [] l a = (tt, tt)
  above_next-differ n (k ∷ ns) l a =
      let rest : _ = above_next-differ n ns l a.1 in
      (
        (
          file_name-differ prefix (suc n) k l (omega (arith, a.0))
              (λ e. absurd (omega (arith, a.0))),
          rest.0,
        ),
        (
          file_name-differ prefix (suc n) (suc k) l (omega (arith, a.0))
              (λ e. absurd (omega (arith, a.0))),
          rest.1,
        ),
      )

  any-below : (n k : ℕ) (ns : List ℕ) → All (λ j. j < k) ns → any (λ j. n == j) ns ≡ true → n < k
  any-below n k [] a m = absurd (ground (arith, m))
  any-below n k (j ∷ ns) a m = elim (Bool-cases (n == j)) [
    | inl t ↦ ground (arith, t, a.0)
    | inr f ↦ any-below n k ns a.1 (ground (arith, m, f))
  ]

  roll_files-moves :
      (ns : List ℕ) (d : Directory) (n : ℕ) (e : Entry)
      → Descending ns
      → All (λ k. k < 50) ns
      → any (λ k. n == k) ns ≡ true
      → suc n < 50
      → lookup (file_name prefix n) d ≡ some e
      → lookup (file_name prefix (suc n)) (roll_files no_faults prefix (map (info prefix) ns) d).1
        ≡ some e
  unfolding roll_files
  roll_files-moves [] d n e s l m b h = absurd (ground (arith, m))
  roll_files-moves (k ∷ ns) d n e s l m b h = elim (Bool-cases (n == k)) [
    | inl t ↦
        let q : k ≡ n = ground (arith, t) in
        let below : All (λ j. j < n) ns = subst (λ x. All (λ j. j < x) ns) q s.0 in
        let names : _ = above_next-differ n ns (omega (arith, b)) below in
        roll_files-other (file_name prefix (suc n)) ns _ l.1 names.0 names.1
        ∙ subst
            (λ x.
              lookup (file_name prefix (suc n)) (roll_file no_faults prefix (info prefix x) d).1
              ≡ some e)
            (sym q) (roll_file-moves prefix n d e b h)
    | inr f ↦
        let m' : any (λ j. n == j) ns ≡ true = ground (arith, m, f) in
        let lt : n < k = any-below n k ns s.0 m' in
        roll_files-moves ns (roll_file no_faults prefix (info prefix k) d).1 n e s.1 l.1 m' b (
          roll_file-other prefix (file_name prefix n) k d l.0
            (file_name-differ prefix n k (omega (arith, b)) (omega (arith, l.0))
              (λ q. absurd (omega arith)))
            (file_name-differ prefix n (suc k) (omega (arith, b)) (omega (arith, l.0))
              (λ q. absurd (omega arith)))
          ∙ h)
  ]

  open_new-other :
      (x : Name) (d : Directory)
      → (x == prefix) ≡ false
      → lookup x (open_new no_faults prefix d).1 ≡ lookup x d
  unfolding open_new
  open_new-other x d f =
      if_both (λ r. lookup x r ≡ lookup x d) (is_some (lookup prefix d)) d
        (insert prefix (Entry.file []) d) refl
        (rw (lookup-insert prefix x (Entry.file []) d, f) refl)

  roll_files-leaves :
      (ns : List ℕ) (d : Directory)
      → Descending ns
      → any (λ k. 0 == k) ns ≡ true
      → lookup prefix (roll_files no_faults prefix (map (info prefix) ns) d).1 ≡ none
  unfolding roll_files
  roll_files-leaves [] d s m = absurd (ground (arith, m))
  roll_files-leaves (k ∷ []) d s m =
      let q : k ≡ 0 = ground (arith, m) in
      subst (λ x. lookup prefix (roll_file no_faults prefix (info prefix x) d).1 ≡ none) (sym q)
        (roll_file-leaves prefix d)
  roll_files-leaves (k ∷ j ∷ ns) d s m =
      roll_files-leaves (j ∷ ns) (roll_file no_faults prefix (info prefix k) d).1 s.1
        (ground (arith, m, s.0.0))

  open_new-creates :
      (d : Directory)
      → lookup prefix d ≡ none
      → lookup prefix (open_new no_faults prefix d).1 ≡ some (Entry.file [])
  unfolding open_new
  open_new-creates d h = rw h (lookup-insert_self prefix (Entry.file []) d)

  -- Where the log files that `oldLogFiles` lists are those with the numbers `ns`, all below 50 and
  -- each one once, the current file, with the number 0, among them, and no call of os fails:
  -- `rollRunOnce` moves each file but the last possible one to the next number, so what a name with a
  -- number had, the next name has after it, and the current file is a new one, empty.
  pub roll_run_once-shifts :
      (d : Directory) (ns : List ℕ) (n : ℕ) (e : Entry)
      → old_log_files prefix d ≡ map (info prefix) ns
      → Descending ns
      → All (λ k. k < 50) ns
      → any (λ k. 0 == k) ns ≡ true
      → any (λ k. n == k) ns ≡ true
      → suc n < 50
      → lookup (file_name prefix n) d ≡ some e
      → (lookup (file_name prefix (suc n)) (roll_run_once no_faults prefix d).1.0 ≡ some e)
        × (lookup prefix (roll_run_once no_faults prefix d).1.0 ≡ some (Entry.file []))
  unfolding roll_run_once
  roll_run_once-shifts d [] n e o s l c m b h = absurd (ground (arith, m))
  roll_run_once-shifts d (k ∷ ns) n e o s l c m b h =
      let z : (length (map (info prefix) (k ∷ ns)) == 0) ≡ false = ground arith in
      (
        rw (o, z)
            (open_new-other (file_name prefix (suc n)) _ (
                file_name-differ prefix (suc n) 0 (omega (arith, b)) (omega arith)
                  (λ q. absurd (omega (arith, q))))
              ∙ roll_files-moves (k ∷ ns) d n e s l m b h),
        rw (o, z)
            (open_new-creates (roll_files no_faults prefix (map (info prefix) (k ∷ ns)) d).1
              (roll_files-leaves (k ∷ ns) d s c)),
      )
