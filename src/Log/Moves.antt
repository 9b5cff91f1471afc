-- ===== src/Log/Moves.antt =====
-- What one round of the loop of `rollRunOnce` of log/newlog/output.go does, where no call of os fails.
use gocommon.Base.{
  ℕ, suc, ◌≡◌, ◌<◌, refl, ap, false, Option, none, some, pos, lookup, lookup-insert, lookup-remove,
  remove, lookup-insert_self, if_both, Option-cases, is_some, ◌==◌, nat_eq, arith, same_refl, leb_ℤ,
  inl, inr,
}
use gocommon.Log.Rotation.{
  Name, name_eq, Directory, Entry, Faults, LogInfo, RollError, next_int, rename, rename_entry,
  roll_file, next_file_name,
}
use gocommon.Log.Rolled.{file_name, file_name-differ, next_file_name-file_name, next_int-pos}

abbrev pub no_faults : Faults
no_faults = record {
  read_dir_fails = false;
  close_fails = false;
  remove_fails = λ n. false;
  rename_fails = λ n. false;
  open_fails = false;
}

module _ (prefix : Name) where
  -- The log file with a number.
  abbrev pub info : ℕ → LogInfo
  info n = record { sequence = pos n; name = file_name prefix n }

  rename-found :
      (old new : Name) (d : Directory) (o : Option Entry)
      → lookup old d ≡ o
      → rename old new d ≡ rename_entry o old new d
  unfolding rename
  rename-found old new d o s = ap (λ x. rename_entry x old new d) s

  rename-other :
      (x old new : Name) (d : Directory)
      → (x == old) ≡ false
      → (x == new) ≡ false
      → lookup x (rename old new d) ≡ lookup x d
  unfolding rename_entry
  rename-other x old new d a b = elim (Option-cases (lookup old d)) [
    | inl n ↦ rw (rename-found old new d none n) refl
    | inr (e, s) ↦
        rw
          (
            rename-found old new d (some e) s,
            lookup-insert new x e (remove old d),
            b,
            lookup-remove old x d,
            a,
          )
          refl
  ]

  pub roll_file-other :
      (x : Name) (n : ℕ) (d : Directory)
      → n < 50
      → (x == file_name prefix n) ≡ false
      → (x == file_name prefix (suc n)) ≡ false
      → lookup x (roll_file no_faults prefix (info n) d).1 ≡ lookup x d
  unfolding roll_file
  roll_file-other x n d l a b =
      if_both {A = Option RollError × Directory} (λ r. lookup x r.1 ≡ lookup x d)
        (leb_ℤ (pos 50) (next_int (pos n))) (none, remove (file_name prefix n) d) _
        (rw (lookup-remove (file_name prefix n) x d, a) refl)
        (if_both {A = Option RollError × Directory} (λ r. lookup x r.1 ≡ lookup x d)
          (is_some (lookup (file_name prefix n) d)) _ _
          (rename-other x (file_name prefix n) (next_file_name prefix (pos n)) d a
            (rw (next_file_name-file_name prefix n l) b))
          refl)

  pub roll_file-moves :
      (n : ℕ) (d : Directory) (e : Entry)
      → suc n < 50
      → lookup (file_name prefix n) d ≡ some e
      → lookup (file_name prefix (suc n)) (roll_file no_faults prefix (info n) d).1 ≡ some e
  unfolding roll_file rename_entry
  roll_file-moves n d e l h =
      let t : leb_ℤ (pos 50) (next_int (pos n)) ≡ false =
        rw (next_int-pos n (omega arith)) (ground arith) in
      rw
        (
          t,
          h,
          rename-found (file_name prefix n) (next_file_name prefix (pos n)) d (some e) h,
          next_file_name-file_name prefix n (omega arith),
        )
        (lookup-insert_self (file_name prefix (suc n)) e (remove (file_name prefix n) d))

  pub roll_file-leaves :
      (d : Directory) → lookup prefix (roll_file no_faults prefix (info 0) d).1 ≡ none
  unfolding roll_file rename_entry
  roll_file-leaves d =
      let t : leb_ℤ (pos 50) (next_int (pos 0)) ≡ false =
        rw (next_int-pos 0 (omega arith)) (ground arith) in
      let new : (prefix == file_name prefix 1) ≡ false =
        file_name-differ prefix 0 1 (omega arith) (omega arith) (λ q. absurd (omega (arith, q))) in
      elim (Option-cases (lookup prefix d)) [
        | inl n ↦ rw (t, n) n
        | inr (e, h) ↦
            rw
              (
                t,
                h,
                rename-found prefix (next_file_name prefix (pos 0)) d (some e) h,
                next_file_name-file_name prefix 0 (omega arith),
                lookup-insert (file_name prefix 1) prefix e (remove prefix d),
                new,
                lookup-remove prefix prefix d,
                same_refl prefix,
              )
              refl
      ]
