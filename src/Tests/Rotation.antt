-- ===== src/Tests/Rotation.antt =====
-- Tests of the rotation of log files, and its theorem at a concrete directory.
use gocommon.Base.{◌≡◌, refl, none, some, [], ◌∷◌, true, lookup, insert, remove, pos, negsuc, arith}
use gocommon.Log.Rotation.{
  decimal, unsigned, digits_value, clamp, clamp_neg, next_int, has_prefix, insert_sorted, rename,
  rename_entry, Name, name_eq, Directory, Entry, atoi, itoa, sequence_of, next_file_name,
  old_log_files, roll_run_once,
}
use gocommon.Log.Rolled.{file_name}
use gocommon.Log.Moves.{no_faults, info}
use gocommon.Log.Shift.{roll_run_once-shifts}

-- `a.l`
abbrev log_name : Name
log_name = 97 ∷ 46 ∷ 108 ∷ []

-- The current file, the first and the second old one, and a directory.
abbrev logs : Directory
logs =
    (97 ∷ [], Entry.dir)
    ∷ (file_name log_name 0, Entry.file (1 ∷ []))
    ∷ (file_name log_name 1, Entry.file (2 ∷ []))
    ∷ (file_name log_name 2, Entry.file (3 ∷ []))
    ∷ []

-- `a.l` and `a.lx`, which begins in the same way.
abbrev two_logs : Directory
two_logs = (log_name, Entry.file (1 ∷ [])) ∷ (97 ∷ 46 ∷ 108 ∷ 120 ∷ [], Entry.file (2 ∷ [])) ∷ []

numbers :
    (atoi (45 ∷ 49 ∷ 50 ∷ []) ≡ negsuc 11)
    × (atoi (49 ∷ 120 ∷ []) ≡ pos 0)
    × (atoi (48 ∷ 55 ∷ []) ≡ pos 7)
    × (next_file_name log_name (pos 9) ≡ 97 ∷ 46 ∷ 108 ∷ 46 ∷ 49 ∷ 48 ∷ [])
unfolding atoi unsigned digits_value clamp clamp_neg next_file_name next_int itoa decimal
numbers = (refl, refl, refl, refl)

-- Both files get the number 1: the content of the first one is lost.
files_with_the_prefix :
    roll_run_once no_faults log_name two_logs
    ≡ (none, ((file_name log_name 1, Entry.file (2 ∷ [])) ∷ (log_name, Entry.file []) ∷ [], true))
unfolding roll_run_once old_log_files has_prefix insert_sorted sequence_of atoi unsigned
    digits_value clamp next_file_name next_int itoa decimal rename rename_entry lookup insert remove
files_with_the_prefix = refl

listed : old_log_files log_name logs ≡ info log_name 2 ∷ info log_name 1 ∷ info log_name 0 ∷ []
unfolding old_log_files has_prefix insert_sorted sequence_of itoa decimal atoi unsigned digits_value
    clamp
listed = refl

roll_run_once-shifts_example :
    (lookup (file_name log_name 2) (roll_run_once no_faults log_name logs).1.0
      ≡ some (Entry.file (2 ∷ [])))
    × (lookup log_name (roll_run_once no_faults log_name logs).1.0 ≡ some (Entry.file []))
unfolding lookup itoa decimal
roll_run_once-shifts_example =
    roll_run_once-shifts log_name logs (2 ∷ 1 ∷ 0 ∷ []) 1 (Entry.file (2 ∷ [])) listed
      ((omega arith, (omega arith, tt)), ((omega arith, tt), (tt, tt)))
      (omega arith, (omega arith, (omega arith, tt))) refl refl (omega arith) refl
