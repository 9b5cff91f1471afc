-- ===== src/Log/Rotation.antt =====
-- log/newlog/output.go: `rollRunOnce`, which moves each log file to the next number, with what it uses
-- of strconv and of os. A name is its bytes; the files that have the same number keep their order.
use gocommon.Base.{
  ◌≡◌, ◌↔◌, arith, ℕ, zero, suc, ◌+◌, ◌-◌, ◌*◌, ◌/◌, ◌%◌, ◌^◌, Bool, true, false, ◌||◌, Option,
  none, some, List, [], ◌∷◌, ◌++◌, ℤ, pos, negsuc, ltb_ℤ, leb_ℤ, if◌then◌else◌, ltb, is_some, ◌==◌,
  nat_eq, length, drop, lookup, insert, remove, Comparable,
}

abbrev pub Name : Type 0
Name = List ℕ

abbrev bytes_beq : Name → Name → Bool
bytes_beq [] [] = true
bytes_beq [] (b ∷ bs) = false
bytes_beq (a ∷ xs) [] = false
bytes_beq (a ∷ xs) (b ∷ bs) = if a == b then bytes_beq xs bs else false

pub bytes_beq_iff : (a b : Name) → (bytes_beq a b ≡ true) ↔ (a ≡ b)
bytes_beq_iff [] [] = ground arith
bytes_beq_iff [] (b ∷ bs) = ground arith
bytes_beq_iff (a ∷ xs) [] = ground arith
bytes_beq_iff (a ∷ xs) (b ∷ bs) = ground (arith, bytes_beq_iff xs bs)

instance abbrev pub name_eq : Comparable Name
name_eq = record { same_iff = bytes_beq_iff; same = bytes_beq }

-- The decimal digits of a number of at most `fuel` digits.
unfoldable pub decimal : ℕ → ℕ → Name
decimal zero n = []
decimal (suc fuel) n =
    let high = decimal fuel (n / 10) in
    if ltb n 10 then (48 + n) ∷ [] else high ++ ((48 + n % 10) ∷ [])

-- `strconv.Itoa`: an int has at most nineteen digits.
unfoldable pub itoa : ℤ → Name
itoa (pos n) = decimal 19 n
itoa (negsuc n) = 45 ∷ decimal 19 (suc n)

-- The number that digits stand for, none where a byte is not a digit. What follows a number that is
-- no uint64 is not read.
unfoldable pub digits_value : Name → ℕ → Option ℕ
digits_value [] n = some n
digits_value (b ∷ bs) n =
    let n' = n * 10 + (b - 48) in
    let rest = digits_value bs n' in
    if ltb b 48 || ltb 57 b then none else if ltb n' (2 ^ 64) then rest else some n'

-- An int that is nearest to a number.
unfoldable pub clamp : ℕ → ℤ
clamp n = if ltb n (2 ^ 63) then pos n else pos (2 ^ 63 - 1)

unfoldable pub clamp_neg : ℕ → ℤ
clamp_neg zero = pos 0
clamp_neg (suc n) = if ltb n (2 ^ 63) then negsuc n else negsuc (2 ^ 63 - 1)

unfoldable pub unsigned : (ℕ → ℤ) → Name → ℤ
unsigned sign [] = pos 0
unsigned sign (b ∷ bs) = elim (digits_value (b ∷ bs) 0) [ none ↦ pos 0 | some n ↦ sign n ]

-- The first result of `strconv.Atoi`: 0 for what is no number, the nearest int for what is out of
-- range.
unfoldable pub atoi : Name → ℤ
atoi [] = pos 0
atoi (b ∷ bs) =
    if b == 45
    then unsigned clamp_neg bs
    else if b == 43
    then unsigned clamp bs
    else unsigned clamp (b ∷ bs)

-- `i + 1` in Go's int.
unfoldable pub next_int : ℤ → ℤ
next_int (pos n) = if suc n == 2 ^ 63 then negsuc (2 ^ 63 - 1) else pos (suc n)
next_int (negsuc zero) = pos 0
next_int (negsuc (suc n)) = negsuc n

-- `logInfo`
pub record LogInfo : Type 0 where
  pub sequence : ℤ
  pub name : Name

pub data Entry : Type 0 where
  dir : Entry
  file : List ℕ → Entry

pub data RollError : Type 0 where
  read_dir_failed : RollError
  close_failed : RollError
  remove_failed : Name → RollError
  rename_failed : Name → RollError
  open_failed : RollError

-- Which calls of os fail; a rename onto a directory does.
pub record Faults : Type 0 where
  pub read_dir_fails : Bool
  pub close_fails : Bool
  pub remove_fails : Name → Bool
  pub rename_fails : Name → Bool
  pub open_fails : Bool

abbrev pub Directory : Type 0
Directory = List (Name × Entry)

unfoldable pub has_prefix : Name → Name → Bool
has_prefix name [] = true
has_prefix [] (p ∷ ps) = false
has_prefix (b ∷ bs) (p ∷ ps) = if b == p then has_prefix bs ps else false

-- The number in a name that has the prefix; the byte after the prefix is skipped.
unfoldable pub sequence_of : Name → Name → ℤ
sequence_of prefix name =
    if ltb (length prefix) (length name) then atoi (drop (suc (length prefix)) name) else pos 0

unfoldable pub next_file_name : Name → ℤ → Name
next_file_name prefix i = prefix ++ (46 ∷ itoa (next_int i))

-- `sort.Sort` of `byFormatSequence`: the greater numbers come first.
unfoldable pub insert_sorted : LogInfo → List LogInfo → List LogInfo
insert_sorted f [] = f ∷ []
insert_sorted f (g ∷ gs) =
    if ltb_ℤ f.sequence g.sequence then g ∷ insert_sorted f gs else f ∷ g ∷ gs

-- The files of a directory whose name has the prefix, by number.
unfoldable pub old_log_files : Name → Directory → List LogInfo
old_log_files prefix [] = []
old_log_files prefix ((name, dir) ∷ d) = old_log_files prefix d
old_log_files prefix ((name, file bytes) ∷ d) =
    let rest = old_log_files prefix d in
    if has_prefix name prefix
    then insert_sorted (record { sequence = sequence_of prefix name; name = name }) rest
    else rest

unfoldable pub rename_entry : Option Entry → Name → Name → Directory → Directory
rename_entry none old new d = d
rename_entry (some e) old new d = insert new e (remove old d)

-- `os.Rename` of a file that is there: what had the new name is gone.
unfoldable pub rename : Name → Name → Directory → Directory
rename old new d = rename_entry (lookup old d) old new d

abbrev pub default_file_max_num : ℕ
default_file_max_num = 50

-- The first error of two.
abbrev pub first_error : Option RollError → Option RollError → Option RollError
first_error none e = e
first_error (some e) later = some e

-- One round of the loop of `rollRunOnce`.
unfoldable pub roll_file : Faults → Name → LogInfo → Directory → Option RollError × Directory
roll_file os prefix f d =
    if leb_ℤ (pos default_file_max_num) (next_int f.sequence)
    then (if os.remove_fails f.name
        then (some (RollError.remove_failed f.name), d)
        else (none, remove f.name d))
    else if os.rename_fails f.name
    then (some (RollError.rename_failed f.name), d)
    else if is_some (lookup f.name d)
    then (none, rename f.name (next_file_name prefix f.sequence) d)
    else (some (RollError.rename_failed f.name), d)

-- The loop: the first error, and the directory.
unfoldable pub roll_files : Faults → Name → List LogInfo → Directory → Option RollError × Directory
unfolding roll_file
roll_files os prefix [] d = (none, d)
roll_files os prefix (f ∷ fs) d =
    let (e, d') = roll_file os prefix f d in
    let (e', d'') = roll_files os prefix fs d' in (first_error e e', d'')

-- `openNew`
unfoldable pub open_new : Faults → Name → Directory → Option RollError × Directory
open_new os prefix d =
    if os.open_fails
    then (some RollError.open_failed, d)
    else (none, if is_some (lookup prefix d) then d else insert prefix (file []) d)

-- `rollRunOnce`, with an open file: its error, the directory, and whether the file is open.
unfoldable pub roll_run_once : Faults → Name → Directory → Option RollError × (Directory × Bool)
unfolding roll_files open_new
roll_run_once os prefix d =
    let files = old_log_files prefix d in
    let (e, d') = roll_files os prefix files d in
    let (e', d'') = open_new os prefix d' in
    if os.read_dir_fails
    then (some RollError.read_dir_failed, (d, true))
    else if length files == 0
    then (none, (d, true))
    else if os.close_fails
    then (some RollError.close_failed, (d, false))
    else if os.open_fails
    then (e', (d'', false))
    else (e, (d'', true))
