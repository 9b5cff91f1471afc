-- ===== src/Tests/Entries.antt =====
-- Tests of the buffer of log entries, and its theorems at concrete inputs.
use gocommon.Base.{ℕ, ◌≡◌, refl, List, [], ◌∷◌, ◌++◌, arith}
use gocommon.Log.{new_pool, write_all, flush}
use gocommon.Log.Buffered.{holding}
use gocommon.Log.Output.{bytes, pending, write_all-flush}

abbrev entries : List (List ℕ)
entries = (1 ∷ 2 ∷ []) ∷ (3 ∷ []) ∷ (4 ∷ 5 ∷ []) ∷ []

-- Eight bytes would hold the three entries; two writes hand out an entry each.
buffer_of_eight :
    write_all entries (new_pool 0 8) ≡ ((1 ∷ 2 ∷ []) ∷ (3 ∷ []) ∷ [], holding (4 ∷ 5 ∷ []))
unfolding write_all new_pool
buffer_of_eight = refl

write_all-flush_example :
    (bytes (
        (write_all entries (holding (9 ∷ []))).0
        ++ (flush (write_all entries (holding (9 ∷ []))).1).0)
      ≡ 9 ∷ 1 ∷ 2 ∷ 3 ∷ 4 ∷ 5 ∷ [])
    × (pending (flush (write_all entries (holding (9 ∷ []))).1).1 ≡ [])
write_all-flush_example = write_all-flush entries (holding (9 ∷ [])) (omega arith)
