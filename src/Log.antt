-- ===== src/Log.antt =====
-- log/newlog/pool.go: the buffer of log entries. What the code hands to its handler is the output;
-- the handler of output.go writes it to the file, unless it is empty.
pub mod Buffered
pub mod Output
pub mod Rolled
pub mod Shift
pub mod Moves
pub mod Rotation
use gocommon.Base.{
  ℕ, zero, suc, ◌+◌, Bool, true, false, List, [], ◌∷◌, ◌++◌, if◌then◌else◌, ltb, length, take,
  replicate,
}

-- `pool`, less its channels and its timer. The length of the slice is that of the list.
pub record LogPool (B : Type 0) : Type 0 where
  pub current : ℕ
  pub buffer : List B

module _ {B : Type 0} where
  -- `newPool`, where `b` is the zero byte.
  unfoldable pub new_pool : B → ℕ → LogPool B
  new_pool b size = record { current = 0; buffer = replicate size b }

  -- The last two lines of `write`.
  unfoldable pub append_data : List B → LogPool B → LogPool B
  append_data entry p = record {
    current = p.current + length entry;
    buffer = take p.current p.buffer ++ entry;
  }

  -- `write`: what is handed out, and the pool.
  unfoldable pub write : List B → LogPool B → List (List B) × LogPool B
  unfolding append_data
  write entry p =
      if ltb (length p.buffer) (p.current + length entry)
      then (take p.current p.buffer ∷ [], append_data entry (record p { current = 0 }))
      else ([], append_data entry p)

  unfoldable pub flush : LogPool B → List (List B) × LogPool B
  flush p =
      if ltb 0 p.current
      then (take p.current p.buffer ∷ [], record { current = 0; buffer = [] })
      else ([], p)

  -- The entries that `process` takes from the queue, one after the other.
  unfoldable pub write_all : List (List B) → LogPool B → List (List B) × LogPool B
  unfolding write
  write_all [] p = ([], p)
  write_all (d ∷ ds) p =
      let (out, p') = write d p in let (outs, p'') = write_all ds p' in (out ++ outs, p'')
