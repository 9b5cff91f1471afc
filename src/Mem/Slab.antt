-- ===== src/Mem/Slab.antt =====
-- util/mem/SlabBuffer.go: bytes that are written at one end and read at the other. The alignment of
-- an allocated buffer leaves some spare capacity behind it, which is a parameter.
pub mod Parts
pub mod Room
pub mod Fifo
use gocommon.Base.{
  ℕ, suc, ◌+◌, ◌-◌, ◌*◌, ◌/◌, ◌%◌, ◌^◌, min, Bool, true, false, not, ◌&&◌, Option, none, some, List,
  [], ◌∷◌, ◌++◌, nat_eq, ◌==◌, if◌then◌else◌, ltb, leb, length, take, drop, replicate,
}

-- `SlabBuffer`: the bytes of `buf` up to its capacity, nil as `none`; its length; the index of the
-- next read, and of the next write.
pub record SlabBuffer {ℓ} (V : Type ℓ) : Type ℓ where
  pub buf : Option (List V)
  pub len : ℕ
  pub off : ℕ
  pub on : ℕ
  pub align : Bool

abbrev pub small_buffer_size : ℕ
small_buffer_size = 409600

abbrev pub block_size : ℕ
block_size = 512

abbrev pub default_buf_size : ℕ
default_buf_size = 8192

-- `alignSize`; `iSize & -blockSize` clears the low bits.
unfoldable pub align_size : ℕ → ℕ
align_size size =
    let down = size - size % block_size in
    if ltb down default_buf_size then default_buf_size else down

module _ {ℓ} {V : Type ℓ} where
  abbrev pub bytes : SlabBuffer V → List V
  bytes s = elim s.buf [ none ↦ [] | some m ↦ m ]

  -- `BytesUnread`
  unfoldable pub unread : SlabBuffer V → List V
  unread s = take (s.on - s.off) (drop s.off (bytes s))

  -- `Empty`
  unfoldable pub is_empty : SlabBuffer V → Bool
  is_empty s = if leb s.on s.off then true else elim s.buf [ none ↦ true | some _ ↦ false ]

  unfoldable pub is_enough : ℕ → SlabBuffer V → Bool
  is_enough increment s = ltb (s.on + increment) s.len

  unfoldable pub reset : SlabBuffer V → SlabBuffer V
  reset s = record s { len = 0; off = 0; on = 0 }

  unfoldable pub reset_off_on : SlabBuffer V → SlabBuffer V
  reset_off_on s = record s { off = 0; on = 0 }

  unfoldable pub try_grow : ℕ → SlabBuffer V → Option (SlabBuffer V)
  try_grow n s =
      if leb n (length (bytes s) - s.len) then some (record s { len = s.len + n }) else none

  -- `s.buf[s.on:]` overwritten by as much of `p` as there is room for, and how much that is.
  unfoldable pub copy_in : List V → SlabBuffer V → ℕ × SlabBuffer V
  copy_in p s =
      let count = min (length p) (s.len - s.on) in
      let m = take s.on (bytes s) ++ take count p ++ drop (s.on + count) (bytes s) in
      (count, record s { buf = elim s.buf [ none ↦ none | some _ ↦ some m ]; on = s.on + count })

  -- `Next`
  unfoldable pub next : ℕ → SlabBuffer V → List V × SlabBuffer V
  next n s =
      let k = min n (s.on - s.off) in (take k (drop s.off (bytes s)), record s { off = s.off + k })

  -- `Read` of at most `size` bytes; `none` is `io.EOF`, with the buffer reset.
  unfoldable pub read : ℕ → SlabBuffer V → Option (List V) × SlabBuffer V
  unfolding is_empty reset
  read size s =
      if is_empty s
      then (if size == 0 then some [] else none, reset s)
      else let k = min size (s.on - s.off) in
        if k == 0
        then (none, s)
        else (some (take k (drop s.off (bytes s))), record s { off = s.off + k })

  -- The same bytes moved to the front of the buffer.
  unfoldable pub slid : SlabBuffer V → List V
  slid s = let m = s.len - s.off in take m (drop s.off (bytes s)) ++ drop m (bytes s)

  -- The last lines of `grow`; `none` is the panic of a slice beyond the capacity.
  unfoldable pub settle : ℕ → ℕ → List V → SlabBuffer V → Option (SlabBuffer V)
  settle m n mem s =
      if ltb (length mem) (m + n)
      then none
      else some (record s { buf = some mem; len = m + n; off = 0; on = s.on - s.off })

module _ {ℓ} {V : Type ℓ} (zero_byte : V) (spare : ℕ → ℕ) where
  unfoldable pub new_slab_buff_init : ℕ → SlabBuffer V
  new_slab_buff_init size = record {
    buf = some (replicate size zero_byte);
    len = size;
    off = 0;
    on = 0;
    align = false;
  }

  unfoldable pub new_slab_buff_init_align : ℕ → SlabBuffer V
  unfolding align_size
  new_slab_buff_init_align size =
      let n = align_size size in
      record {
        buf = some (replicate (n + spare n) zero_byte);
        len = n;
        off = 0;
        on = 0;
        align = true;
      }

  -- The first allocation for a nil buffer.
  unfoldable pub first_buf : ℕ → SlabBuffer V → SlabBuffer V
  unfolding align_size
  first_buf n s =
      if s.align
      then (let k = align_size n in
          record s { buf = some (replicate (k + spare k) zero_byte); len = k })
      else record s { buf = some (replicate small_buffer_size zero_byte); len = n }

  -- The bytes of the larger buffer, with the `m` bytes from `off` on copied to its front.
  unfoldable pub larger : ℕ → SlabBuffer V → List V
  unfolding align_size
  larger n s =
      let want = 2 * length (bytes s) + n in
      let k = if s.align then align_size want else want in
      let old = take (min k (s.len - s.off)) (drop s.off (bytes s)) in
      old ++ replicate (k - length old + (if s.align then spare k else 0)) zero_byte

  -- `grow` behind its first test; `m` is the length from `off` on before that test.
  unfoldable pub grow_from : ℕ → ℕ → SlabBuffer V → Option (SlabBuffer V)
  unfolding try_grow first_buf larger slid settle
  grow_from m n s = elim (try_grow n s) [
    | some s' ↦ some s'
    | none ↦
        let c = length (bytes s) in
        let fresh : Bool = elim s.buf [ none ↦ leb n small_buffer_size | some _ ↦ false ] in
        if fresh
        then some (first_buf n s)
        else if leb (n + m) (c / 2)
        then settle m n (slid s) s
        else if ltb (2 ^ 63 - 1) (c + c + n)
        then none
        else settle m n (larger n s) s
  ]

  -- `grow`; `none` is a panic, with `ErrTooLarge` or of a slice.
  unfoldable pub grow : ℕ → SlabBuffer V → Option (SlabBuffer V)
  unfolding reset grow_from
  grow n s =
      let m = s.len - s.off in grow_from m n (if m == 0 && not (s.off == 0) then reset s else s)

  -- `WriteUnsafeDirectly`: the count of bytes that are written, and the buffer.
  unfoldable pub write : List V → SlabBuffer V → Option (ℕ × SlabBuffer V)
  unfolding is_enough try_grow grow copy_in
  write p s = if is_enough (length p) s then some (copy_in p s) else elim (try_grow (length p) s) [
    | some s' ↦ some (copy_in p s')
    | none ↦ elim (grow (length p) s) [ none ↦ none | some s' ↦ some (copy_in p s') ]
  ]
