-- ===== src/Tests/Buffers.antt =====
-- Runs of the buffers.
use gocommon.Base.{ℕ, ◌+◌, ◌≡◌, refl, some, List, [], ◌∷◌, true, arith, pos, nat_eq, length, ◌++◌}
use gocommon.Mem.Ring.{Entry, Buffer, new, get, put, offer_all, trim}
use gocommon.Mem.Ring.History.{put_all, last, get-put_all}
use gocommon.Mem.ChannelBuf.{ChannelBuf}
use gocommon.Mem.Slab.{SlabBuffer, unread, write}
use gocommon.Mem.Slab.Room.{IsWf, Room, slab}
use gocommon.Mem.Slab.Fifo.{unread-write}
use gocommon.Mem.SyncArray.{Call, push, pop, clear_all}

abbrev entry_at : ℕ → Entry ℕ
entry_at t = record { value = t + 1; timestamp = t }

abbrev three : List (Entry ℕ)
three = entry_at 5 ∷ entry_at 6 ∷ entry_at 9 ∷ []

-- Two slots, after three puts.
abbrev full : Buffer ℕ
full = record { size = pos 2; vals = entry_at 6 ∷ entry_at 9 ∷ []; streams = [] }

full_run : put_all (λ id. true) three (new (pos 2)) ≡ some full
unfolding put_all put offer_all trim new
full_run = refl

get-put_all_example : get (pos 2) full ≡ last 2 three
get-put_all_example = get-put_all (λ id. true) three 2 2 (omega arith) full_run

abbrev some_time : ℕ
some_time = 6

abbrev one_free : ChannelBuf ℕ
one_free = record { cap = 2; free_list = 4 ∷ [] }

abbrev calls : List (Call ℕ)
calls = push 3 8 ∷ push 4 9 ∷ pop ∷ clear_all ∷ push 5 1 ∷ []

-- Eight bytes, of which the third and the fourth are to be read.
abbrev eight : List ℕ
eight = 1 ∷ 2 ∷ 3 ∷ 4 ∷ 0 ∷ 0 ∷ 0 ∷ 0 ∷ []

eight-IsWf : IsWf eight 8 2 4
eight-IsWf = record { off_on = omega arith; on_len = omega arith; len_cap = omega arith }

abbrev six : List ℕ
six = 5 ∷ 6 ∷ 7 ∷ 8 ∷ 9 ∷ 10 ∷ []

unread-write_example :
    (s : SlabBuffer ℕ) × (write 0 (λ n. 512) six (slab eight 8 2 4) ≡ some (length six, s))
    × Room 0 (unread (slab eight 8 2 4) ++ six) s
unread-write_example = unread-write 0 (λ n. 512) eight 8 2 4 six eight-IsWf (omega arith)
