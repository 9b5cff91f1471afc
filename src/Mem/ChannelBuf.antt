-- ===== src/Mem/ChannelBuf.antt =====
-- util/mem/ChannelBuf.go: a channel with a capacity as a free list.
use gocommon.Base.{
  ℕ, ◌-◌, ◌≤◌, ◌≡◌, Option, none, List, [], ◌∷◌, ◌++◌, if◌then◌else◌, ltb, arith, length,
  length-append,
}

module _ {ℓ} (V : Type ℓ) where
  -- The values that wait in the channel, and its capacity.
  pub record ChannelBuf : Type ℓ where
    pub cap : ℕ
    pub free_list : List V

module _ {ℓ} {V : Type ℓ} where
  unfoldable pub new_channel_buf : ℕ → ChannelBuf V
  new_channel_buf up_limits = record { cap = up_limits; free_list = [] }

  -- A full channel drops the value.
  unfoldable pub push_back : V → ChannelBuf V → ChannelBuf V
  push_back v l =
      if ltb (length l.free_list) l.cap then record l { free_list = l.free_list ++ v ∷ [] } else l

  -- The value that is received is not the one returned: the last line is `return nil`.
  unfoldable pub pop_front : ChannelBuf V → Option V × ChannelBuf V
  pop_front l = elim l.free_list [ [] ↦ (none, l) | v ∷ vs ↦ (none, record l { free_list = vs }) ]

  -- The list is a queue, at most as long as the capacity, but what leaves it is lost.
  pub pop_front_loses :
      (v : V) (l : ChannelBuf V)
      → length l.free_list ≤ l.cap
      → (length (push_back v l).free_list ≤ l.cap)
        × ((pop_front l).0 ≡ none)
        × (length (pop_front l).1.free_list ≡ length l.free_list - 1)
  unfolding push_back pop_front
  pop_front_loses v l h = ground (arith, length-append l.free_list (v ∷ []))
