-- ===== src/Mem/Slab/Fifo.antt =====
-- The order in which bytes pass through the buffer of util/mem/SlabBuffer.go.
use gocommon.Base.{
  ℕ, ◌+◌, ◌-◌, ◌*◌, ◌^◌, min, ◌≤◌, ◌<◌, ◌≡◌, refl, ap, ap₂, sym, ◌∙◌, true, false, none, some, List,
  ◌++◌, nat_eq, leb, length, take, drop, arith, length-drop, Bool-cases, inl, inr, take-append-drop,
}
use gocommon.Mem.Slab.{SlabBuffer, unread, is_enough, try_grow, copy_in, next, grow, write}
use gocommon.Mem.Slab.Parts.{length-take-le, take-take, drop-take, drop-drop}
use gocommon.Mem.Slab.Room.{IsWf, slab, Room, copy_in-Room, grow-Room}

module _ {ℓ} {V : Type ℓ} where
  -- `next` returns as many bytes as it is asked for, or all that there are; these and the bytes
  -- that are left make up what there was to read, and the indices stay in order.
  pub unread-next :
      (n : ℕ) (m : List V) (len off on : ℕ)
      → IsWf m len off on
      → let (out, s) = next n (slab m len off on) in
        (out ++ unread s ≡ unread (slab m len off on))
        × (length out ≡ min n (on - off))
        × IsWf m s.len s.off s.on
  unfolding next unread
  unread-next n m len off on w =
      let few : min n (on - off) ≤ on - off = omega arith in
      let all : List V = take (on - off) (drop off m) in
      (
        ap₂ (λ a b. a ++ b) (sym (take-take (min n (on - off)) (on - off) (drop off m) few))
              (ap (take (on - (off + min n (on - off))))
                  (sym (drop-drop (min n (on - off)) off _ m refl))
                ∙ sym (drop-take (min n (on - off)) (on - off) _ (drop off m) (omega arith)))
            ∙ take-append-drop (min n (on - off)) all,
        length-take-le (min n (on - off)) (drop off m)
            (omega (arith, w.on_len, w.len_cap, length-drop {ℓ} off m)),
        record { off_on = omega (arith, w.off_on); on_len = w.on_len; len_cap = w.len_cap },
      )

  module _ (zero_byte : V) (spare : ℕ → ℕ) where
    write-enough :
        (p : List V) (s : SlabBuffer V)
        → is_enough (length p) s ≡ true
        → write zero_byte spare p s ≡ some (copy_in p s)
    unfolding write
    write-enough p s t = rw (t, write) refl

    write-resliced :
        (p : List V) (s t : SlabBuffer V)
        → is_enough (length p) s ≡ false
        → try_grow (length p) s ≡ some t
        → write zero_byte spare p s ≡ some (copy_in p t)
    unfolding write
    write-resliced p s t f g = rw (f, g, write) refl

    write-grown :
        (p : List V) (s t : SlabBuffer V)
        → is_enough (length p) s ≡ false
        → try_grow (length p) s ≡ none
        → grow zero_byte spare (length p) s ≡ some t
        → write zero_byte spare p s ≡ some (copy_in p t)
    unfolding write
    write-grown p s t f g h = rw (f, g, h, write) refl

    -- The room that a write finds or makes.
    write-Room :
        (m : List V) (len off on : ℕ) (p : List V)
        → IsWf m len off on
        → 2 * length m + length p < 2 ^ 63
        → (s : SlabBuffer V) × (write zero_byte spare p (slab m len off on) ≡ some (copy_in p s))
          × Room (length p) (take (on - off) (drop off m)) s
    unfolding is_enough try_grow
    write-Room m len off on p w small =
        elim (Bool-cases (is_enough (length p) (slab m len off on))) [
          | inl t ↦ (
            slab m len off on,
            write-enough p _ t,
            (m, len, off, on, refl, w, ground (arith, t), refl),
          )
          | inr f ↦ elim (Bool-cases (leb (length p) (length m - len))) [
            | inl t ↦ (
              slab m (len + length p) off on,
              write-resliced p _ _ f (rw t refl),
              (
                m,
                len + length p,
                off,
                on,
                refl,
                record {
                  off_on = w.off_on;
                  on_len = omega (arith, w.on_len);
                  len_cap = ground (arith, t, w.len_cap);
                },
                omega (arith, w.on_len),
                refl,
              ),
            )
            | inr g ↦
                let (s, run, room) = grow-Room zero_byte spare m len off on (length p) w small in
                (s, write-grown p _ s f (rw g refl) run, room)
          ]
        ]

    -- On a buffer that is not nil and not aligned, and that is not too large, a write of any bytes
    -- returns their number and leaves what there was to read, followed by these bytes.
    pub unread-write :
        (m : List V) (len off on : ℕ) (p : List V)
        → IsWf m len off on
        → 2 * length m + length p < 2 ^ 63
        → (s : SlabBuffer V) × (write zero_byte spare p (slab m len off on) ≡ some (length p, s))
          × Room 0 (unread (slab m len off on) ++ p) s
    unfolding unread
    unread-write m len off on p w small =
        let (grown, run, room) = write-Room m len off on p w small in
        let (s, copied, left) = copy_in-Room p _ grown room in (s, run ∙ ap some copied, left)
