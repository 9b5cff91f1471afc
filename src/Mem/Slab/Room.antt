-- ===== src/Mem/Slab/Room.antt =====
-- The room for more bytes that util/mem/SlabBuffer.go finds in a buffer, or makes by growing it.
use gocommon.Base.{
  ℕ, ◌+◌, ◌-◌, ◌*◌, ◌/◌, ◌^◌, min, ◌≤◌, ◌<◌, ◌≡◌, refl, ap, ◌∙◌, true, false, not, ◌&&◌, some, List,
  ◌++◌, nat_eq, ◌==◌, ltb, leb, length, take, drop, replicate, arith, length-append, length-drop,
  length-replicate, Bool-cases, inl, inr, subst,
}
use gocommon.Mem.Slab.{SlabBuffer, reset, try_grow, copy_in, larger, slid, settle, grow_from, grow}
use gocommon.Mem.Slab.Parts.{length-take-le, take-append-le, take-take, take-length, window-written}

module _ {ℓ} {V : Type ℓ} where
  -- A buffer that is not nil and not aligned.
  abbrev pub slab : List V → ℕ → ℕ → ℕ → SlabBuffer V
  slab m len off on = record { buf = some m; len = len; off = off; on = on; align = false }

  -- The indices are in order and in the buffer.
  pub record IsWf (m : List V) (len off on : ℕ) : Type 0 where
    pub off_on : off ≤ on
    pub on_len : on ≤ len
    pub len_cap : len ≤ length m

  -- `s` is such a buffer, with the bytes `u` to read and room for `n` more.
  abbrev pub Room : ℕ → List V → SlabBuffer V → Type ℓ
  Room n u s =
      (m : List V) × (len : ℕ) × (off : ℕ) × (on : ℕ) × (s ≡ slab m len off on)
      × IsWf m len off on
      × (on + n ≤ len)
      × (take (on - off) (drop off m) ≡ u)

  copy_in-slab :
      (m : List V) (len off on : ℕ) (p : List V)
      → IsWf m len off on
      → on + length p ≤ len
      → copy_in p (slab m len off on)
        ≡ (length p, slab (take on m ++ p ++ drop (on + length p) m) len off (on + length p))
  unfolding copy_in
  copy_in-slab m len off on p w room =
      let all : min (length p) (len - on) ≡ length p = omega arith in rw (all, take-length p) refl

  -- With room for it, `copy_in` adds `p` behind what there is to read.
  copy_in-unread :
      (m : List V) (len off on : ℕ) (p : List V)
      → IsWf m len off on
      → on + length p ≤ len
      → (s : SlabBuffer V) × (copy_in p (slab m len off on) ≡ (length p, s))
        × Room 0 (take (on - off) (drop off m) ++ p) s
  copy_in-unread m len off on p w room =
      let fits : len ≤ length (take on m ++ p ++ drop (on + length p) m) = omega (
        arith,
        w.len_cap,
        w.on_len,
        length-append {ℓ} (take on m ++ p) (drop (on + length p) m),
        length-append {ℓ} (take on m) p,
        length-take-le on m (omega (arith, w.len_cap, w.on_len)),
        length-drop {ℓ} (on + length p) m,
      ) in
      (
        slab (take on m ++ p ++ drop (on + length p) m) len off (on + length p),
        copy_in-slab m len off on p w room,
        (
          _,
          len,
          off,
          on + length p,
          refl,
          record { off_on = omega (arith, w.off_on); on_len = room; len_cap = fits },
          omega arith,
          window-written off on _ _ m p _ w.off_on (omega (arith, w.len_cap, w.on_len)) refl refl,
        ),
      )

  pub copy_in-Room :
      (p u : List V) (s : SlabBuffer V)
      → Room (length p) u s
      → (t : SlabBuffer V) × (copy_in p s ≡ (length p, t)) × Room 0 (u ++ p) t
  copy_in-Room p u s (m, len, off, on, same, w, room, held) =
      let (t, run, left) = copy_in-unread m len off on p w room in
      (t, ap (copy_in p) same ∙ run, subst (λ l. Room 0 (l ++ p) t) held left)

  length-front :
      (m : List V) (len off on : ℕ)
      → IsWf m len off on
      → length (take (len - off) (drop off m)) ≡ len - off
  length-front m len off on w =
      length-take-le (len - off) (drop off m) (omega (arith, w.len_cap, length-drop {ℓ} off m))

  moved :
      (m rest : List V) (len off on n : ℕ)
      → IsWf m len off on
      → len - off + n ≤ length (take (len - off) (drop off m) ++ rest)
      → (s : SlabBuffer V) × (settle
            (len - off)
            n
            (take (len - off) (drop off m) ++ rest)
            (slab m len off on)
          ≡ some s)
        × Room n (take (on - off) (drop off m)) s
  unfolding settle
  moved m rest len off on n w fits =
      let front : List V = take (len - off) (drop off m) in
      let whole : ltb (length (front ++ rest)) (len - off + n) ≡ false = ground (arith, fits) in
      let long : length front ≡ len - off = length-front m len off on w in
      (
        slab (front ++ rest) (len - off + n) 0 (on - off),
        rw whole refl,
        (
          front ++ rest,
          len - off + n,
          0,
          on - off,
          refl,
          record { off_on = omega arith; on_len = omega (arith, w.on_len); len_cap = fits },
          omega (arith, w.on_len),
          ap (λ k. take k (front ++ rest)) (let e : on - off - 0 ≡ on - off = omega arith in e)
              ∙ take-append-le (on - off) front rest (omega (arith, long, w.on_len))
              ∙ take-take (on - off) (len - off) (drop off m) (omega (arith, w.on_len)),
        ),
      )

  module _ (zero_byte : V) (spare : ℕ → ℕ) where
    -- What `grow` finds after its first test; `k` is the length from `off` on.
    grow_from-Room :
        (m : List V) (len off on n : ℕ)
        → IsWf m len off on
        → 2 * length m + n < 2 ^ 63
        → (s : SlabBuffer V) × (grow_from zero_byte spare (len - off) n (slab m len off on)
            ≡ some s)
          × Room n (take (on - off) (drop off m)) s
    unfolding grow_from try_grow slid larger
    grow_from-Room m len off on n w small = elim (Bool-cases (leb n (length m - len))) [
      | inl t ↦ (
        slab m (len + n) off on,
        rw (t, grow_from, try_grow) refl,
        (
          m,
          len + n,
          off,
          on,
          refl,
          record {
            off_on = w.off_on;
            on_len = omega (arith, w.on_len);
            len_cap = ground (arith, t, w.len_cap);
          },
          omega (arith, w.on_len),
          refl,
        ),
      )
      | inr f ↦ elim (Bool-cases (leb (n + (len - off)) (length m / 2))) [
        | inl t ↦
            let fits : len - off + n
                ≤ length (take (len - off) (drop off m) ++ drop (len - off) m) =
              ground (
                arith,
                t,
                w.len_cap,
                length-front m len off on w,
                length-drop {ℓ} (len - off) m,
                length-append {ℓ} (take (len - off) (drop off m)) (drop (len - off) m),
              ) in
            let (s, run, room) = moved m (drop (len - off) m) len off on n w fits in
            (s, rw (f, t, grow_from, try_grow) run, room)
        | inr g ↦
            let old : List V = take (len - off) (drop off m) in
            let rest : List V = replicate (2 * length m + n - length old + 0) zero_byte in
            let fits : len - off + n
                ≤ length (
                    take (len - off) (drop off m)
                    ++ replicate (2 * length m + n - length (take (len - off) (drop off m)) + 0)
                        zero_byte) =
              omega (
                arith,
                w.len_cap,
                length-front m len off on w,
                length-append {ℓ} (take (len - off) (drop off m)) (
                    replicate (2 * length m + n - length (take (len - off) (drop off m)) + 0)
                      zero_byte),
                length-replicate {ℓ} (2 * length m + n - length (take (len - off) (drop off m)) + 0)
                    zero_byte,
              ) in
            let (s, run, room) = moved m rest len off on n w fits in
            let cut : min (2 * length m + n) (len - off) ≡ len - off = omega (arith, w.len_cap) in
            let ok : ltb (2 ^ 63 - 1) (length m + length m + n) ≡ false = ground (arith, small) in
            (s, rw (f, g, ok, cut, grow_from, try_grow, larger) run, room)
      ]
    ]

    grow-reset :
        (m : List V) (len off on n : ℕ)
        → ((len - off) == 0 && not (off == 0)) ≡ true
        → grow zero_byte spare n (slab m len off on)
          ≡ grow_from zero_byte spare (len - off) n (slab m 0 0 0)
    unfolding grow reset
    grow-reset m len off on n t = rw (t, grow) refl

    pub grow-Room :
        (m : List V) (len off on n : ℕ)
        → IsWf m len off on
        → 2 * length m + n < 2 ^ 63
        → (s : SlabBuffer V) × (grow zero_byte spare n (slab m len off on) ≡ some s)
          × Room n (take (on - off) (drop off m)) s
    unfolding grow
    grow-Room m len off on n w small = elim (Bool-cases ((len - off) == 0 && not (off == 0))) [
      | inl t ↦
          let empty : len - off ≡ 0 - 0 = ground (arith, t) in
          let all_read : 0 - 0 ≡ on - off = ground (arith, t, w.on_len) in
          let nothing : IsWf m 0 0 0 = record {
            off_on = omega arith;
            on_len = omega arith;
            len_cap = omega arith;
          } in
          let (s, run, room) = grow_from-Room m 0 0 0 n nothing small in
          let none_left : take (0 - 0) m ≡ take (on - off) (drop off m) =
            ap (λ k. take k (drop off m)) (let e : 0 ≡ on - off = omega (arith, all_read) in e) in
          (
            s,
            grow-reset m len off on n t
                ∙ ap (λ k. grow_from zero_byte spare k n (slab m 0 0 0)) empty
                ∙ run,
            subst (λ u. Room n u s) none_left room,
          )
      | inr f ↦
          let (s, run, room) = grow_from-Room m len off on n w small in (s, rw (f, grow) run, room)
    ]
