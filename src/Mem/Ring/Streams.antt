-- ===== src/Mem/Ring/Streams.antt =====
-- The streams of util/mem/ring/buffer.go.
use gocommon.Base.{
  ℕ, ◌≡◌, ◌≢◌, ◌↔◌, Bool, true, false, not, ◌&&◌, List, [], ◌∷◌, ltb, arith, none, some, String,
  length, any, inl, inr, Option-cases, Bool-cases,
}
use gocommon.Mem.Ring.{Entry, Stream, Buffer, offer, offer_all, put, stream_cap}

module _ {ℓ} {V : Type ℓ} where
  -- A stream that nobody stops and nobody reads, with a full channel.
  abbrev pub is_stuck : String × Stream V → Bool
  is_stuck (id, s) = not (ltb (length s.entries) stream_cap) && not s.stopped

  offer-stuck :
      (c : Bool) (entry : Entry V) (s : Stream V) (id : String)
      → is_stuck (id, s) ≡ true
      → offer c entry s ≡ none
  unfolding offer
  offer-stuck c entry s id h = ground arith

  offer-free :
      (c : Bool) (entry : Entry V) (s : Stream V) (id : String)
      → is_stuck (id, s) ≡ false
      → offer c entry s ≢ none
  unfolding offer
  offer-free c entry s id h e = ground arith

  offer_all_blocks :
      (choose : String → Bool) (entry : Entry V) (m : List (String × Stream V))
      → any is_stuck m ≡ true
      → offer_all choose entry m ≡ none
  unfolding offer_all
  offer_all_blocks choose entry [] h = ground arith
  offer_all_blocks choose entry ((id, s) ∷ m) h = elim (Bool-cases (is_stuck (id, s))) [
    | inl t ↦ rw (offer-stuck (choose id) entry s id t, offer_all)
    | inr f ↦
        let rest : offer_all choose entry m ≡ none =
          offer_all_blocks choose entry m (ground arith) in
        elim (Option-cases (offer (choose id) entry s)) [
          | inl n ↦ rw (n, offer_all)
          | inr (none, e) ↦ rw (e, rest, offer_all)
          | inr (some s', e) ↦ rw (e, rest, offer_all)
        ]
  ]

  offer_all_passes :
      (choose : String → Bool) (entry : Entry V) (m : List (String × Stream V))
      → any is_stuck m ≡ false
      → offer_all choose entry m ≢ none
  unfolding offer_all
  offer_all_passes choose entry [] h e = ground arith
  offer_all_passes choose entry ((id, s) ∷ m) h e =
      let free : is_stuck (id, s) ≡ false = ground arith in
      let rest : any is_stuck m ≡ false = ground arith in
      let ih = offer_all_passes choose entry m rest in
      let one = offer-free (choose id) entry s id free in ground arith

  -- `put` blocks, with the ring locked, exactly if some stream has a full channel and is not stopped.
  pub put_blocks :
      (choose : String → Bool) (now : ℕ) (v : V) (b : Buffer V)
      → (put choose now v b ≡ none) ↔ (any is_stuck b.streams ≡ true)
  unfolding put
  put_blocks choose now v b =
      let entry : Entry V = record { value = v; timestamp = now } in
      elim (Bool-cases (any is_stuck b.streams)) [
        | inl t ↦ ((λ _. t), (λ _. rw (offer_all_blocks choose entry b.streams t, put)))
        | inr f ↦ let p = offer_all_passes choose entry b.streams f in ground arith
      ]
