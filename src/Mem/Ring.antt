-- ===== src/Mem/Ring.antt =====
-- util/mem/ring/buffer.go: the latest entries, and the streams to which each entry is sent.
-- A time is a number of nanoseconds since the zero time of Go.
pub mod History
pub mod Since
pub mod Streams
use gocommon.Base.{
  ℕ, zero, suc, ◌+◌, ◌-◌, Bool, true, false, ◌||◌, not, Option, none, some, List, [], ◌∷◌, ◌++◌,
  String, string_eq, nat_eq, ◌==◌, if◌then◌else◌, ltb, leb, ℤ, pos, negsuc, pos_part, ltb_ℤ, length,
  drop, insert,
}

module _ {ℓ} (V : Type ℓ) where
  pub record Entry : Type ℓ where
    pub value : V
    pub timestamp : ℕ

  -- `Stream`: the entries that wait in the channel, and whether a receive from `Stop` would not block.
  pub record Stream : Type ℓ where
    pub id : String
    pub entries : List Entry
    pub stopped : Bool

  -- `Buffer`. The streams stand in the order in which Go ranges over the map.
  pub record Buffer : Type ℓ where
    pub size : ℤ
    pub vals : List Entry
    pub streams : List (String × Stream)

-- The capacity of the channel that `Stream` makes.
abbrev pub stream_cap : ℕ
stream_cap = 128

module _ {ℓ} {V : Type ℓ} where
  unfoldable pub new : ℤ → Buffer V
  new i = record { size = i; vals = []; streams = [] }

  -- `vals[1:]` if they are more than the size
  unfoldable pub trim : ℤ → List (Entry V) → List (Entry V)
  trim size vals = if ltb_ℤ size (pos (length vals)) then drop 1 vals else vals

  -- The `select` of `Put` on one stream. `none` blocks: no stop is ready, and the channel is full.
  -- If both are ready Go chooses, here by `choose_stop`; a stream that is stopped is deleted.
  unfoldable pub offer : Bool → Entry V → Stream V → Option (Option (Stream V))
  offer choose_stop entry s =
      let sent = some (some (record s { entries = s.entries ++ entry ∷ [] })) in
      if ltb (length s.entries) stream_cap
      then (if s.stopped then (if choose_stop then some none else sent) else sent)
      else if s.stopped
      then some none
      else none

  unfoldable pub offer_all :
      (String → Bool) → Entry V → List (String × Stream V) → Option (List (String × Stream V))
  unfolding offer
  offer_all choose entry [] = some []
  offer_all choose entry ((id, s) ∷ m) =
      let rest = offer_all choose entry m in
      elim (offer (choose id) entry s) [
        | none ↦ none
        | some none ↦ rest
        | some (some s') ↦ elim rest [ none ↦ none | some m' ↦ some ((id, s') ∷ m') ]
      ]

  -- `Put` at the time `now`. `none` means that it blocks, with the lock held, until somebody reads or stops a stream.
  unfoldable pub put : (String → Bool) → ℕ → V → Buffer V → Option (Buffer V)
  unfolding trim offer_all
  put choose now v b =
      let entry : Entry V = record { value = v; timestamp = now } in
      elim (offer_all choose entry b.streams) [
        | none ↦ none
        | some m ↦ some (record b { vals = trim b.size (b.vals ++ entry ∷ []); streams = m })
      ]

  unfoldable pub get : ℤ → Buffer V → List (Entry V)
  get n b =
      let len = length b.vals in
      let n' = if ltb_ℤ (pos len) n || ltb_ℤ n (pos 0) then len else pos_part n in
      drop (len - n') b.vals

  -- The loop of `Since`.
  unfoldable pub since_loop : ℕ → List (Entry V) → List (Entry V)
  since_loop t [] = []
  since_loop t (v ∷ vals) = if ltb t v.timestamp then v ∷ vals else since_loop t vals

  -- `Since` at the time `now`.
  unfoldable pub since : ℕ → ℕ → Buffer V → List (Entry V)
  unfolding since_loop
  since now t b = if t == 0 then b.vals else if ltb now t then [] else since_loop t b.vals

  -- `Stream`, for an id that `uuid` has made.
  unfoldable pub add_stream : String → Buffer V → Buffer V
  unfolding insert
  add_stream id b = record b {
    streams = insert id (record { id = id; entries = []; stopped = false }) b.streams;
  }
