-- ===== src/Client/Codec/Headers.antt =====
-- What the other side reads of a message that client/rpc_codec.go writes.
use gocommon.Base.{
  ◌≡◌, refl, ap, ◌∙◌, ◌⊎◌, inl, inr, false, Option, none, some, List, String, string_eq, ◌==◌,
  lookup, lookup-insert, lookup-insert_self, Bool-cases, Option-cases, ℕ,
}
use gocommon.Client.Header.{text_at}
use gocommon.Client.Stream.{empty_message}
use gocommon.Client.Codec.{
  Message, Packet, Body, Wire, set_header, get_header, set_headers, get_headers, copy_header,
  send_encoded, encoded, header_of, write, read_header,
}

text_of :
    {o o' : Option String}
    → o ≡ o'
    → ◌≡◌ {A = String} (elim o [ none ↦ "" | some v ↦ v ]) (elim o' [ none ↦ "" | some v ↦ v ])
text_of e = ap (λ (o : Option String). elim o [ none ↦ "" | some v ↦ v ]) e

text_at-set_header :
    (hdr v : String) (m : List (String × String))
    → text_at hdr (set_header hdr v m) ≡ get_header v hdr m
unfolding set_header get_header
text_at-set_header hdr v m = elim (Bool-cases (v == "")) [
  | inl t ↦ rw t refl
  | inr f ↦ rw f (text_of (lookup-insert_self hdr v m))
]

text_at-set_other :
    (k hdr v : String) (m : List (String × String))
    → (k == hdr) ≡ false
    → text_at k (set_header hdr v m) ≡ text_at k m
unfolding set_header
text_at-set_other k hdr v m ne = elim (Bool-cases (v == "")) [
  | inl t ↦ rw t refl
  | inr f ↦ rw f (text_of {o' = lookup k m} (lookup-insert hdr k v m ∙ rw ne refl))
]

get_header-at :
    (k v : String) (m m' : List (String × String))
    → text_at k m ≡ text_at k m'
    → get_header v k m ≡ get_header v k m'
unfolding get_header
get_header-at k v m m' e = rw e refl

-- What `set_headers` writes of each field, where another one is not the same header.
module _ (m : Message) (stream : String) (h : List (String × String)) where
  id_written : text_at "Micro-Id" (set_headers m stream h) ≡ get_header m.id "Micro-Id" h
  unfolding set_headers
  id_written =
      text_at-set_other "Micro-Id" "Micro-Stream" stream _ refl
      ∙ text_at-set_other "Micro-Id" "Micro-Error" m.error _ refl
      ∙ text_at-set_other "Micro-Id" "Micro-Endpoint" m.endpoint _ refl
      ∙ text_at-set_other "Micro-Id" "Micro-Method" m.method _ refl
      ∙ text_at-set_other "Micro-Id" "Micro-Service" m.target _ refl
      ∙ text_at-set_header "Micro-Id" m.id h

  method_written :
      text_at "Micro-Method" (set_headers m stream h) ≡ get_header m.method "Micro-Method" h
  unfolding set_headers
  method_written =
      text_at-set_other "Micro-Method" "Micro-Stream" stream _ refl
      ∙ text_at-set_other "Micro-Method" "Micro-Error" m.error _ refl
      ∙ text_at-set_other "Micro-Method" "Micro-Endpoint" m.endpoint _ refl
      ∙ text_at-set_header "Micro-Method" m.method _
      ∙ get_header-at "Micro-Method" m.method _ h (
          text_at-set_other "Micro-Method" "Micro-Service" m.target _ refl
          ∙ text_at-set_other "Micro-Method" "Micro-Id" m.id h refl)

  endpoint_written :
      text_at "Micro-Endpoint" (set_headers m stream h) ≡ get_header m.endpoint "Micro-Endpoint" h
  unfolding set_headers
  endpoint_written =
      text_at-set_other "Micro-Endpoint" "Micro-Stream" stream _ refl
      ∙ text_at-set_other "Micro-Endpoint" "Micro-Error" m.error _ refl
      ∙ text_at-set_header "Micro-Endpoint" m.endpoint _
      ∙ get_header-at "Micro-Endpoint" m.endpoint _ h (
          text_at-set_other "Micro-Endpoint" "Micro-Method" m.method _ refl
          ∙ text_at-set_other "Micro-Endpoint" "Micro-Service" m.target _ refl
          ∙ text_at-set_other "Micro-Endpoint" "Micro-Id" m.id h refl)

  error_written :
      text_at "Micro-Error" (set_headers m stream h) ≡ get_header m.error "Micro-Error" h
  unfolding set_headers
  error_written =
      text_at-set_other "Micro-Error" "Micro-Stream" stream _ refl
      ∙ text_at-set_header "Micro-Error" m.error _
      ∙ get_header-at "Micro-Error" m.error _ h (
          text_at-set_other "Micro-Error" "Micro-Endpoint" m.endpoint _ refl
          ∙ text_at-set_other "Micro-Error" "Micro-Method" m.method _ refl
          ∙ text_at-set_other "Micro-Error" "Micro-Service" m.target _ refl
          ∙ text_at-set_other "Micro-Error" "Micro-Id" m.id h refl)

-- What a transport delivers is what was sent.
abbrev pub Delivers : {E V W : Type 0} → Wire E V W → Type 0
Delivers {W} wire =
    (p : Packet) (w : W) → (wire.send p w).0 ≡ none → (wire.recv (wire.send p w).1).0 ≡ inr p

-- The codec inside leaves a header alone, as that for JSON does.
abbrev pub LeavesHeader : {E V W : Type 0} → Wire E V W → Type 0
LeavesHeader wire = (m : Message) (bytes : List ℕ) → wire.read_header m bytes ≡ (none, m)

get_header-empty : (hdr : String) (m : List (String × String)) → get_header "" hdr m ≡ text_at hdr m
unfolding get_header
get_header-empty hdr m = refl

module _ {E V W : Type 0} (wire : Wire E V W) where
  -- A `Write` without an error has encoded the body and sent it.
  send_encoded-sent :
      (h : List (String × String)) (b : E ⊎ List ℕ) (w : W)
      → (send_encoded wire h b w).0 ≡ none
      → (bytes : List ℕ) × ((wire.send (record { header = h; body = bytes }) w).0 ≡ none)
        × (b ≡ inr bytes)
        × ((send_encoded wire h b w).1 ≡ (wire.send (record { header = h; body = bytes }) w).1)
  unfolding send_encoded
  send_encoded-sent h (inl e) w n = cc
  send_encoded-sent h (inr bytes) w n =
      elim (Option-cases (wire.send (record { header = h; body = bytes }) w).0) [
        | inl e ↦ (bytes, e, refl, refl)
        | inr (x, e) ↦ cc (rw e at n)
      ]

  -- Where the transport delivers what was sent and the codec inside leaves the header alone: the other
  -- side reads the id, the method, the endpoint and the error of a message that `Write` has sent, or
  -- what the header of the request has for a field that is empty; and its buffer holds the body as
  -- it was encoded.
  pub read_header-write :
      (req : List (String × String)) (stream : String) (m : Message) (body : Body V) (w : W)
      (rbuf : List ℕ)
      → Delivers wire
      → LeavesHeader wire
      → (write wire req stream m body w).0 ≡ none
      → let h = copy_header req m.header in
        let ((e, m', rbuf'), w') =
          read_header wire empty_message rbuf (write wire req stream m body w).1 in
        (e ≡ none)
        × (m'.id ≡ get_header m.id "Micro-Id" h)
        × (m'.method ≡ get_header m.method "Micro-Method" h)
        × (m'.endpoint ≡ get_header m.endpoint "Micro-Endpoint" h)
        × (m'.error ≡ get_header m.error "Micro-Error" h)
        × (encoded wire (record m { header = set_headers m stream h }) body ≡ inr rbuf')
  unfolding write read_header header_of get_headers
  read_header-write req stream m body w rbuf deliver leave n =
      let h = copy_header req m.header in
      let (bytes, sent, enc, same) = send_encoded-sent (set_headers m stream h) _ w n in
      let got = deliver (record { header = set_headers m stream h; body = bytes }) w sent in
      rw (same, got, leave _ bytes)
        (
          refl,
          id_written m stream h,
          method_written m stream h,
          endpoint_written m stream h,
          error_written m stream h,
          enc,
        )
