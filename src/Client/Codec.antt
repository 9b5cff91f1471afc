-- ===== src/Client/Codec.antt =====
-- client/rpc_codec.go: the codec of a call. The transport and the codec inside are parameters, on a
-- world `W`; an error says which of them it comes from.
pub mod Headers
use gocommon.Base.{
  ◌≡◌, refl, ap, ◌∙◌, ◌⊎◌, inl, inr, not, Bool, true, false, Option, none, some, List, [], ◌∷◌,
  String, string_eq, ◌==◌, if◌then◌else◌, lookup, insert, lookup-insert, Bool-cases, ℕ,
}
use gocommon.Client.Header.{text_at}

-- `codec.Message`, less its type; a nil header is an empty one where it is only read.
pub record Message : Type 0 where
  pub id : String
  pub target : String
  pub method : String
  pub endpoint : String
  pub error : String
  pub header : List (String × String)
  pub body : List ℕ

-- `transport.Message`
pub record Packet : Type 0 where
  pub header : List (String × String)
  pub body : List ℕ

-- The body that `Write` is given: none, raw bytes, or a value that the codec encodes.
pub data Body (V : Type 0) : Type 0 where
  no_body : Body V
  frame : List ℕ → Body V
  value : V → Body V

pub data CodecError (E : Type 0) : Type 0 where
  codec_failed : E → CodecError E
  transport_failed : E → CodecError E

-- `set` of `setHeaders`, and of `getHeaders`.
unfoldable pub set_header : String → String → List (String × String) → List (String × String)
unfolding insert
set_header hdr v m = if v == "" then m else insert hdr v m

unfoldable pub get_header : String → String → List (String × String) → String
get_header v hdr m = if v == "" then text_at hdr m else v

unfoldable pub set_headers : Message → String → List (String × String) → List (String × String)
unfolding set_header
set_headers m stream h =
    let h' = set_header "Micro-Error" m.error (
      set_header "Micro-Endpoint" m.endpoint (
        set_header "Micro-Method" m.method
          (set_header "Micro-Service" m.target (set_header "Micro-Id" m.id h)))) in
    set_header "Micro-Stream" stream h'

unfoldable pub get_headers : Message → Message
unfolding get_header
get_headers m = record m {
  error = get_header m.error "Micro-Error" m.header;
  endpoint = get_header m.endpoint "Micro-Endpoint" m.header;
  method = get_header m.method "Micro-Method" m.header;
  id = get_header m.id "Micro-Id" m.header;
}

-- The loop that copies the header of the request.
unfoldable pub copy_header :
    List (String × String) → List (String × String) → List (String × String)
unfolding insert
copy_header [] h = h
copy_header ((k, v) ∷ m) h = copy_header m (insert k v h)

-- What the codec calls of its transport and of the codec inside.
pub record Wire (E V W : Type 0) : Type 0 where
  pub send : Packet → W → Option E × W
  pub recv : W → (E ⊎ Packet) × W
  pub close_client : W → Option E × W
  pub encode : Message → V → E ⊎ List ℕ
  pub read_header : Message → List ℕ → Option E × Message
  pub decode : List ℕ → Option E × V

module _ {E V W : Type 0} (wire : Wire E V W) where
  abbrev pub from_transport : Option E → Option (CodecError E)
  from_transport none = none
  from_transport (some e) = some (transport_failed e)

  abbrev pub from_codec : Option E → Option (CodecError E)
  from_codec none = none
  from_codec (some e) = some (codec_failed e)

  -- The end of `Write`, with the encoded body.
  unfoldable pub send_encoded : List (String × String) → E ⊎ List ℕ → W → Option (CodecError E) × W
  send_encoded h (inl e) w = (some (codec_failed e), w)
  send_encoded h (inr bytes) w =
      let (e, w') = wire.send (record { header = h; body = bytes }) w in (from_transport e, w')

  unfoldable pub encoded : Message → Body V → E ⊎ List ℕ
  encoded m no_body = inr m.body
  encoded m (frame bytes) = inr bytes
  encoded m (value v) = wire.encode m v

  -- `Write`, of a codec for the header of a request and a stream.
  unfoldable pub write :
      List (String × String) → String → Message → Body V → W → Option (CodecError E) × W
  unfolding set_headers copy_header send_encoded encoded
  write req stream m body w =
      let h = set_headers m stream (copy_header req m.header) in
      send_encoded h (encoded (record m { header = h }) body) w

  -- `ReadHeader` of what is received: the error, the message and the buffer, which is that of the
  -- last message where none is received.
  unfoldable pub header_of :
      Message → List ℕ → E ⊎ Packet → Option (CodecError E) × Message × List ℕ
  unfolding get_headers
  header_of m rbuf (inl e) = (some (transport_failed e), m, rbuf)
  header_of m rbuf (inr p) =
      let (e, m') = wire.read_header (record m { header = p.header }) p.body in
      (from_codec e, get_headers m', p.body)

  unfoldable pub read_header : Message → List ℕ → W → (Option (CodecError E) × Message × List ℕ) × W
  unfolding header_of
  read_header m rbuf w = let (got, w') = wire.recv w in (header_of m rbuf got, w')

  -- `ReadBody`, into a frame or by the codec.
  unfoldable pub read_body : Bool → List ℕ → Option (CodecError E) × Body V
  read_body is_frame rbuf =
      if is_frame
      then (none, frame rbuf)
      else (let (e, v) = wire.decode rbuf in (from_codec e, value v))

  -- `Close`
  unfoldable pub close : W → Option (CodecError E) × W
  close w = let (e, w') = wire.close_client w in (from_transport e, w')
