-- ===== src/Client/Stream.antt =====
-- client/rpc_stream.go, over the codec of rpc_codec.go. An error of the codec is a new value, so none
-- is `io.EOF`. `release` gives the connection back.
pub mod Calling
pub mod Turns
pub mod Released
use gocommon.Base.{
  ◌≡◌, refl, ◌⊎◌, Bool, true, false, Option, none, some, List, [], ◌∷◌, String, string_eq, ◌==◌,
  if◌then◌else◌, is_some, ℕ,
}
use gocommon.Client.Codec.{
  Message, Body, no_body, Wire, CodecError, codec_failed, write, read_header, read_body, close,
}

pub data StreamError (E : Type 0) : Type 0 where
  shutdown : StreamError E
  eof : StreamError E
  server_error : String → StreamError E
  codec_error : CodecError E → StreamError E
  context_done : StreamError E

-- `rpcStream`, with the request's header and the buffer of its codec.
pub record Stream (E : Type 0) : Type 0 where
  pub id : String
  pub target : String
  pub method : String
  pub endpoint : String
  pub req_header : List (String × String)
  pub stream_id : String
  pub rbuf : List ℕ
  pub closed : Bool
  pub err : Option (StreamError E)
  pub send_eos : Bool

abbrev pub last_stream_response_error : String
last_stream_response_error = "EOS"

abbrev pub empty_message : Message
empty_message = record {
  id = "";
  target = "";
  method = "";
  endpoint = "";
  error = "";
  header = [];
  body = [];
}

-- The message of a stream.
unfoldable pub message_of : {E : Type 0} → Stream E → String → Message
message_of s error = record {
  id = s.id;
  target = s.target;
  method = s.method;
  endpoint = s.endpoint;
  error = error;
  header = [];
  body = [];
}

abbrev pub map_codec : {E : Type 0} → Option (CodecError E) → Option (StreamError E)
map_codec none = none
map_codec (some e) = some (codec_error e)

-- A new error takes the place of the one that is kept.
abbrev pub first : {A : Type 0} → Option A → Option A → Option A
first none old = old
first (some e) old = some e

module _ {E : Type 0} where
  -- The error that a response sets.
  abbrev pub response_error : String → Option (StreamError E)
  response_error error =
      some (if error == last_stream_response_error then eof else server_error error)

  -- `Recv` at its first lock.
  unfoldable pub recv_header : Option (CodecError E) → Message → List ℕ → Stream E → Bool × Stream E
  recv_header (some e) resp rbuf s = (false, record s { rbuf = rbuf; err = some (codec_error e) })
  recv_header none resp rbuf s = (
    true,
    if resp.error == ""
        then record s { rbuf = rbuf }
        else record s { rbuf = rbuf; err = response_error resp.error },
  )

  -- `Recv` at its last lock.
  unfoldable pub recv_body : Option (CodecError E) → Stream E → Stream E
  recv_body e s = record s { err = first (map_codec e) s.err }

module _ {E V W : Type 0} (wire : Wire E V W) (release : Option (StreamError E) → W → W) where
  -- `Send`
  unfoldable pub send : Body V → Stream E → W → Option (StreamError E) × Stream E × W
  unfolding write message_of
  send msg s w =
      if s.closed
      then (some shutdown, record s { err = some shutdown }, w)
      else (let (e, w') = write wire s.req_header s.stream_id (message_of s "") msg w in
          (map_codec e, record s { err = first (map_codec e) s.err }, w'))

  -- What the codec answers to the body. That of an error is thrown away, which `skipped` answers.
  unfoldable pub body_error : (List ℕ → Option E) → Bool → Message → List ℕ → Option (CodecError E)
  unfolding read_body
  body_error skipped is_frame resp rbuf =
      if resp.error == ""
      then (read_body wire is_frame rbuf).0
      else elim (skipped rbuf) [ none ↦ none | some e ↦ some (codec_failed e) ]

  -- `Recv` with nothing in between: it answers with the error of the stream.
  unfoldable pub recv :
      (List ℕ → Option E) → Bool → Stream E → W → Option (StreamError E) × Stream E × W
  unfolding recv_header body_error recv_body read_header
  recv skipped is_frame s w =
      if s.closed
      then (some shutdown, record s { err = some shutdown }, w)
      else (let ((e, resp, rbuf), w') = read_header wire empty_message s.rbuf w in
          let (goes_on, s') = recv_header e resp rbuf s in
          let s'' = if goes_on then recv_body (body_error skipped is_frame resp rbuf) s' else s' in
          (s''.err, s'', w'))

  -- `Close`, up to the release of the connection, and whole.
  unfoldable pub shut_codec : Stream E → W → Option (CodecError E) × W
  unfolding write message_of close
  shut_codec s w =
      let eos : W =
        (write wire s.req_header s.stream_id (message_of s last_stream_response_error) no_body
          w).1 in
      close wire (if s.send_eos then eos else w)

  unfoldable pub close_stream : Stream E → W → Option (CodecError E) × Stream E × W
  unfolding shut_codec
  close_stream s w =
      if s.closed
      then (none, s, w)
      else (let (e, w') = shut_codec s w in (e, record s { closed = true }, release s.err w'))
