-- ===== src/Tests/Messages.antt =====
-- Tests of the codec and the stream of a call, and their theorems at concrete inputs. The world is
-- the packets that were sent and what was given back.
use gocommon.Base.{
  ◌≡◌, refl, inl, inr, true, false, Option, none, some, List, [], ◌∷◌, ◌++◌, String, ℕ, lookup,
}
use gocommon.Client.Codec.{
  Message, Packet, value, Wire, set_headers, get_header, copy_header, encoded, write, read_header,
}
use gocommon.Client.Codec.Headers.{read_header-write}
use gocommon.Client.Stream.{
  StreamError, shutdown, server_error, Stream, empty_message, send, recv, shut_codec,
}
use gocommon.Client.Stream.Calling.{
  Call, returned, finished, recv_failed, context_ended, start_recv, Reach, made, later, turn, sends,
  starts, done, sets_error, marks, shuts, gives_back,
}
use gocommon.Client.Stream.Turns.{Quiet}
use gocommon.Client.Stream.Released.{Standing, call-Standing}

abbrev Given : Type 0
Given = List Packet × List (Option (StreamError String))

-- The first packet that was sent is the next one that is received.
abbrev wire : Wire String (List ℕ) Given
wire = record {
  send = λ p w. (none, (p ∷ w.0, w.1));
  recv = λ w. (elim w.0 [ [] ↦ inl "closed" | p ∷ ps ↦ inr p ], w);
  close_client = λ w. (none, w);
  encode = λ m v. inr v;
  read_header = λ m bytes. (none, m);
  decode = λ bytes. (none, bytes);
}

abbrev release : Option (StreamError String) → Given → Given
release e w = (w.0, w.1 ++ e ∷ [])

abbrev message : Message
message = record {
  id = "1";
  target = "svc";
  method = "";
  endpoint = "/call";
  error = "";
  header = [];
  body = [];
}

abbrev req : List (String × String)
req = ("Micro-Method", "GET") ∷ []

read_header-write_example :
    let h = copy_header req [] in
    let ((e, m', rbuf'), w') =
      read_header wire empty_message [] (write wire req "" message (value (7 ∷ [])) ([], [])).1 in
    (e ≡ none)
    × (m'.id ≡ get_header "1" "Micro-Id" h)
    × (m'.method ≡ get_header "" "Micro-Method" h)
    × (m'.endpoint ≡ get_header "/call" "Micro-Endpoint" h)
    × (m'.error ≡ get_header "" "Micro-Error" h)
    × (encoded wire (record message { header = set_headers message "" h }) (value (7 ∷ []))
        ≡ inr rbuf')
unfolding write
read_header-write_example =
    read_header-write wire req "" message (value (7 ∷ [])) ([], []) [] (λ p w e. refl) (λ m b. refl)
      refl

abbrev stream : Stream String
stream = record {
  id = "1";
  target = "svc";
  method = "GET";
  endpoint = "/call";
  req_header = req;
  stream_id = "";
  rbuf = [];
  closed = false;
  err = none;
  send_eos = false;
}

-- After an error, a message that is read well still answers with the error.
error_stays :
    (recv wire release
      (λ b. none)
      false
      (record stream { err = some (server_error "late") })
      (record { header = []; body = 1 ∷ [] } ∷ [], [])).0
    ≡ some (server_error "late")
unfolding recv lookup
error_stays = refl

quiet : Quiet wire release (λ w. w) (λ w. w.1)
quiet = record {
  send_quiet = λ p w. refl;
  recv_quiet = λ w. refl;
  close_quiet = λ w. refl;
  crash_quiet = λ w. refl;
  release_logs = λ e w. refl;
}

-- The context has ended before `Recv` starts, which finds the stream closed: the connection is given
-- back with the error of `Recv`, and `call` answers with that of the context.
abbrev overtaken : Call String Given
overtaken = record {
  main = returned (some context_ended);
  pc = finished (some (recv_failed shutdown));
  stream = record stream { closed = true; err = some shutdown };
  world = (((send wire release (value (7 ∷ [])) stream ([], [])).2).0, some shutdown ∷ []);
}

overtaken-Reach :
    Reach wire release (λ w. w) (λ b. none) false (value (7 ∷ [])) stream ([], []) overtaken
unfolding send write start_recv shut_codec
overtaken-Reach =
    later
      (later
        (later
          (later (later (later (later made (turn (sends refl))) (done refl)) (sets_error refl))
            (marks _ refl))
          (turn (starts refl)))
        (shuts _ refl))
      (gives_back _ refl)

call-Standing_example : Standing [] overtaken.main overtaken.pc overtaken.stream overtaken.world.1
call-Standing_example =
    call-Standing wire release (λ w. w) (λ w. w.1) quiet (λ b. none) false (value (7 ∷ [])) stream
      ([], []) refl overtaken-Reach
