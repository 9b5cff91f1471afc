-- ===== src/Client/Stream/Calling.antt =====
-- The end of `call` of client/rpc_client.go, from its stream on, as a step relation: `call`, and its
-- goroutine, which goes on after the context of the call is done. A step is what one of them does
-- between two places where the other one can act. `crash` is what a call of the codec
-- that panics has done to the world.
use gocommon.Base.{if◌then◌else◌, ◌≡◌, Bool, true, false, Option, none, some, List, ℕ}
use gocommon.Client.Codec.{Message, Body, Wire, CodecError, read_header}
use gocommon.Client.Stream.{
  StreamError, shutdown, context_done, Stream, empty_message, send, recv_header, body_error,
  recv_body, shut_codec,
}

-- The errors that `call` answers with.
pub data CallError (E : Type 0) : Type 0 where
  send_failed : (error : StreamError E) → CallError E
  recv_failed : (error : StreamError E) → CallError E
  panicked : CallError E
  context_ended : CallError E

-- Where the goroutine stands: before `Send`; before `Recv`; at the header that it reads; after
-- that, at the first lock of `Recv`; at the body; at the last lock; at its end, with what it has sent
-- to the channel.
pub data Pc (E : Type 0) : Type 0 where
  sending : Pc E
  receiving : Pc E
  reading : Pc E
  header_read : (e : Option (CodecError E)) (resp : Message) (rbuf : List ℕ) → Pc E
  at_body : (resp : Message) (rbuf : List ℕ) → Pc E
  body_read : (e : Option (CodecError E)) → Pc E
  finished : (answer : Option (CallError E)) → Pc E

-- Where `call` stands: at its select; after the end of its context; and in the deferred `Close`,
-- before it marks the stream as closed, before it closes the codec, before it gives the connection
-- back; after it has returned.
pub data Main (E : Type 0) : Type 0 where
  waiting : Main E
  ended : Main E
  closing : (answer : Option (CallError E)) → Main E
  marked : (answer : Option (CallError E)) → Main E
  shut : (answer : Option (CallError E)) → Main E
  returned : (answer : Option (CallError E)) → Main E

pub record Call (E W : Type 0) : Type 0 where
  pub main : Main E
  pub pc : Pc E
  pub stream : Stream E
  pub world : W

abbrev pub sent_answer : {E : Type 0} → Option (StreamError E) → Pc E
sent_answer none = receiving
sent_answer (some e) = finished (some (send_failed e))

abbrev pub recv_answer : {E : Type 0} → Option (StreamError E) → Option (CallError E)
recv_answer none = none
recv_answer (some e) = some (recv_failed e)

abbrev pub is_running : {E : Type 0} → Pc E → Bool
is_running (finished _) = false
is_running _ = true

module _ {E : Type 0} where
  -- `Recv` at its start.
  unfoldable pub start_recv : Stream E → Pc E × Stream E
  start_recv s =
      if s.closed
      then (finished (some (recv_failed shutdown)), record s { err = some shutdown })
      else (reading, s)

  -- `Recv` after it has read the header: it ends with the error of the stream, or reads the body.
  unfoldable pub take_header : Option (CodecError E) → Message → List ℕ → Stream E → Pc E × Stream E
  unfolding recv_header
  take_header e resp rbuf s =
      let (goes_on, s') = recv_header e resp rbuf s in
      (if goes_on then at_body resp rbuf else finished (recv_answer s'.err), s')

module _ {E V W : Type 0} (wire : Wire E V W) (release : Option (StreamError E) → W → W)
    (crash : W → W) (skipped : List ℕ → Option E) (is_frame : Bool) (msg : Body V) where
  -- A step of the goroutine.
  pub data Turn (pc : Pc E) (s : Stream E) (w : W) : Pc E → Stream E → W → Type 0 where
    sends :
        pc ≡ sending
        → Turn pc s w
            (sent_answer (send wire release msg s w).0)
            (send wire release msg s w).1
            (send wire release msg s w).2
    starts : pc ≡ receiving → Turn pc s w (start_recv s).0 (start_recv s).1 w
    reads :
        pc ≡ reading
        → Turn pc s w
            (header_read
              (read_header wire empty_message s.rbuf w).0.0
              (read_header wire empty_message s.rbuf w).0.1
              (read_header wire empty_message s.rbuf w).0.2)
            s
            (read_header wire empty_message s.rbuf w).1
    takes :
        (e : Option (CodecError E)) (resp : Message) (rbuf : List ℕ)
        → pc ≡ header_read e resp rbuf
        → Turn pc s w (take_header e resp rbuf s).0 (take_header e resp rbuf s).1 w
    reads_body :
        (resp : Message) (rbuf : List ℕ)
        → pc ≡ at_body resp rbuf
        → Turn pc s w (body_read (body_error wire release skipped is_frame resp rbuf)) s w
    ends :
        (e : Option (CodecError E))
        → pc ≡ body_read e
        → Turn pc s w (finished (recv_answer (recv_body e s).err)) (recv_body e s) w
    panics : is_running pc ≡ true → Turn pc s w (finished (some panicked)) s (crash w)

  -- A step of `call`, whose select takes what is there, or of its goroutine.
  pub data Step (c : Call E W) : Call E W → Type 0 where
    turn :
        {pc : Pc E} {s : Stream E} {w : W}
        → Turn c.pc c.stream c.world pc s w
        → Step c (record c { pc = pc; stream = s; world = w })
    answered :
        (answer : Option (CallError E))
        → c.main ≡ waiting
        → c.pc ≡ finished answer
        → Step c (record c { main = closing answer })
    done : c.main ≡ waiting → Step c (record c { main = ended })
    sets_error :
        c.main ≡ ended
        → Step c (record c {
          main = closing (some context_ended);
          stream = record c.stream { err = some context_done };
        })
    marks :
        (answer : Option (CallError E))
        → c.main ≡ closing answer
        → Step c (record c { main = marked answer; stream = record c.stream { closed = true } })
    shuts :
        (answer : Option (CallError E))
        → c.main ≡ marked answer
        → Step c
            (record c { main = shut answer; world = (shut_codec wire release c.stream c.world).1 })
    gives_back :
        (answer : Option (CallError E))
        → c.main ≡ shut answer
        → Step c (record c { main = returned answer; world = release c.stream.err c.world })

  -- The states of a call that starts with a stream and a world.
  pub data Reach (s : Stream E) (w : W) : Call E W → Type 0 where
    made : Reach s w (record { main = waiting; pc = sending; stream = s; world = w })
    later : {c d : Call E W} → Reach s w c → Step c d → Reach s w d
