-- ===== src/Client/Stream/Turns.antt =====
-- What a step of the goroutine of `call` keeps, of client/rpc_client.go with client/rpc_stream.go.
use gocommon.Base.{
  Bool-cases, some, ◌≡◌, refl, ◌∙◌, ◌⊎◌, inl, inr, Bool, true, Option, none, List, [], ◌∷◌, ◌++◌,
  String, string_eq, ◌==◌, is_some, if_both, ℕ,
}
use gocommon.Client.Codec.{
  CodecError, Message, Packet, Body, no_body, Wire, send_encoded, write, read_header, close,
}
use gocommon.Client.Stream.{
  StreamError, Stream, message_of, send, first, map_codec, recv_header, recv_body, shut_codec,
  last_stream_response_error,
}
use gocommon.Client.Stream.Calling.{
  CallError, send_failed, recv_failed, panicked, context_ended, Pc, finished, sent_answer,
  recv_answer, is_running, start_recv, take_header, Turn, sends, starts, reads, takes, reads_body,
  ends, panics,
}

module _ {E : Type 0} where
  -- The error with which the connection is given back, for what a call answers.
  abbrev pub Fits : Option (CallError E) → Option (StreamError E) → Type 0
  Fits none e = e ≡ none
  Fits (some (send_failed x)) e = e ≡ some x
  Fits (some (recv_failed x)) e = e ≡ some x
  Fits (some context_ended) e = is_some e ≡ true
  Fits (some panicked) e = Unit

  abbrev pub AtEnd : Pc E → Option (StreamError E) → Type 0
  AtEnd (finished answer) e = Fits answer e
  AtEnd _ e = Unit

  recv_answer-Fits : (e : Option (StreamError E)) → Fits (recv_answer e) e
  recv_answer-Fits none = refl
  recv_answer-Fits (some e) = refl

  first-Answered : (new old : Option (StreamError E)) → AtEnd (sent_answer new) (first new old)
  first-Answered none old = tt
  first-Answered (some e) old = refl

  first-keeps :
      (new old : Option (StreamError E)) → is_some old ≡ true → is_some (first new old) ≡ true
  first-keeps none old h = h
  first-keeps (some e) old h = refl

module _ {E V W : Type 0} (wire : Wire E V W) (release : Option (StreamError E) → W → W)
    (crash : W → W) (released : W → List (Option (StreamError E))) where
  -- Only `release` gives the connection back.
  pub record Quiet : Type 0 where
    pub send_quiet : (p : Packet) (w : W) → released (wire.send p w).1 ≡ released w
    pub recv_quiet : (w : W) → released (wire.recv w).1 ≡ released w
    pub close_quiet : (w : W) → released (wire.close_client w).1 ≡ released w
    pub crash_quiet : (w : W) → released (crash w) ≡ released w
    pub release_logs :
        (e : Option (StreamError E)) (w : W) → released (release e w) ≡ released w ++ e ∷ []

  module _ (q : Quiet) where
    send_encoded-quiet :
        (h : List (String × String)) (b : E ⊎ List ℕ) (w : W)
        → released (send_encoded wire h b w).1 ≡ released w
    unfolding send_encoded
    send_encoded-quiet h (inl e) w = refl
    send_encoded-quiet h (inr bytes) w = q.send_quiet _ w

    write-quiet :
        (req : List (String × String)) (stream : String) (m : Message) (body : Body V) (w : W)
        → released (write wire req stream m body w).1 ≡ released w
    unfolding write
    write-quiet req stream m body w = send_encoded-quiet _ _ w

    send-quiet :
        (msg : Body V) (s : Stream E) (w : W) → released (send wire release msg s w).2 ≡ released w
    unfolding send
    send-quiet msg s w =
        if_both {A = Option (StreamError E) × Stream E × W} (λ r. released r.2 ≡ released w)
          s.closed _ _ refl (write-quiet s.req_header s.stream_id _ msg w)

    pub shut_codec-quiet :
        (s : Stream E) (w : W) → released (shut_codec wire release s w).1 ≡ released w
    unfolding shut_codec close
    shut_codec-quiet s w =
        q.close_quiet _
        ∙ if_both (λ x. released x ≡ released w) s.send_eos _ _
            (write-quiet s.req_header s.stream_id (message_of s last_stream_response_error) no_body
              w)
            refl

    send-closed :
        (body : Body V) (s : Stream E) (w : W) → (send wire release body s w).1.closed ≡ s.closed
    unfolding send
    send-closed body s w =
        if_both {A = Option (StreamError E) × Stream E × W} (λ r. r.1.closed ≡ s.closed) s.closed _
          _ refl refl

    -- The answer of `Send`, with the error that it leaves.
    send-Answered :
        (body : Body V) (s : Stream E) (w : W)
        → AtEnd (sent_answer (send wire release body s w).0) (send wire release body s w).1.err
    unfolding send
    send-Answered body s w =
        if_both {A = Option (StreamError E) × Stream E × W} (λ r. AtEnd (sent_answer r.0) r.1.err)
          s.closed _ _ refl
          (first-Answered
            (map_codec (write wire s.req_header s.stream_id (message_of s "") body w).0) s.err)

    send-keeps :
        (body : Body V) (s : Stream E) (w : W)
        → is_some s.err ≡ true
        → is_some (send wire release body s w).1.err ≡ true
    unfolding send
    send-keeps body s w h =
        if_both {A = Option (StreamError E) × Stream E × W} (λ r. is_some r.1.err ≡ true) s.closed _
          _ refl (first-keeps _ s.err h)

    module _ (skipped : List ℕ → Option E) (is_frame : Bool) (msg : Body V) where
      -- A step of the goroutine gives nothing back, leaves the stream open or closed, takes no
      -- error away, and ends with an answer that fits the error.
      pub record Kept (pc : Pc E) (s : Stream E) (w : W) (pc' : Pc E) (s' : Stream E) (w' : W)
          : Type 0 where
        pub was_running : is_running pc ≡ true
        pub gives_nothing : released w' ≡ released w
        pub same_closed : s'.closed ≡ s.closed
        pub keeps_error : is_some s.err ≡ true → is_some s'.err ≡ true
        pub at_end : AtEnd pc' s'.err

      take_header-Kept :
          (e : Option (CodecError E)) (resp : Message) (rbuf : List ℕ) (s : Stream E)
          → let (pc, s') = take_header e resp rbuf s in
            (s'.closed ≡ s.closed)
            × (is_some s.err ≡ true → is_some s'.err ≡ true)
            × AtEnd pc s'.err
      unfolding take_header recv_header
      take_header-Kept (some e) resp rbuf s = (refl, (λ h. refl), refl)
      take_header-Kept none resp rbuf s = elim (Bool-cases (resp.error == "")) [
        | inl t ↦ rw t (refl, (λ h. h), tt)
        | inr f ↦ rw f (refl, (λ h. refl), tt)
      ]

      start_recv-Kept :
          (s : Stream E)
          → let (pc, s') = start_recv s in
            (s'.closed ≡ s.closed)
            × (is_some s.err ≡ true → is_some s'.err ≡ true)
            × AtEnd pc s'.err
      unfolding start_recv
      start_recv-Kept s =
          if_both {A = Pc E × Stream E}
            (λ r.
              (r.1.closed ≡ s.closed)
              × (is_some s.err ≡ true → is_some r.1.err ≡ true)
              × AtEnd r.0 r.1.err)
            s.closed _ _ (refl, (λ h. refl), refl) (refl, (λ h. h), tt)

      pub Turn-Kept :
          {pc : Pc E} {s : Stream E} {w : W} {pc' : Pc E} {s' : Stream E} {w' : W}
          → Turn wire release crash skipped is_frame msg pc s w pc' s' w'
          → Kept pc s w pc' s' w'
      unfolding recv_body
      Turn-Kept {s = s} {w = w} (sends e) = record {
        was_running = rw e refl;
        gives_nothing = send-quiet msg s w;
        same_closed = send-closed msg s w;
        keeps_error = send-keeps msg s w;
        at_end = send-Answered msg s w;
      }
      Turn-Kept {s = s} (starts e) =
          let kept = start_recv-Kept s in
          record {
            was_running = rw e refl;
            gives_nothing = refl;
            same_closed = kept.0;
            keeps_error = kept.1;
            at_end = kept.2;
          }
      Turn-Kept {s = s} {w = w} (reads e) = record {
        was_running = rw e refl;
        gives_nothing = unfold read_header in q.recv_quiet w;
        same_closed = refl;
        keeps_error = λ h. h;
        at_end = tt;
      }
      Turn-Kept {s = s} (takes x resp rbuf e) =
          let kept = take_header-Kept x resp rbuf s in
          record {
            was_running = rw e refl;
            gives_nothing = refl;
            same_closed = kept.0;
            keeps_error = kept.1;
            at_end = kept.2;
          }
      Turn-Kept (reads_body resp rbuf e) = record {
        was_running = rw e refl;
        gives_nothing = refl;
        same_closed = refl;
        keeps_error = λ h. h;
        at_end = tt;
      }
      Turn-Kept {s = s} (ends x e) = record {
        was_running = rw e refl;
        gives_nothing = refl;
        same_closed = refl;
        keeps_error = first-keeps (map_codec x) s.err;
        at_end = recv_answer-Fits (first (map_codec x) s.err);
      }
      Turn-Kept {w = w} (panics e) = record {
        was_running = e;
        gives_nothing = q.crash_quiet w;
        same_closed = refl;
        keeps_error = λ h. h;
        at_end = tt;
      }
