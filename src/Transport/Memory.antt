-- ===== src/Transport/Memory.antt =====
-- transport/memory.go: the transport within one process. A channel is a number, and the state has
-- those that are closed; what a select with two ready cases takes is an argument.
pub mod Taken
use gocommon.Base.{
  ℕ, suc, ◌+◌, Bool, true, false, ◌&&◌, ◌||◌, any, Option, none, some, is_some, List, [], ◌∷◌,
  String, string_eq, nat_eq, ◌==◌, if◌then◌else◌, lookup, insert, ◌⊎◌, inl, inr, not,
}
use gocommon.Net.{host_port_text}

-- `memorySocket`, less its timeout and context.
pub record Socket : Type 0 where
  pub recv : ℕ
  pub send : ℕ
  pub exit : ℕ
  pub lexit : ℕ
  pub local : String
  pub remote : String

-- `memoryListener`
pub record Listener : Type 0 where
  pub addr : String
  pub exit : ℕ
  pub conn : ℕ

-- `memoryTransport`, with the channels: `next` is the one that is made next.
pub record World : Type 0 where
  pub listeners : List (String × Listener)
  pub next : ℕ
  pub closed : List ℕ

pub data MemoryError : Type 0 where
  could_not_dial : MemoryError
  connection_error : MemoryError
  bad_address : MemoryError
  no_address : MemoryError
  already_listening : MemoryError
  connection_closed : MemoryError
  server_connection_closed : MemoryError
  context_done : MemoryError

abbrev pub new_memory_transport : World
new_memory_transport = record { listeners = []; next = 0; closed = [] }

abbrev pub is_closed : ℕ → World → Bool
is_closed c w = any (λ d. c == d) w.closed

-- The close of a channel, unless it is closed.
unfoldable pub close_channel : ℕ → World → World
close_channel c w = if is_closed c w then w else record w { closed = c ∷ w.closed }

-- `Close` of a socket, and of a listener.
unfoldable pub close_socket : Socket → World → World
unfolding close_channel
close_socket s w = close_channel s.exit w

unfoldable pub close_listener : Listener → World → World
unfolding close_channel
close_listener l w = close_channel l.exit w

-- The socket that `Accept` hands out for one that was dialed.
unfoldable pub accept : Socket → Socket
accept c = record {
  recv = c.send;
  send = c.recv;
  exit = c.exit;
  lexit = c.lexit;
  local = c.remote;
  remote = c.local;
}

-- `Dial`. `accepting` tells whether `Accept` waits, `takes_exit` whether the select takes the closed
-- channel where both cases are ready; none where the call waits.
unfoldable pub dial : Bool → Bool → String → World → Option (Socket ⊎ MemoryError) × World
dial accepting takes_exit addr w = elim (lookup addr w.listeners) [
  | none ↦ (some (inr could_not_dial), w)
  | some l ↦
      let made = record w { next = w.next + 3 } in
      let client : Socket = record {
        send = w.next;
        recv = w.next + 1;
        exit = w.next + 2;
        lexit = l.exit;
        local = addr;
        remote = addr;
      } in
      let ended = is_closed l.exit w in
      if ended && (not accepting || takes_exit)
      then (some (inr connection_error), made)
      else if accepting
      then (some (inl client), made)
      else (none, made)
]

-- `Listen` of an address that is resolved.
unfoldable pub bind : String → World → (Listener ⊎ MemoryError) × World
bind addr w =
    let l : Listener = record { addr = addr; conn = w.next; exit = w.next + 1 } in
    if is_some (lookup addr w.listeners)
    then (inr already_listening, w)
    else (inl l, record w { listeners = insert addr l w.listeners; next = w.next + 2 })

-- The calls of the transport, of its listeners and of its sockets.
pub data Op : Type 0 where
  listens : (random_port addr : String) → Op
  dials : (accepting takes_exit : Bool) (addr : String) → Op
  closes_listener : (l : Listener) → Op
  closes_socket : (s : Socket) → Op

-- `split_host_port` is that of net, `extract` that of util/addr, and `port` the random one.
module _ (split_host_port : String → Option (String × String))
    (extract : String → Option String) where
  -- The address that `Listen` binds.
  unfoldable pub resolve : String → String → MemoryError ⊎ String
  unfolding host_port_text
  resolve random_port addr = elim (split_host_port addr) [
    | none ↦ inl bad_address
    | some (host, port) ↦ elim (extract host) [
      | none ↦ inl no_address
      | some found ↦ inr (host_port_text found (if port == "0" then random_port else port))
    ]
  ]

  -- `Listen`
  unfoldable pub listen : String → String → World → (Listener ⊎ MemoryError) × World
  unfolding resolve bind
  listen random_port addr w = elim (resolve random_port addr) [
    | inl e ↦ (inr e, w)
    | inr found ↦ bind found w
  ]

  unfoldable pub run : List Op → World → World
  unfolding listen dial close_listener close_socket
  run [] w = w
  run (listens p addr ∷ ops) w = run ops (listen p addr w).1
  run (dials a t addr ∷ ops) w = run ops (dial a t addr w).1
  run (closes_listener l ∷ ops) w = run ops (close_listener l w)
  run (closes_socket s ∷ ops) w = run ops (close_socket s w)
