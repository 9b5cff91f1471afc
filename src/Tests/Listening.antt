-- ===== src/Tests/Listening.antt =====
-- Listeners on a range of ports.
use gocommon.Base.{
  Option, ◌∷◌, string_eq, ◌≡◌, refl, arith, ℕ, suc, false, none, some, [], String, string_eq,
  nat_eq, ◌==◌, if◌then◌else◌, ◌⊎◌, inl, inr, lookup,
}
use gocommon.Net.{
  Formats, listen, listen_parts, listen_range, listen_single, bind, host_port, bracketed, count,
  split, split_from,
}
use gocommon.Net.{host_port_text}
use gocommon.Transport.Memory
use gocommon.Transport.Memory.{
  Listener, World, new_memory_transport, run, closes_listener, already_listening,
}
use gocommon.Transport.Memory.Taken.{listen-again}
use gocommon.Net.Ranges.{Tried, listen-Tried}

-- The formats of three ports of the host "h".
abbrev three_ports : Formats
three_ports = record {
  split_host_port = λ addr. some ("h", "20-22");
  is_ip = λ host. false;
  atoi = λ s. if s == "20" then some 20 else if s == "22" then some 22 else none;
  itoa = λ n. if n == 20 then "20" else if n == 21 then "21" else "22";
}

-- The port 20 is taken; the calls are counted.
abbrev taken : String → ℕ → (String ⊎ ℕ) × ℕ
taken addr calls = (if addr == "h:20" then inr 98 else inl addr, suc calls)

listen_run : listen three_ports taken "h:20-22" 0 ≡ (inl "h:21", 2)
unfolding listen listen_parts listen_range listen_single bind host_port bracketed count split
    split_from
listen_run = refl

listen-Tried_example : Tried three_ports taken "h" 22 20 0 (listen three_ports taken "h:20-22" 0)
unfolding count split split_from
listen-Tried_example =
    listen-Tried three_ports taken "h:20-22" "h" "20-22" "20" "22" [] 20 22 0 refl refl refl refl
      refl (omega arith)

abbrev one_host : String → Option (String × String)
one_host addr = some ("h", "80")

abbrev any_host : String → Option String
any_host host = some host

abbrev h80 : Listener
h80 = record { addr = "h:80"; conn = 0; exit = 1 }

-- The listener is closed, and its address is taken.
listen-again_example :
    (Memory.listen one_host any_host "1" "h:80" (
      run one_host any_host
        (closes_listener h80 ∷ [])
        (Memory.listen one_host any_host "0" "h:80" new_memory_transport).1)).0
    ≡ inr already_listening
unfolding Memory.resolve host_port_text bracketed count Memory.listen Memory.bind lookup
listen-again_example =
    listen-again one_host any_host "0" "h:80" "1" "h:80" "h:80" h80 new_memory_transport
      (closes_listener h80 ∷ []) refl refl refl
