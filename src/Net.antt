-- ===== src/Net.antt =====
-- util/net/net.go, less its proxy: the addresses of listeners, and the choice of a port in a range. The
-- functions that bind, and those of net and strconv, are parameters.
pub mod Ranges
use Prim.Native.Char.{code}
use Prim.Native.String
use gocommon.Base.{
  ℕ, zero, suc, ◌+◌, ◌-◌, Bool, true, false, ◌&&◌, not, Option, none, some, List, [], ◌∷◌, String,
  nat_eq, string_eq, ◌==◌, if◌then◌else◌, ltb, length, ◌⊎◌, inl, inr,
}

-- `strings.Count` of a separator of one byte.
unfoldable pub count : ℕ → String → ℕ
count sep String.[] = 0
count sep (String.◌∷◌ c s) = let rest = count sep s in if code c == sep then suc rest else rest

-- `strings.Split` at a separator of one byte; the first part is given apart.
unfoldable pub split_from : ℕ → String → String × List String
split_from sep String.[] = ("", [])
split_from sep (String.◌∷◌ c s) =
    let (first, rest) = split_from sep s in
    if code c == sep then ("", first ∷ rest) else (String.◌∷◌ c first, rest)

unfoldable pub split : ℕ → String → List String
unfolding split_from
split sep s = let (first, rest) = split_from sep s in first ∷ rest

pub data ListenError (E : Type 0) : Type 0 where
  bad_address : ListenError E
  bad_range : ListenError E
  unable_to_bind : ListenError E
  bind_error : (error : E) → ListenError E

-- What `net.SplitHostPort`, `net.ParseIP`, `strconv.Atoi` and the format of a number answer. A part
-- of a range has no minus sign, so its number is natural.
pub record Formats : Type 0 where
  pub split_host_port : String → Option (String × String)
  pub is_ip : String → Bool
  pub atoi : String → Option ℕ
  pub itoa : ℕ → String

-- The host of an address, in brackets where it has a colon.
unfoldable pub bracketed : String → String
unfolding count
bracketed addr = if ltb 0 (count b':' addr) then String.◌++◌ "[" (String.◌++◌ addr "]") else addr

-- `HostPort` of a port that is a string, and of one that is an int.
unfoldable pub host_port_text : String → String → String
unfolding bracketed
host_port_text addr port =
    if port == "" then bracketed addr else String.◌++◌ (bracketed addr) (String.◌++◌ ":" port)

unfoldable pub host_port : Formats → String → ℕ → String
unfolding bracketed
host_port f addr port =
    let host = bracketed addr in
    if port == 0 && not (f.is_ip host)
    then host
    else String.◌++◌ host (String.◌++◌ ":" (f.itoa port))

module _ {L E W : Type 0} (f : Formats) (fn : String → W → (L ⊎ E) × W) where
  -- The loop of `Listen` from a port on, with the number of ports that are left.
  unfoldable pub bind : String → ℕ → ℕ → ℕ → W → (L ⊎ ListenError E) × W
  unfolding host_port
  bind host max zero port w = (inr unable_to_bind, w)
  bind host max (suc n) port w =
      let (answer, w') = fn (host_port f host port) w in
      elim answer [
        | inl ln ↦ (inl ln, w')
        | inr e ↦ if port == max then (inr (bind_error e), w') else bind host max n (suc port) w'
      ]

  -- A call of `fn` for the address itself.
  unfoldable pub listen_single : String → W → (L ⊎ ListenError E) × W
  listen_single addr w =
      let (answer, w') = fn addr w in
      (elim answer [ inl ln ↦ inl ln | inr e ↦ inr (bind_error e) ], w')

  unfoldable pub listen_range : String → Option ℕ → Option ℕ → W → (L ⊎ ListenError E) × W
  unfolding bind
  listen_range host (some min) (some max) w = bind host max (suc max - min) min w
  listen_range host _ _ w = (inr bad_range, w)

  -- `Listen`, from the parts of its range on.
  unfoldable pub listen_parts : String → String → List String → W → (L ⊎ ListenError E) × W
  unfolding listen_range listen_single
  listen_parts addr host (lo ∷ hi ∷ rest) w = listen_range host (f.atoi lo) (f.atoi hi) w
  listen_parts addr host _ w = listen_single addr w

  unfoldable pub listen : String → W → (L ⊎ ListenError E) × W
  unfolding listen_parts listen_single count split
  listen addr w =
      if count b':' addr == 1 && count b'-' addr == 0
      then listen_single addr w
      else elim (f.split_host_port addr) [
        | none ↦ (inr bad_address, w)
        | some (host, ports) ↦ listen_parts addr host (split b'-' ports) w
      ]
