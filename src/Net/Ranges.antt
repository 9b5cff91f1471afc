-- ===== src/Net/Ranges.antt =====
-- Which port Listen of util/net/net.go binds.
use gocommon.Base.{
  sum-cases, ℕ, zero, suc, ◌+◌, ◌-◌, ◌≤◌, ◌<◌, ◌≡◌, arith, false, ◌&&◌, some, List, ◌∷◌, String,
  nat_eq, ◌==◌, ◌⊎◌, inl, inr,
}
use gocommon.Net.{
  ListenError, bind_error, Formats, host_port, bind, listen, listen_parts, listen_range, count,
  split,
}

module _ {L E W : Type 0} (f : Formats) (fn : String → W → (L ⊎ E) × W) (host : String)
    (max : ℕ) where
  -- The ports are tried in their order, each once, until one is bound; the error of the last one is
  -- the answer where none is.
  pub data Tried : ℕ → W → (L ⊎ ListenError E) × W → Type 0 where
    bound :
        {port : ℕ} {w : W} (ln : L)
        → port ≤ max
        → (fn (host_port f host port) w).0 ≡ inl ln
        → Tried port w (inl ln, (fn (host_port f host port) w).1)
    next :
        {port : ℕ} {w : W} (e : E) {r : (L ⊎ ListenError E) × W}
        → port < max
        → (fn (host_port f host port) w).0 ≡ inr e
        → Tried (suc port) (fn (host_port f host port) w).1 r
        → Tried port w r
    last :
        {port : ℕ} {w : W} (e : E)
        → port ≡ max
        → (fn (host_port f host port) w).0 ≡ inr e
        → Tried port w (inr (bind_error e), (fn (host_port f host port) w).1)

  bind-Tried :
      (n port : ℕ) (w : W) → port + n ≡ max → Tried port w (bind f fn host max (suc n) port w)
  unfolding bind
  bind-Tried zero port w e =
      let here : port ≡ max = omega (arith, e) in
      let same = (nat_eq.same_iff port max).1 here in
      elim (sum-cases (fn (host_port f host port) w).0) [
        | inl (ln, g) ↦ rw (g, bind) (bound ln (omega (arith, here)) g)
        | inr (err, g) ↦ rw (g, same, bind) (last err here g)
      ]
  bind-Tried (suc n) port w e =
      let rest = bind-Tried n (suc port) (fn (host_port f host port) w).1 (omega (arith, e)) in
      let other : (port == max) ≡ false = ground (arith, e) in
      elim (sum-cases (fn (host_port f host port) w).0) [
        | inl (ln, g) ↦ rw (g, bind) (bound ln (omega (arith, e)) g)
        | inr (err, g) ↦ rw (g, other, bind) (next err (omega (arith, e)) g rest)
      ]

module _ {L E W : Type 0} (f : Formats) (fn : String → W → (L ⊎ E) × W) where
  -- For an address with a range of ports, `min` to `max`, that is not empty, Listen tries the ports from
  -- `min` on in their order, each once, with the state that the last try has left. It answers with
  -- the first that is bound, and tries none after it, or with the error of `max`.
  pub listen-Tried :
      (addr host ports lo hi : String) (rest : List String) (min max : ℕ) (w : W)
      → (count b':' addr == 1 && count b'-' addr == 0) ≡ false
      → f.split_host_port addr ≡ some (host, ports)
      → split b'-' ports ≡ lo ∷ hi ∷ rest
      → f.atoi lo ≡ some min
      → f.atoi hi ≡ some max
      → min ≤ max
      → Tried f fn host max min w (listen f fn addr w)
  unfolding listen listen_parts listen_range
  listen-Tried addr host ports lo hi rest min max w single parts range low high h =
      let left : suc max - min ≡ suc (max - min) = omega (arith, h) in
      let tried = bind-Tried f fn host max (max - min) min w (omega (arith, h)) in
      rw (single, parts, range, low, high, left) tried
