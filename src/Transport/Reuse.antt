-- ===== src/Transport/Reuse.antt =====
-- Which connections transport/pool/default.go reuses, keeps and closes.
use gocommon.Base.{
  ℕ, zero, suc, ◌≤◌, ◌≡◌, refl, ap, sym, subst, ◌==◌, if◌then◌else◌, ◌∙◌, Bool, true, false, Option,
  none, some, List, [], ◌∷◌, ◌++◌, String, string_eq, arith, ltb, leb_ℤ, pos, length, get_elem?,
  get_elem?_of_lt, take, insert, lookup-insert_self, lookup-insert, length-append, All, Bool-cases,
  inl, inr, append_assoc,
}
use gocommon.Transport.{PoolConn, ConnPool, conns_of, is_old, take_conn, get, release}

-- The connections closed, the last one first, as they stood in the list.
abbrev pub back : List PoolConn → List PoolConn
back [] = []
back (c ∷ cs) = back cs ++ c ∷ []

-- What the loop returns, leaves and closes: where it returns no connection it leaves none either,
-- and all of them are old; else it has closed the old ones that stood behind the one that it returns.
abbrev pub Split : ℕ → ℕ → List PoolConn → Option PoolConn × List PoolConn × List PoolConn → Type 0
Split now ttl conns (none, left, closed) =
    (left ≡ []) × (back closed ≡ conns) × All (λ (c : PoolConn). is_old now ttl c ≡ true) closed
Split now ttl conns (some found, left, closed) =
    (left ++ found ∷ back closed ≡ conns)
    × (is_old now ttl found ≡ false)
    × All (λ (c : PoolConn). is_old now ttl c ≡ true) closed

-- One more connection that is old, behind those that are split.
Split-snoc :
    (now ttl : ℕ) (conns : List PoolConn) (found : Option PoolConn) (left closed : List PoolConn)
    (c : PoolConn)
    → is_old now ttl c ≡ true
    → Split now ttl conns (found, left, closed)
    → Split now ttl (conns ++ c ∷ []) (found, left, c ∷ closed)
Split-snoc now ttl conns none left closed c t (n, whole, old) =
    (n, ap (λ l. l ++ c ∷ []) whole, (t, old))
Split-snoc now ttl conns (some f) left closed c t (whole, fresh, old) = (
  sym (append_assoc left (f ∷ back closed) (c ∷ [])) ∙ ap (λ l. l ++ c ∷ []) whole,
  fresh,
  (t, old),
)

take-snoc :
    {A : Type 0} (n : ℕ) (xs : List A) (x : A)
    → get_elem? xs n ≡ some x
    → take n xs ++ x ∷ [] ≡ take (suc n) xs
take-snoc n [] x e = absurd (ground arith)
take-snoc zero (y ∷ xs) x e = ground (arith, e)
take-snoc (suc n) (y ∷ xs) x e = ap (λ l. y ∷ l) (take-snoc n xs x e)

take_conn-Split :
    (now ttl : ℕ) (conns : List PoolConn) (n : ℕ)
    → n ≤ length conns
    → Split now ttl (take n conns) (take_conn now ttl conns n)
unfolding take_conn
take_conn-Split now ttl conns zero h = (refl, refl, _)
take_conn-Split now ttl conns (suc n) h =
    let split = take_conn-Split now ttl conns n (omega arith) in
    let (found, left, closed) = take_conn now ttl conns n in
    let (c, e) = get_elem?_of_lt conns n (omega arith) in
    elim (Bool-cases (is_old now ttl c)) [
      | inl t ↦
          let more = Split-snoc now ttl (take n conns) found left closed c t split in
          rw (e, t, take_conn)
            (subst (λ l. Split now ttl l (found, left, c ∷ closed)) (take-snoc n conns c e) more)
      | inr f ↦ rw (e, f, take_conn) (take-snoc n conns c e, f, _)
    ]

take-all : {A : Type 0} (xs : List A) → take (length xs) xs ≡ xs
take-all [] = refl
take-all (x ∷ xs) = ap (λ l. x ∷ l) (take-all xs)

none_in : {A : Type 0} (xs : List A) → ltb 0 (length xs) ≡ false → xs ≡ []
none_in [] h = refl
none_in (x ∷ xs) h = absurd (ground arith)

conns_of-insert :
    (addr : String) (cs : List PoolConn) (p : ConnPool)
    → conns_of addr (record p { conns = insert addr cs p.conns }) ≡ cs
unfolding conns_of
conns_of-insert addr cs p = rw (lookup-insert_self addr cs p.conns, conns_of)

conns_of-get :
    (now : ℕ) (addr : String) (p : ConnPool)
    → conns_of addr (get now addr p).2
      ≡ (take_conn now p.ttl (conns_of addr p) (length (conns_of addr p))).1
unfolding get
conns_of-get now addr p =
    let cs = conns_of addr p in
    elim (Bool-cases (ltb 0 (length cs))) [
      | inl t ↦ rw (t, get) (conns_of-insert addr (take_conn now p.ttl cs (length cs)).1 p)
      | inr f ↦ rw (f, get) (rw (none_in cs f, take_conn) refl)
    ]

-- `get` looks at the connections of the address from the last one on: it closes those that are too
-- old, returns the first that is not, and leaves those before it. Where all are too old it closes all
-- of them and returns none.
pub get-Split :
    (now : ℕ) (addr : String) (p : ConnPool)
    → let (found, closed, p') = get now addr p in
      Split now p.ttl (conns_of addr p) (found, conns_of addr p', closed)
unfolding get
get-Split now addr p =
    let cs = conns_of addr p in
    let (found, left, closed) = take_conn now p.ttl cs (length cs) in
    subst (λ l. Split now p.ttl cs (found, l, closed)) (sym (conns_of-get now addr p))
      (subst (λ l. Split now p.ttl l (found, left, closed)) (take-all cs)
        (take_conn-Split now p.ttl cs (length cs) (omega arith)))

-- No address has more connections than the size.
abbrev pub IsBounded : ConnPool → Type 0
IsBounded p = (addr : String) → leb_ℤ (pos (length (conns_of addr p))) p.size ≡ true

conns_of-insert_any :
    (addr other : String) (cs : List PoolConn) (p : ConnPool)
    → conns_of addr (record p { conns = insert other cs p.conns })
      ≡ (if addr == other then cs else conns_of addr p)
unfolding conns_of
conns_of-insert_any addr other cs p = elim (Bool-cases (addr == other)) [
  | inl t ↦ rw (lookup-insert other addr cs p.conns, t, conns_of)
  | inr f ↦ rw (lookup-insert other addr cs p.conns, f, conns_of)
]

stored-bounded :
    (c : PoolConn) (p : ConnPool) (addr : String)
    → IsBounded p
    → leb_ℤ p.size (pos (length (conns_of c.remote p))) ≡ false
    → leb_ℤ
        (pos (
          length (
            conns_of addr
              (record p { conns = insert c.remote (conns_of c.remote p ++ c ∷ []) p.conns }))))
        p.size
      ≡ true
stored-bounded c p addr b g =
    let cs = conns_of c.remote p in
    ground (
      arith,
      conns_of-insert_any addr c.remote (cs ++ c ∷ []) p,
      b addr,
      g,
      length-append cs (c ∷ []),
    )

-- `release` keeps an address from having more connections than the size.
pub release-IsBounded :
    (failed : Bool) (c : PoolConn) (p : ConnPool) → IsBounded p → IsBounded (release failed c p).1
unfolding release
release-IsBounded failed c p b addr = elim (Bool-cases failed) [
  | inl t ↦ rw (t, release) (b addr)
  | inr f ↦ elim (Bool-cases (leb_ℤ p.size (pos (length (conns_of c.remote p))))) [
    | inl t ↦ rw (f, t, release) (b addr)
    | inr g ↦ rw (f, g, release) (stored-bounded c p addr b g)
  ]
]
