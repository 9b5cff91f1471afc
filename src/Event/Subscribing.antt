-- ===== src/Event/Subscribing.antt =====
-- `AddSubscriber` of event/manager.go keeps one address for all items of a subscriber: the items that
-- are called afterwards.
use gocommon.Base.{
  same_comm, ℕ, zero, suc, ◌+◌, ◌≡◌, refl, ap, sym, ◌∙◌, Bool, false, not, ◌&&◌, none, some, List,
  [], ◌∷◌, ◌++◌, String, string_eq, nat_eq, ◌==◌, if◌then◌else◌, arith, inl, inr, Option-cases,
  Bool-cases, length, set, replicate, insert, lookup-insert, append-nil, append_assoc,
}
use gocommon.Event.{
  ListenerItem, Manager, wildcard, good_name, queue_of, allocate, add_listener_item, subscribe_loop,
  add_subscriber,
}

-- The name under which an item is registered.
abbrev pub stored_name : (String → String) → String → String
stored_name trim name = if name == wildcard then name else good_name trim name

set-end : {A : Type 0} (xs : List A) (x y : A) → set (xs ++ x ∷ []) (length xs) y ≡ xs ++ y ∷ []
set-end [] x y = refl
set-end (z ∷ xs) x y = ap (λ l. z ∷ l) (set-end xs x y)

replicate-add : (m n a : ℕ) → replicate m a ++ replicate n a ≡ replicate (m + n) a
replicate-add zero n a = ap (λ i. replicate i a) (omega arith)
replicate-add (suc m) n a =
    ap (λ l. a ∷ l) (replicate-add m n a) ∙ ap (λ i. replicate i a) {x = suc (m + n)} (omega arith)

module _ {V E : Type 0} (trim : String → String) where
  -- Whether an item with this key and listener is registered under the name `k`.
  abbrev pub registers : String → String → ListenerItem V E → Bool
  registers k name item = elim item.listener [
    | none ↦ false
    | some _ ↦ not (stored_name trim name == "") && stored_name trim name == k
  ]

  abbrev pub count : String → List (ListenerItem V E) → ℕ
  count k [] = 0
  count k (item ∷ items) = (if registers k item.key item then 1 else 0) + count k items

  -- The last item, or the one before all of them.
  abbrev pub final : ListenerItem V E → List (ListenerItem V E) → ListenerItem V E
  final d [] = d
  final d (item ∷ items) = final item items

  queue_of-insert :
      (k name : String) (lq : List ℕ) (em : Manager V E)
      → queue_of k (record em { listeners = insert name lq em.listeners })
        ≡ (if k == name then lq else queue_of k em)
  unfolding queue_of
  queue_of-insert k name lq em = elim (Bool-cases (k == name)) [
    | inl t ↦ rw (lookup-insert name k lq em.listeners, t, queue_of)
    | inr f ↦ rw (lookup-insert name k lq em.listeners, f, queue_of)
  ]

  queue_of-push :
      (k name : String) (a : ℕ) (em : Manager V E)
      → queue_of k (record em { listeners = insert name (queue_of name em ++ a ∷ []) em.listeners })
        ≡ queue_of k em ++ replicate (if name == k then 1 else 0) a
  queue_of-push k name a em =
      queue_of-insert k name (queue_of name em ++ a ∷ []) em ∙ elim (Bool-cases (name == k)) [
        | inl t ↦
            rw (t, (string_eq.same_iff k name).1 (sym ((string_eq.same_iff name k).0 t)))
              (ap (λ n. queue_of n em ++ a ∷ []) ((string_eq.same_iff name k).0 t))
        | inr f ↦ rw (f, same_comm k name ∙ f) (sym (append-nil (queue_of k em)))
      ]

  pub queue_of-add_listener_item :
      (k name : String) (a : ℕ) (item : ListenerItem V E) (em : Manager V E)
      → queue_of k (add_listener_item trim name a item em)
        ≡ queue_of k em ++ replicate (if registers k name item then 1 else 0) a
  unfolding add_listener_item
  queue_of-add_listener_item k name a item em = elim (Option-cases item.listener) [
    | inl n ↦ rw (n, add_listener_item) (sym (append-nil (queue_of k em)))
    | inr (l, n) ↦ elim (Bool-cases (stored_name trim name == "")) [
      | inl t ↦ rw (n, t, add_listener_item) (sym (append-nil (queue_of k em)))
      | inr f ↦ rw (n, f, add_listener_item) (queue_of-push k (stored_name trim name) a em)
    ]
  ]

  cells-add_listener_item :
      (name : String) (a : ℕ) (item : ListenerItem V E) (em : Manager V E)
      → (add_listener_item trim name a item em).cells ≡ em.cells
  unfolding add_listener_item
  cells-add_listener_item name a item em = ground arith

  subscribe_loop-cells :
      (items : List (ListenerItem V E)) (base : List (ListenerItem V E)) (c : ListenerItem V E)
      (em : Manager V E)
      → em.cells ≡ base ++ c ∷ []
      → (subscribe_loop trim (length base) items em).cells ≡ base ++ final c items ∷ []
  unfolding subscribe_loop
  subscribe_loop-cells [] base c em h = h
  subscribe_loop-cells (item ∷ items) base c em h = subscribe_loop-cells items base item _ (
      cells-add_listener_item item.key (length base) item
        (record em { cells = set em.cells (length base) item })
      ∙ ap (λ l. set l (length base) item) h
      ∙ set-end base c item)

  queue_of-subscribe_loop :
      (k : String) (items : List (ListenerItem V E)) (a : ℕ) (em : Manager V E)
      → queue_of k (subscribe_loop trim a items em) ≡ queue_of k em ++ replicate (count k items) a
  unfolding subscribe_loop
  queue_of-subscribe_loop k [] a em = sym (append-nil (queue_of k em))
  queue_of-subscribe_loop k (item ∷ items) a em =
      queue_of-subscribe_loop k items a _
      ∙ ap (λ l. l ++ replicate (count k items) a) (queue_of-add_listener_item k item.key a item _)
      ∙ append_assoc (queue_of k em) (replicate (if registers k item.key item then 1 else 0) a)
          (replicate (count k items) a)
      ∙ ap (λ l. queue_of k em ++ l)
          (replicate-add (if registers k item.key item then 1 else 0) (count k items) a)

  -- `AddSubscriber` makes one cell for all items of the subscriber, which holds the last item at the
  -- end. Each queue grows by one address for each item of its name, and it is the address of that
  -- cell: whichever item was subscribed, the last one is called.
  pub add_subscriber-final :
      (k : String) (item : ListenerItem V E) (items : List (ListenerItem V E)) (em : Manager V E)
      → ((add_subscriber trim (item ∷ items) em).cells ≡ em.cells ++ final item items ∷ [])
        × (queue_of k (add_subscriber trim (item ∷ items) em)
            ≡ queue_of k em ++ replicate (count k (item ∷ items)) (length em.cells))
  unfolding add_subscriber allocate
  add_subscriber-final k item items em = (
    subscribe_loop-cells (item ∷ items) em.cells item (record em { cells = em.cells ++ item ∷ [] })
        refl,
    queue_of-subscribe_loop k (item ∷ items) (length em.cells)
        (record em { cells = em.cells ++ item ∷ [] }),
  )
