-- ===== src/Selector/Filters.antt =====
-- The filters of selector/filter.go and the nodes that they leave.
use gocommon.Base.{
  keep-append, ◌≡◌, refl, ap, ◌∙◌, sym, true, false, List, [], ◌∷◌, ◌++◌, String, keep, length, ltb,
  arith, Bool-cases, inl, inr, All,
}
use gocommon.Registry.{Service, flatten}
use gocommon.Selector.{has_label, filter_label}

no_nodes : {A : Type 0} (xs : List A) → ltb 0 (length xs) ≡ false → xs ≡ []
no_nodes [] h = refl
no_nodes (x ∷ xs) h = absurd (ground arith)

-- `filter_label` leaves exactly the nodes with the label, in their order, and no service without
-- a node.
pub filter_label-keep :
    (key val : String) (old : List Service)
    → (flatten (filter_label key val old) ≡ keep (has_label key val) (flatten old))
      × All (λ (s : Service). ltb 0 (length s.nodes) ≡ true) (filter_label key val old)
unfolding filter_label flatten
filter_label-keep key val [] = (refl, _)
filter_label-keep key val (s ∷ old) =
    let (same, full) = filter_label-keep key val old in
    let split = keep-append (has_label key val) s.nodes (flatten old) in
    elim (Bool-cases (ltb 0 (length (keep (has_label key val) s.nodes)))) [
      | inl t ↦ rw t (ap (λ l. keep (has_label key val) s.nodes ++ l) same ∙ sym split, (t, full))
      | inr f ↦ rw f (
        same ∙ sym (split ∙ ap (λ l. l ++ keep (has_label key val) (flatten old)) (no_nodes _ f)),
        full,
      )
    ]
