-- ===== src/Wrapper/Metadata/Merged.antt =====
-- What MergeContext of service-wrapper/metadata.go makes of two maps.
use gocommon.Base.{
  ◌≡◌, refl, ap, Bool, ◌&&◌, not, Option, none, some, is_some, [], ◌∷◌, String, string_eq, ◌==◌,
  if◌then◌else◌, lookup, insert, lookup-insert, lookup-remove, IsMap, Bool-cases, inl, inr, arith,
  lookup-same, ◌∙◌,
}
use gocommon.Wrapper.Metadata.{
  first_of-none, MetaData, Context, or_empty, merge_entry, merge, merge_context, copy, copy_to,
  first_of,
}

-- What a key has after a merge, from what the patch and the context have.
abbrev pub merged : Bool → Option String → Option String → Option String
merged overwrite none old = old
merged overwrite (some v) old =
    if is_some old && not overwrite then old else if v == "" then none else some v

lookup-merge_entry :
    (overwrite : Bool) (k v q : String) (cmd : MetaData)
    → lookup q (merge_entry overwrite k v cmd)
      ≡ (if q == k then merged overwrite (some v) (lookup k cmd) else lookup q cmd)
unfolding merge_entry
lookup-merge_entry overwrite k v q cmd =
    ground (arith, lookup-insert k q v cmd, lookup-remove k q cmd, lookup-same q k cmd)

lookup-merge :
    (overwrite : Bool) (patch cmd : MetaData) (q : String)
    → IsMap patch
    → lookup q (merge overwrite patch cmd) ≡ merged overwrite (lookup q patch) (lookup q cmd)
unfolding merge lookup
lookup-merge overwrite [] cmd q h = refl
lookup-merge overwrite ((k, v) ∷ patch) cmd q h =
    let rest = lookup-merge overwrite patch (merge_entry overwrite k v cmd) q h.1 in
    let entry = lookup-merge_entry overwrite k v q cmd in
    elim (Bool-cases (q == k)) [
      | inl t ↦
          let same = lookup-same q k cmd t in
          let once = lookup-same q k patch t ∙ h.0 in rest ∙ rw (entry, t, once, same) refl
      | inr f ↦ rest ∙ rw (entry, f) refl
    ]

lookup-copy_to :
    (md cmd : MetaData) (q : String)
    → IsMap md
    → lookup q (copy_to md cmd) ≡ first_of (lookup q md) (lookup q cmd)
unfolding copy_to lookup
lookup-copy_to [] cmd q h = refl
lookup-copy_to ((k, v) ∷ md) cmd q h =
    let rest = lookup-copy_to md (insert k v cmd) q h.1 in
    let put = lookup-insert k q v cmd in
    elim (Bool-cases (q == k)) [
      | inl t ↦ let once = lookup-same q k md t ∙ h.0 in rest ∙ rw (once, put, t) refl
      | inr f ↦ rest ∙ rw (put, f) refl
    ]

-- For maps in which each key stands once, `MergeContext` leaves a key that the patch does not
-- have, and one that the context has where it is not to overwrite; each other key of the
-- patch gets its value, and is removed where that is empty.
pub merge_context-lookup :
    (ctx : Context) (patch : MetaData) (overwrite : Bool) (q : String)
    → IsMap (or_empty ctx)
    → IsMap patch
    → lookup q (or_empty (merge_context ctx patch overwrite))
      ≡ merged overwrite (lookup q patch) (lookup q (or_empty ctx))
unfolding merge_context copy lookup
merge_context-lookup ctx patch overwrite q g h =
    lookup-merge overwrite patch (copy (or_empty ctx)) q h
    ∙ ap (λ o. merged overwrite (lookup q patch) o)
        (lookup-copy_to (or_empty ctx) [] q g ∙ first_of-none (lookup q (or_empty ctx)))
