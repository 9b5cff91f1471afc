-- ===== src/Client/Header.antt =====
-- The header and the codec of a call, in client/rpc_client.go and client/rpc_codec.go.
use gocommon.Base.{
  ◌≡◌, refl, ap, ◌∙◌, not, ◌||◌, Option, none, some, List, [], ◌∷◌, String, string_eq, ◌==◌,
  if◌then◌else◌, lookup, insert, lookup-insert, lookup-same, IsMap, inl, inr, Bool-cases,
}
use gocommon.Registry.{Node, read}

abbrev pub topic_context : String
topic_context = "Micro-Topic"

-- The loop over the metadata of the context.
unfoldable pub copy_metadata :
    List (String × String) → List (String × String) → List (String × String)
unfolding insert
copy_metadata [] header = header
copy_metadata ((k, v) ∷ md) header =
    copy_metadata md (if k == topic_context then header else insert k v header)

-- The header of a call, from the metadata of its context, if it has them.
unfoldable pub make_header :
    Option (List (String × String)) → String → String → List (String × String)
unfolding copy_metadata insert
make_header md timeout content_type =
    let header : List (String × String) = elim md [ none ↦ [] | some m ↦ copy_metadata m [] ] in
    insert "Accept" content_type
      (insert "Content-Type" content_type (insert "Timeout" timeout header))

abbrev pub text_at : String → List (String × String) → String
text_at key m = elim (lookup key m) [ none ↦ "" | some v ↦ v ]

module _ {A : Type 0} where
  -- `setupProtocol`: a codec of `DefaultCodecs`, which has `json` alone, and the header.
  unfoldable pub setup_protocol :
      A → List (String × String) → Node → Option A × List (String × String)
  unfolding lookup insert read
  setup_protocol json header node =
      let protocol : String = elim (read "protocol" node.metadata) [ none ↦ "" | some v ↦ v ] in
      let content_type = text_at "Content-Type" header in
      let content_type' =
        if content_type == "application/protobuf" then "application/proto-rpc" else content_type in
      if not (protocol == "") || not (text_at "Micro-Topic" header == "") then (none, header) else (
        if content_type' == "application/json" then some json else none,
        if content_type == "application/json" || content_type == "application/protobuf"
            then insert "Content-Type" content_type' header
            else header,
      )

  -- `newCodec`; `none` is the error.
  unfoldable pub new_codec : A → List (String × A) → String → Option A
  unfolding lookup
  new_codec json codecs content_type = elim (lookup content_type codecs) [
    | some c ↦ some c
    | none ↦ if content_type == "application/json" then some json else none
  ]

  -- The codec of `call`; `none` is the error of `newCodec`.
  unfoldable pub choose_codec :
      A → List (String × A) → List (String × String) → Node → String → Option A
  unfolding setup_protocol new_codec
  choose_codec json codecs header node content_type = elim (setup_protocol json header node).0 [
    | some c ↦ some c
    | none ↦ new_codec json codecs content_type
  ]

abbrev pub or_else : {A : Type 0} → Option A → Option A → Option A
or_else none d = d
or_else (some v) d = some v

-- What the copy has for a key, from what the metadata and the header have.
abbrev copied : String → Option String → Option String → Option String
copied k new old = if k == topic_context then old else or_else new old

lookup-copy_metadata :
    (k : String) (md header : List (String × String))
    → IsMap md
    → lookup k (copy_metadata md header) ≡ copied k (lookup k md) (lookup k header)
unfolding copy_metadata lookup
lookup-copy_metadata k [] header h = elim (Bool-cases (k == topic_context)) [
  | inl t ↦ rw (t) refl
  | inr f ↦ rw (f) refl
]
lookup-copy_metadata k ((key, v) ∷ md) header h = elim (Bool-cases (key == topic_context)) [
  | inl t ↦ rw (t) (
      lookup-copy_metadata k md header h.1 ∙ elim (Bool-cases (k == topic_context)) [
        | inl u ↦ rw (u) refl
        | inr g ↦ rw (ap (λ x. k == x) ((string_eq.same_iff key topic_context).0 t), g) refl
      ])
  | inr f ↦ rw (f) (
      lookup-copy_metadata k md (insert key v header) h.1
      ∙ rw (lookup-insert key k v header) (elim (Bool-cases (k == key)) [
        | inl u ↦
            rw
              (
                ap (λ x. x == topic_context) ((string_eq.same_iff k key).0 u) ∙ f,
                lookup-same k key md u ∙ h.0,
                u,
              )
              refl
        | inr g ↦ rw (g) refl
      ]))
]

copied-none :
    (k : String) (new : Option String)
    → copied k new none ≡ (if k == topic_context then none else new)
copied-none k none = refl
copied-none k (some v) = refl

-- The header of a call has the content type, twice, the timeout, and the metadata of the context
-- except the topic, which is that of a publication. The metadata have each key once.
pub lookup-make_header :
    (md : List (String × String)) (timeout content_type : String)
    → IsMap md
    → (k : String)
    → lookup k (make_header (some md) timeout content_type) ≡ (
        if k == "Accept"
        then some content_type
        else if k == "Content-Type"
        then some content_type
        else if k == "Timeout"
        then some timeout
        else if k == topic_context
        then none
        else lookup k md)
unfolding make_header lookup
lookup-make_header md timeout content_type h k =
    let m0 = copy_metadata md [] in
    let m1 = insert "Timeout" timeout m0 in
    let m2 = insert "Content-Type" content_type m1 in
    rw
      (
        lookup-insert "Accept" k content_type m2,
        lookup-insert "Content-Type" k content_type m1,
        lookup-insert "Timeout" k timeout m0,
        lookup-copy_metadata k md [] h,
      )
      (rw (copied-none k (lookup k md)) refl)
