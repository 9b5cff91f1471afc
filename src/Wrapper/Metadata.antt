-- ===== src/Wrapper/Metadata.antt =====
-- service-wrapper/metadata.go: the metadata that a context carries. A context is what it holds under
-- the key of metadata. `title` is strings.Title.
pub mod Titled
pub mod Merged
use gocommon.Base.{
  ◌≡◌, refl, Bool, true, false, ◌&&◌, not, Option, none, some, is_some, List, [], ◌∷◌, String,
  string_eq, ◌==◌, if◌then◌else◌, lookup, insert, remove,
}

abbrev pub MetaData : Type 0
MetaData = List (String × String)

abbrev pub Context : Type 0
Context = Option MetaData

abbrev pub or_empty : Context → MetaData
or_empty none = []
or_empty (some md) = md

abbrev pub first_of : Option String → Option String → Option String
first_of none o = o
first_of (some v) o = some v

pub first_of-none : (o : Option String) → first_of o none ≡ o
first_of-none none = refl
first_of-none (some v) = refl

-- `Copy`: the loop that fills a new map.
unfoldable pub copy_to : MetaData → MetaData → MetaData
copy_to [] cmd = cmd
copy_to ((k, v) ∷ md) cmd = copy_to md (insert k v cmd)

unfoldable pub copy : MetaData → MetaData
unfolding copy_to
copy md = copy_to md []

-- One round of the loop of `MergeContext`.
unfoldable pub merge_entry : Bool → String → String → MetaData → MetaData
merge_entry overwrite k v cmd =
    if is_some (lookup k cmd) && not overwrite
    then cmd
    else if v == ""
    then remove k cmd
    else insert k v cmd

unfoldable pub merge : Bool → MetaData → MetaData → MetaData
merge overwrite [] cmd = cmd
merge overwrite ((k, v) ∷ patch) cmd = merge overwrite patch (merge_entry overwrite k v cmd)

-- `MergeContext`; a context that is nil holds nothing.
unfoldable pub merge_context : Context → MetaData → Bool → Context
unfolding merge copy
merge_context ctx patch overwrite = some (merge overwrite patch (copy (or_empty ctx)))

-- `NewContext`
unfoldable pub new_context : Context → MetaData → Context
new_context ctx md = some md

module _ (title : String → String) where
  -- The methods of `MetaData`.
  unfoldable pub get_key : MetaData → String → Option String
  get_key md key = first_of (lookup key md) (lookup (title key) md)

  unfoldable pub set_key : MetaData → String → String → MetaData
  set_key md key val = insert key val md

  unfoldable pub delete_key : MetaData → String → MetaData
  delete_key md key = remove (title key) (remove key md)

  -- The loop of `FromContext`.
  unfoldable pub capitalise : MetaData → MetaData → MetaData
  capitalise [] new_md = new_md
  capitalise ((k, v) ∷ md) new_md = capitalise md (insert (title k) v new_md)

  unfoldable pub from_context : Context → Context
  unfolding capitalise
  from_context none = none
  from_context (some md) = some (capitalise md [])

  -- `Set`, `Delete` and `Get` of a context.
  unfoldable pub set : Context → String → String → Context
  unfolding from_context
  set ctx k v =
      let md = or_empty (from_context ctx) in some (if v == "" then remove k md else insert k v md)

  unfoldable pub delete : Context → String → Context
  unfolding set
  delete ctx k = set ctx k ""

  unfoldable pub get : Context → String → Option String
  unfolding from_context get_key
  get ctx key = elim (from_context ctx) [ none ↦ none | some md ↦ get_key md key ]
