-- ===== src/FileCache/Table.antt =====
-- util/mem/cache/FileItems.go: the table of items. The order of the map is that of a list. The
-- functions that the table is given do not call it.
use gocommon.Base.{
  is_some, ℕ, ◌+◌, ◌-◌, Bool, true, false, ◌||◌, Option, none, some, List, [], ◌∷◌, ◌++◌, String,
  string_eq, nat_eq, ◌==◌, ltb, leb, if◌then◌else◌, lookup, insert, remove,
}
use gocommon.FileCache.{Os, FileItem, new_file_item, load_file_item, delete_item, add_count}

-- `FileItems`; `timer` is the time after which the check runs again.
pub record FileItems (F : Type 0) : Type 0 where
  pub name : String
  pub life_span : ℕ
  pub limit_size : ℕ
  pub total_size : ℕ
  pub cleanup_interval : ℕ
  pub timer : Option ℕ
  pub items : List (String × FileItem F)
  pub about_to_expire : Option F
  pub about_to_delete : Option F

pub data CacheError : Type 0 where
  key_not_found : CacheError
  key_not_found_or_loadable : CacheError

-- `now.Sub(accessedOn) >= lifeSpan`
abbrev pub is_outdated : {F : Type 0} → ℕ → FileItem F → Bool
is_outdated now item = leb (item.accessed_on + item.life_span) now

abbrev pub idle_check : ℕ
idle_check = 5000000000

module _ {F : Type 0} where
  -- The new table of `LoadFileItems`.
  unfoldable pub new_file_items : String → ℕ → ℕ → FileItems F
  new_file_items name limits span = record {
    name = name;
    life_span = span;
    limit_size = limits;
    total_size = 0;
    cleanup_interval = 0;
    timer = none;
    items = [];
    about_to_expire = none;
    about_to_delete = none;
  }

  -- `addInternal`, less the function that is told of the item.
  unfoldable pub add_internal : FileItem F → FileItems F → FileItem F × FileItems F
  unfolding insert
  add_internal item table =
      let item' = record item {
        about_to_expire = table.about_to_expire;
        about_to_delete = table.about_to_delete;
      } in
      (item', record table { items = insert item'.key item' table.items })

  -- `Exists`
  unfoldable pub exists : String → FileItems F → Bool
  unfolding lookup
  exists key table = is_some (lookup key table.items)

  -- `Value`, of a key and the function that loads missing ones, if there is one.
  unfoldable pub value :
      Option (String → Option (FileItem F))
      → String
      → FileItems F
      → (Option (FileItem F) × Option CacheError) × FileItems F
  unfolding lookup insert add_count
  value load_data key table = elim (lookup key table.items) [
    | some item ↦ (
      (some (add_count item), none),
      record table { items = insert key (add_count item) table.items },
    )
    | none ↦ elim load_data [
      | none ↦ ((none, some key_not_found), table)
      | some load ↦ elim (load key) [
        | none ↦ ((none, some key_not_found_or_loadable), table)
        | some item ↦ ((some item, none), table)
      ]
    ]
  ]

  -- `Flush`; a timer is stopped.
  unfoldable pub flush : FileItems F → FileItems F
  flush table = record table { items = []; cleanup_interval = 0; timer = none; total_size = 0 }

  -- The range of `expirationCheck`: the keys of the outdated items, and the shortest time that is
  -- left to the others, 0 if there are none.
  unfoldable pub scan : ℕ → List (String × FileItem F) → List String → ℕ → List String × ℕ
  scan now [] outdated smallest = (outdated, smallest)
  scan now ((key, item) ∷ m) outdated smallest =
      let left = (item.accessed_on + item.life_span) - now in
      if is_outdated now item
      then scan now m (outdated ++ key ∷ []) smallest
      else scan now m outdated (if smallest == 0 || ltb left smallest then left else smallest)

module _ {F D W : Type 0} (os : Os D W) (call : F → FileItem F → W → Bool × W) where
  -- `deleteInternal`, its table only. The function of the table decides whether the data go.
  unfoldable pub delete_internal : String → FileItems F × W → FileItems F × W
  unfolding lookup remove delete_item
  delete_internal key (table, w) = elim (lookup key table.items) [
    | none ↦ (table, w)
    | some item ↦
        let (goes, w1) : Bool × W = elim table.about_to_expire [
          | none ↦ (true, w)
          | some f ↦ call f item w
        ] in
        (
          record table { items = remove key table.items },
          (delete_item os call false goes item w1).1,
        )
  ]

  unfoldable pub delete_outdated : List String → FileItems F × W → FileItems F × W
  unfolding delete_internal
  delete_outdated [] tw = tw
  delete_outdated (key ∷ keys) tw = delete_outdated keys (delete_internal key tw)

  -- `expirationCheck`
  unfoldable pub expiration_check : ℕ → FileItems F → W → FileItems F × W
  unfolding scan delete_outdated
  expiration_check now table w =
      let (outdated, smallest) = scan now table.items [] 0 in
      let (table', w') = delete_outdated outdated (table, w) in
      (
        record table' {
          cleanup_interval = smallest;
          timer = some (if ltb 0 smallest then smallest else idle_check);
        },
        w',
      )

  -- `Delete`: the item, the error and the table.
  unfoldable pub delete :
      String → Bool → FileItems F → W → (Option (FileItem F) × Option CacheError) × FileItems F × W
  unfolding lookup remove delete_item
  delete key calls_back table w = elim (lookup key table.items) [
    | none ↦ ((none, some key_not_found), table, w)
    | some item ↦
        let (item', w') : FileItem F × W = delete_item os call calls_back true item w in
        ((some item', some key_not_found), record table { items = remove key table.items }, w')
  ]

module _ {F D W : Type 0} (os : Os D W) (join : String → String → String)
    (with_idx : String → String) (call : F → FileItem F → W → Bool × W) where
  -- `AddUnsafe`, which `Add` calls; `none` is nil.
  unfoldable pub add_unsafe :
      String → String → ℕ → D → ℕ → FileItems F → W → Option (FileItem F) × FileItems F × W
  unfolding lookup new_file_item add_internal
  add_unsafe key datapath life_span d now table w = elim (lookup key table.items) [
    | some _ ↦ (none, table, w)
    | none ↦
        let (made, w') = new_file_item os join with_idx key datapath d life_span now w in
        elim made [
          | none ↦ (none, table, w')
          | some item ↦ let (item', table') = add_internal item table in (some item', table', w')
        ]
  ]

  -- `AddFromFile`. An item that is outdated already is deleted; the table's function decides on its
  -- data.
  unfoldable pub add_from_file :
      String → String → ℕ → ℕ → FileItems F → W → Option (FileItem F) × FileItems F × W
  unfolding lookup load_file_item delete_item add_internal
  add_from_file key datapath life_span now table w = elim (lookup key table.items) [
    | some _ ↦ (none, table, w)
    | none ↦
        let (made, w') = load_file_item os join with_idx key datapath life_span now w in
        elim made [
          | none ↦ (none, table, w')
          | some item ↦
              let (goes, w1) : Bool × W = elim table.about_to_expire [
                | none ↦ (true, w')
                | some f ↦ call f item w'
              ] in
              let (item', table') = add_internal item table in
              if leb (item.accessed_on + life_span) now
              then (none, table, (delete_item os call false goes item w1).1)
              else (some item', table', w')
        ]
  ]

  -- `NotFoundAdd`; `none` is the panic where the item cannot be made.
  unfoldable pub not_found_add :
      String → ℕ → D → ℕ → FileItems F → W → Option (Bool × FileItems F × W)
  unfolding lookup new_file_item add_internal
  not_found_add key life_span d now table w = elim (lookup key table.items) [
    | some _ ↦ some (false, table, w)
    | none ↦
        let (made, w') = new_file_item os join with_idx key table.name d life_span now w in
        elim made [ none ↦ none | some item ↦ some (true, (add_internal item table).1, w') ]
  ]
