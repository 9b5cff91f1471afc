-- ===== src/FileCache/Levels/Found.antt =====
-- What is found in the two levels of util/mem/XCache.go after a deletion.
use gocommon.Base.{
  ◌≡◌, refl, ap, ◌∙◌, Bool, true, false, Option, none, some, is_some, String, string_eq, ◌==◌,
  if◌then◌else◌, lookup, Option-cases, Bool-cases, inl, inr, lookup-same,
}
use gocommon.FileCache.{Os, FileItem, add_count}
use gocommon.FileCache.Table.{FileItems, value, delete}
use gocommon.FileCache.KeepAlive.{delete-lookup}
use gocommon.FileCache.Levels.{
  XCache, get_levels, get_early_from_file, delete_levels, delete_early_from_file,
}

module _ {F : Type 0} where
  -- The first of two that is there.
  abbrev pub first_found : Option (FileItem F) → Option (FileItem F) → Option (FileItem F)
  first_found none o = o
  first_found (some item) o = some item

  -- The item of a key in the two levels of early media, each access counted.
  abbrev pub early_item : String → XCache F → Option (FileItem F)
  early_item key x =
      first_found (lookup key x.temp_fs_early_cache.items) (lookup key x.block_early_cache.items)

  abbrev pub counted : Option (FileItem F) → Option (FileItem F)
  counted none = none
  counted (some item) = some (add_count item)

  if-first_found :
      (b : Bool) (o p : Option (FileItem F))
      → first_found (if b then none else o) (if b then none else p)
        ≡ (if b then none else first_found o p)
  if-first_found true o p = refl
  if-first_found false o p = refl

  value-got : (k : String) (t : FileItems F) → (value none k t).0.0 ≡ counted (lookup k t.items)
  unfolding value
  value-got k t = elim (Option-cases (lookup k t.items)) [
    | inl n ↦ rw (n, value) refl
    | inr (item, n) ↦ rw (n, value) refl
  ]

  get_early-item :
      (k : String) (x : XCache F)
      → (get_early_from_file none none k x).0.0 ≡ counted (early_item k x)
  unfolding get_early_from_file get_levels
  get_early-item k x =
      let t = x.temp_fs_early_cache in
      let b = x.block_early_cache in
      elim (Option-cases (lookup k t.items)) [
        | inl n ↦ let got = value-got k b in rw (value-got k t, n) got
        | inr (item, n) ↦ let got = value-got k t ∙ ap counted n in rw (value-got k t, n) got
      ]

  module _ {D W : Type 0} (os : Os D W) (call : F → FileItem F → W → Bool × W) where
    delete-found :
        (key : String) (calls_back : Bool) (table : FileItems F) (w : W)
        → is_some (delete os call key calls_back table w).0.0 ≡ is_some (lookup key table.items)
    unfolding delete
    delete-found key calls_back table w = elim (Option-cases (lookup key table.items)) [
      | inl n ↦ rw (n, delete) refl
      | inr (item, n) ↦ rw (n, delete) refl
    ]

    delete_early-item :
        (key k : String) (x : XCache F) (w : W)
        → early_item k (delete_early_from_file os call key x w).1 ≡ (
            if k == key
            then (if is_some (lookup key x.temp_fs_early_cache.items)
                then lookup key x.block_early_cache.items
                else none)
            else early_item k x)
    unfolding delete_early_from_file delete_levels
    delete_early-item key k x w =
        let tfs = x.temp_fs_early_cache in
        let block = x.block_early_cache in
        let one = (delete os call key false tfs w).2 in
        let first = (delete-lookup os call key false tfs w).1 k in
        let second = (delete-lookup os call key false block one).1 k in
        let found = delete-found key false tfs w in
        elim (Option-cases (lookup key tfs.items)) [
          | inl n ↦
              rw (found, n, first, second)
                (if-first_found (k == key) (lookup k tfs.items) (lookup k block.items))
          | inr (item, n) ↦
              let same = lookup-same k key block.items in
              elim (Bool-cases (k == key)) [
                | inl t ↦ let e = same t in rw (found, n, first, t) e
                | inr f ↦ rw (found, n, first, f) refl
              ]
        ]

    -- After `DeleteEarlyFromFile key`, which calls nothing back and which is given no function that
    -- loads: `GetEarlyFromFile` answers for `key` with nothing unless both levels had it, then with
    -- the item of the second level, since a deletion ends at the first level that has the key; for
    -- each other key it answers as before, the first level first, with the access counted.
    pub get_early-delete_early :
        (key k : String) (x : XCache F) (w : W)
        → (get_early_from_file none none k (delete_early_from_file os call key x w).1).0.0
          ≡ counted (
              if k == key
              then (if is_some (lookup key x.temp_fs_early_cache.items)
                  then lookup key x.block_early_cache.items
                  else none)
              else early_item k x)
    get_early-delete_early key k x w =
        get_early-item k (delete_early_from_file os call key x w).1
        ∙ ap counted (delete_early-item key k x w)
