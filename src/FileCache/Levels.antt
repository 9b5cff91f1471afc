-- ===== src/FileCache/Levels.antt =====
-- util/mem/XCache.go: four tables of files, two of them in memory and two on a disk. `load` makes a
-- table of the files in a directory.
pub mod Found
use gocommon.Base.{
  is_some, ◌*◌, if◌then◌else◌, ℕ, Bool, true, false, Option, none, some, List, [], ◌∷◌, String,
}
use gocommon.FileCache.Settings.{XCacheOptions, default_options, apply_options}
use gocommon.FileCache.{Os, FileItem}
use gocommon.FileCache.Table.{FileItems, CacheError, value, delete, add_from_file}

pub record XCache (F : Type 0) : Type 0 where
  pub temp_fs_store_cache : FileItems F
  pub block_store_cache : FileItems F
  pub temp_fs_early_cache : FileItems F
  pub block_early_cache : FileItems F
  pub options : XCacheOptions

-- `NewXCache`: the options are applied to the defaults, in their order.
unfoldable pub new_x_cache :
    {F : Type 0} → (String → ℕ → ℕ → FileItems F) → List (XCacheOptions → XCacheOptions) → XCache F
unfolding apply_options
new_x_cache load opts =
    let o = apply_options opts default_options in
    record {
      temp_fs_early_cache = load o.name_early_tfs o.limits_early_temp_fs o.span_temp_fs;
      temp_fs_store_cache = load o.name_store_tfs o.limits_store_temp_fs o.span_call_temp_fs;
      block_early_cache = load o.name_early_block o.limits_early_block o.span_block;
      block_store_cache = load o.name_store_block o.limits_store_block o.span_call_block;
      options = o;
    }

-- A level that has answered with an item, or not.
abbrev pub Found : Type 0 → Type 0
Found F = Option (FileItem F) × Option CacheError

-- Two levels: the first one, unless it has no item, then the second one.
module _ {F : Type 0} where
  unfoldable pub get_levels :
      Option (String → Option (FileItem F))
      → Option (String → Option (FileItem F))
      → String
      → FileItems F
      → FileItems F
      → Found F × FileItems F × FileItems F
  unfolding value
  get_levels load load' key tfs block =
      let (got, tfs') = value load key tfs in
      let (got', block') = value load' key block in
      if is_some got.0 then (got, tfs', block) else (got', tfs', block')

  -- `GetEarlyFromFile`, and `GetStoreFromFile`.
  unfoldable pub get_early_from_file :
      Option (String → Option (FileItem F))
      → Option (String → Option (FileItem F))
      → String
      → XCache F
      → Found F × XCache F
  unfolding get_levels
  get_early_from_file load load' key x =
      let (got, tfs, block) = get_levels load load' key x.temp_fs_early_cache x.block_early_cache in
      (got, record x { temp_fs_early_cache = tfs; block_early_cache = block })

  unfoldable pub get_store_from_file :
      Option (String → Option (FileItem F))
      → Option (String → Option (FileItem F))
      → String
      → XCache F
      → Found F × XCache F
  unfolding get_levels
  get_store_from_file load load' key x =
      let (got, tfs, block) = get_levels load load' key x.temp_fs_store_cache x.block_store_cache in
      (got, record x { temp_fs_store_cache = tfs; block_store_cache = block })

module _ {F D W : Type 0} (os : Os D W) (call : F → FileItem F → W → Bool × W) where
  unfoldable pub delete_levels :
      String → Bool → FileItems F → FileItems F → W → Found F × FileItems F × FileItems F × W
  unfolding delete
  delete_levels key calls_back tfs block w =
      let (got, tfs', w') = delete os call key calls_back tfs w in
      let (got', block', w'') = delete os call key calls_back block w' in
      if is_some got.0 then (got, tfs', block, w') else (got', tfs', block', w'')

  -- `DeleteEarlyFromFile`, and `DeleteStoreFromFile`.
  unfoldable pub delete_early_from_file : String → XCache F → W → Found F × XCache F × W
  unfolding delete_levels
  delete_early_from_file key x w =
      let (got, tfs, block, w') =
        delete_levels key false x.temp_fs_early_cache x.block_early_cache w in
      (got, record x { temp_fs_early_cache = tfs; block_early_cache = block }, w')

  unfoldable pub delete_store_from_file : String → XCache F → W → Found F × XCache F × W
  unfolding delete_levels
  delete_store_from_file key x w =
      let (got, tfs, block, w') =
        delete_levels key true x.temp_fs_store_cache x.block_store_cache w in
      (got, record x { temp_fs_store_cache = tfs; block_store_cache = block }, w')

  module _ (join : String → String → String) (with_idx : String → String) where
    -- The four functions that add a file, each to its table and with the span of its options.
    unfoldable pub add_early_tfs_from_file :
        String → String → ℕ → XCache F → W → Option (FileItem F) × XCache F × W
    unfolding add_from_file
    add_early_tfs_from_file key datapath now x w =
        let (item, t, w') =
          add_from_file os join with_idx call key datapath x.options.span_temp_fs now
            x.temp_fs_early_cache w in
        (item, record x { temp_fs_early_cache = t }, w')

    unfoldable pub add_store_tfs_from_file :
        String → String → ℕ → XCache F → W → Option (FileItem F) × XCache F × W
    unfolding add_from_file
    add_store_tfs_from_file key datapath now x w =
        let (item, t, w') =
          add_from_file os join with_idx call key datapath x.options.span_call_temp_fs now
            x.temp_fs_store_cache w in
        (item, record x { temp_fs_store_cache = t }, w')

    unfoldable pub add_early_block_from_file :
        String → String → ℕ → XCache F → W → Option (FileItem F) × XCache F × W
    unfolding add_from_file
    add_early_block_from_file key datapath now x w =
        let (item, t, w') =
          add_from_file os join with_idx call key datapath x.options.span_block now
            x.block_early_cache w in
        (item, record x { block_early_cache = t }, w')

    unfoldable pub add_store_block_from_file :
        String → String → ℕ → XCache F → W → Option (FileItem F) × XCache F × W
    unfolding add_from_file
    add_store_block_from_file key datapath now x w =
        let (item, t, w') =
          add_from_file os join with_idx call key datapath x.options.span_call_block now
            x.block_store_cache w in
        (item, record x { block_store_cache = t }, w')
