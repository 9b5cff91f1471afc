-- ===== src/FileCache.antt =====
-- util/mem/cache/fileitem.go: an item whose data are in a file, with a second file for its time.
-- Times and spans are in nanoseconds. The operations of the file system are a parameter, and a
-- callback is a value of a type `F`, which a parameter calls.
pub mod Table
pub mod Expiry
pub mod KeepAlive
pub mod Files
pub mod Levels
pub mod Settings
use gocommon.Base.{ℕ, ◌+◌, Bool, true, false, not, ◌&&◌, Option, none, some, String, if◌then◌else◌}

-- What the code calls of the file system, on data `D` and a world `W`. The Booleans tell success.
pub record Os (D W : Type 0) : Type 0 where
  pub make_dir : String → W → W
  pub create : String → W → Bool × W
  pub write : String → D → W → Bool × W
  pub remove : String → W → Bool × W
  pub can_open : String → W → Bool
  pub read_all : String → W → Bool × D
  pub size : D → ℕ
  pub marshal_text : ℕ → D
  pub unmarshal_text : D → ℕ

pub record FileItem (F : Type 0) : Type 0 where
  pub key : String
  pub datapath : String
  pub filepath : String
  pub file_idx : String
  pub life_span : ℕ
  pub created_on : ℕ
  pub accessed_on : ℕ
  pub access_size : ℕ
  pub access_count : ℕ
  pub about_to_expire : Option F
  pub about_to_delete : Option F

-- The two paths of an item: `join` puts a slash between a directory and a key, and `with_idx` the
-- extension behind a path.
module _ {F D W : Type 0} (os : Os D W) (join : String → String → String)
    (with_idx : String → String) where
  -- The last part of `createAndStoreToFile` and of `storeIdxFile`: the file of the time. On an error
  -- the file of the data goes as well.
  unfoldable pub store_idx : FileItem F → W → Bool × W
  store_idx item w =
      let (created, w1) = os.create item.file_idx w in
      let (written, w2) = os.write item.file_idx (os.marshal_text item.accessed_on) w1 in
      if not created
      then (false, (os.remove item.filepath w1).1)
      else if not written
      then (false, (os.remove item.file_idx (os.remove item.filepath w2).1).1)
      else (true, w2)

  -- `storeIdxFile`
  unfoldable pub store_idx_file : String → FileItem F → W → Bool × FileItem F × W
  unfolding store_idx
  store_idx_file data_path item w =
      let item' = record item { file_idx = with_idx (join data_path item.key) } in
      let (ok, w') = store_idx item' (os.make_dir data_path w) in (ok, item', w')

  -- `createAndStoreToFile`
  unfoldable pub create_and_store_to_file : D → String → FileItem F → W → Bool × FileItem F × W
  unfolding store_idx
  create_and_store_to_file d data_path item w =
      let item' : FileItem F = record item {
        filepath = join data_path item.key;
        file_idx = with_idx (join data_path item.key);
      } in
      let (created, w1) = os.create item'.filepath (os.make_dir data_path w) in
      let (written, w2) = os.write item'.filepath d w1 in
      let (ok, w3) = store_idx item' w2 in
      if not created
      then (false, item', w1)
      else if not written
      then (false, item', (os.remove item'.filepath w2).1)
      else (ok, item', w3)

  -- `NewFileItem`; `none` is nil.
  unfoldable pub new_file_item : String → String → D → ℕ → ℕ → W → Option (FileItem F) × W
  unfolding create_and_store_to_file
  new_file_item key data_path d life_span now w =
      let (ok, item, w') =
        create_and_store_to_file d data_path
          (record {
            key = key;
            datapath = data_path;
            filepath = "";
            file_idx = "";
            life_span = life_span;
            created_on = now;
            accessed_on = now;
            access_size = os.size d;
            access_count = 0;
            about_to_expire = none;
            about_to_delete = none;
          })
          w in
      if ok then (some item, w') else (none, w')

  -- `LoadFileItem`. Without the file of the time the item counts from now, and an error of
  -- `storeIdxFile` is ignored.
  unfoldable pub load_file_item : String → String → ℕ → ℕ → W → Option (FileItem F) × W
  unfolding store_idx_file
  load_file_item key data_path life_span now w =
      let item : FileItem F = record {
        key = key;
        datapath = data_path;
        filepath = join data_path key;
        file_idx = with_idx (join data_path key);
        life_span = life_span;
        created_on = 0;
        accessed_on = 0;
        access_size = 0;
        access_count = 0;
        about_to_expire = none;
        about_to_delete = none;
      } in
      let len = os.size (os.read_all item.filepath w).1 in
      let time = os.read_all item.file_idx w in
      let (_, item', w') =
        store_idx_file data_path
          (record item { created_on = now; accessed_on = now; access_size = len }) w in
      if not (os.can_open item.file_idx w)
      then (if os.can_open item.filepath w then (some item', w') else (none, w))
      else if not (os.can_open item.filepath w)
      then (none, (os.remove item.file_idx w).1)
      else if not time.0
      then (none, w)
      else (
        some (record item {
          created_on = os.unmarshal_text time.1;
          accessed_on = os.unmarshal_text time.1;
          access_size = len;
        }),
        w,
      )

-- `AddCount`
unfoldable pub add_count : {F : Type 0} → FileItem F → FileItem F
add_count item = record item { access_count = item.access_count + 1 }

module _ {F D W : Type 0} (os : Os D W) where
  -- `delete`. The callback decides whether the file of the data goes.
  unfoldable pub delete_item :
      (F → FileItem F → W → Bool × W) → Bool → Bool → FileItem F → W → FileItem F × W
  delete_item call calls_back source_delete item w =
      let (goes, w1) : Bool × W = elim item.about_to_delete [
        | none ↦ (source_delete, w)
        | some f ↦ if calls_back then call f item w else (source_delete, w)
      ] in
      let w2 = if goes then (os.remove item.filepath w1).1 else w1 in
      (record item { key = ""; access_size = 0 }, (os.remove item.file_idx w2).1)

  -- `Data`
  unfoldable pub data_of : FileItem F → W → Option D
  data_of item w =
      let (ok, d) = os.read_all item.filepath w in
      if os.can_open item.filepath w && ok then some d else none
