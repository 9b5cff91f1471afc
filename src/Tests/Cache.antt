-- ===== src/Tests/Cache.antt =====
-- Tests of the file cache, and its theorems at concrete inputs. A file is a path and its data.
use gocommon.Base.{
  is_some, ℕ, ◌≡◌, refl, Bool, true, false, none, some, List, [], ◌∷◌, String, string_eq, ◌==◌,
  arith, inl, inr, Bool-cases, if◌then◌else◌, lookup, insert, remove, lookup-insert, lookup-remove,
  same_refl, same_comm,
}
use gocommon.FileCache.{Os, FileItem, add_count}
use gocommon.FileCache.Table.{
  FileItems, new_file_items, expiration_check, exists, delete_internal, delete_outdated, scan,
}
use gocommon.FileCache.Expiry.{still, lookup-expiration_check}
use gocommon.FileCache.Files.{IsOs}
use gocommon.FileCache.Settings.{dir_early_tfs}
use gocommon.FileCache.Levels.{XCache, new_x_cache, get_early_from_file, delete_early_from_file}
use gocommon.FileCache.Levels.Found.{get_early-delete_early}

-- A file system on which only paths other than "full" can be created.
abbrev small_os : Os ℕ (List (String × ℕ))
small_os = record {
  make_dir = λ p w. w;
  create = λ p w. if p == "full" then (false, w) else (true, insert p 0 w);
  write = λ p d w. (true, w);
  remove = λ p w. (true, remove p w);
  can_open = λ p w. true;
  read_all = λ p w. (true, 0);
  size = λ d. d;
  marshal_text = λ t. t;
  unmarshal_text = λ d. d;
}

abbrev present : String → List (String × ℕ) → Bool
present p w = is_some (lookup p w)

small_os_laws : IsOs small_os present
small_os_laws = record {
  dir_keeps = λ p q w. refl;
  create_failed = λ p q w e. elim (Bool-cases (p == "full")) [
    | inl t ↦ rw (t) refl
    | inr f ↦ ground (arith, f, e)
  ];
  create_other = λ p q w e. elim (Bool-cases (p == "full")) [
    | inl t ↦ rw (t) refl
    | inr f ↦ rw (f, lookup-insert p q 0 w, same_comm q p, e) refl
  ];
  write_keeps = λ p q d w. refl;
  remove_gone = λ p w. rw (lookup-remove p p w, same_refl p) refl;
  remove_other = λ p q w e. rw (lookup-remove p q w, same_comm q p, e) refl;
}

abbrev directly : String → String → String
directly path key = key

abbrev no_idx : String → String
no_idx path = "full"

abbrev item_at : String → ℕ → FileItem ℕ
item_at key now = record {
  key = key;
  datapath = "dir";
  filepath = key;
  file_idx = "idx";
  life_span = 10;
  created_on = now;
  accessed_on = now;
  access_size = 1;
  access_count = 0;
  about_to_expire = none;
  about_to_delete = none;
}

abbrev two_items : FileItems ℕ
two_items = record (new_file_items "dir" 100 10) {
  items = ("a", item_at "a" 1) ∷ ("b", item_at "b" 7) ∷ [];
}

abbrev keep_data : ℕ → FileItem ℕ → List (String × ℕ) → Bool × List (String × ℕ)
keep_data f item w = (false, w)

check_run : exists "a" (expiration_check small_os keep_data 12 two_items []).0 ≡ false
unfolding exists expiration_check delete_internal delete_outdated scan lookup remove new_file_items
check_run = refl

lookup-expiration_check_example :
    lookup "b" (expiration_check small_os keep_data 12 two_items []).0.items
    ≡ still 12 (lookup "b" two_items.items)
unfolding lookup
lookup-expiration_check_example =
    lookup-expiration_check small_os keep_data 12 two_items [] (refl, (refl, tt)) "b"

-- Both levels of early media have "a".
abbrev two_levels : XCache ℕ
unfolding new_x_cache
two_levels =
    record (new_x_cache (λ name limits span. new_file_items name limits span)
      (dir_early_tfs "/tmp/other" ∷ [])) {
        temp_fs_early_cache = two_items;
        block_early_cache = two_items;
      }

get_early-delete_early_example :
    (get_early_from_file none none "a"
      (delete_early_from_file small_os keep_data "a" two_levels []).1).0.0
    ≡ some (record (item_at "a" 1) { access_count = 1 })
unfolding lookup two_levels add_count
get_early-delete_early_example = get_early-delete_early small_os keep_data "a" "a" two_levels []
