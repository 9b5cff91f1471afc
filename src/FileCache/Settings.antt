-- ===== src/FileCache/Settings.antt =====
-- util/mem/options.go: the options of the cache over levels of tables, with the defaults of
-- util/mem/XCache.go.
use gocommon.Base.{ℕ, String, List, [], ◌∷◌, ◌*◌}

-- `XCacheOptions`; the spans are in nanoseconds.
pub record XCacheOptions : Type 0 where
  pub name_early_tfs : String
  pub name_store_tfs : String
  pub name_early_block : String
  pub name_store_block : String
  pub limits_store_temp_fs : ℕ
  pub limits_early_temp_fs : ℕ
  pub span_temp_fs : ℕ
  pub span_call_temp_fs : ℕ
  pub limits_store_block : ℕ
  pub limits_early_block : ℕ
  pub span_block : ℕ
  pub span_call_block : ℕ

abbrev minute : ℕ
minute = 60000000000

-- The defaults of `NewXCache`.
abbrev pub default_options : XCacheOptions
default_options = record {
  name_early_tfs = "/tmp/earlymedia";
  name_store_tfs = "/tmp/storemedia";
  name_early_block = "/data/earlymedia";
  name_store_block = "/data/storemedia";
  limits_store_temp_fs = 14 * 1024 * 1024 * 1024;
  limits_early_temp_fs = 2 * 1024 * 1024 * 1024;
  span_temp_fs = 10 * minute;
  span_call_temp_fs = 10 * minute;
  limits_store_block = 140 * 1024 * 1024 * 1024;
  limits_early_block = 20 * 1024 * 1024 * 1024;
  span_block = 20 * minute;
  span_call_block = 120 * minute;
}

-- The loop of `NewXCache` over its options.
unfoldable pub apply_options : List (XCacheOptions → XCacheOptions) → XCacheOptions → XCacheOptions
apply_options [] o = o
apply_options (f ∷ opts) o = apply_options opts (f o)

-- The options that callers give, each a function that sets one field.
unfoldable pub dir_early_tfs : String → XCacheOptions → XCacheOptions
dir_early_tfs dir o = record o { name_early_tfs = dir }

unfoldable pub dir_store_tfs : String → XCacheOptions → XCacheOptions
dir_store_tfs dir o = record o { name_store_tfs = dir }

unfoldable pub dir_early_block : String → XCacheOptions → XCacheOptions
dir_early_block dir o = record o { name_early_block = dir }

unfoldable pub dir_store_block : String → XCacheOptions → XCacheOptions
dir_store_block dir o = record o { name_store_block = dir }

unfoldable pub limits_early_fs : ℕ → XCacheOptions → XCacheOptions
limits_early_fs l o = record o { limits_early_temp_fs = l }

unfoldable pub limits_store_fs : ℕ → XCacheOptions → XCacheOptions
limits_store_fs l o = record o { limits_store_temp_fs = l }

unfoldable pub limits_early_block : ℕ → XCacheOptions → XCacheOptions
limits_early_block l o = record o { limits_early_block = l }

unfoldable pub limits_store_block : ℕ → XCacheOptions → XCacheOptions
limits_store_block l o = record o { limits_store_block = l }

unfoldable pub span_mem_fs : ℕ → XCacheOptions → XCacheOptions
span_mem_fs s o = record o { span_temp_fs = s }

unfoldable pub span_block : ℕ → XCacheOptions → XCacheOptions
span_block s o = record o { span_block = s }

unfoldable pub span_call_mem_fs : ℕ → XCacheOptions → XCacheOptions
span_call_mem_fs s o = record o { span_call_temp_fs = s }

unfoldable pub span_call_block : ℕ → XCacheOptions → XCacheOptions
span_call_block s o = record o { span_call_block = s }
