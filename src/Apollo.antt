-- ===== src/Apollo.antt =====
-- apollo-config/cache.go and base/change_event.go: the cache of a configuration, the changes that a
-- new configuration makes, and the channel of change events. The cache is freecache's, through the
-- operations that the code calls.
pub mod Hosts
pub mod Recovery
pub mod Diff
use gocommon.Base.{
  ℕ, suc, ◌≡◌, Bool, true, false, not, ◌&&◌, ◌||◌, Option, none, some, List, [], ◌∷◌, ◌++◌, String,
  string_eq, nat_eq, ◌==◌, ltb, if◌then◌else◌, length, any, lookup, insert, remove,
}

-- `ConfigChange`, by its three constructors.
pub data ConfigChange : Type 0 where
  added : String → ConfigChange
  modified : String → String → ConfigChange
  deleted : String → ConfigChange

pub record ChangeEvent : Type 0 where
  pub namespace : String
  pub changes : List (String × ConfigChange)

-- `notifyChan`: nil, or what it holds, at most one event.
abbrev pub NotifyChan : Type 0
NotifyChan = Option (List ChangeEvent)

-- `ListenChangeEvent`
unfoldable pub listen_change_event : NotifyChan → NotifyChan
listen_change_event none = some []
listen_change_event (some es) = some es

-- `PushChangeEvent`; `none` where it waits for a listener.
unfoldable pub push_change_event : ChangeEvent → NotifyChan → Option NotifyChan
push_change_event e none = some none
push_change_event e (some es) = if ltb (length es) 1 then some (some (es ++ e ∷ [])) else none

-- The operations of `freecache.Cache`.
pub record FreeCache (C : Type 0) : Type 0 where
  pub get : String → C → Option String
  pub set : String → String → ℕ → C → C
  pub del : String → C → C
  pub keys : C → List String
  pub entry_count : C → ℕ

abbrev pub config_cache_expire_time : ℕ
config_cache_expire_time = 120

pub record ApolloConnConfig : Type 0 where
  pub app_id : String
  pub cluster : String
  pub namespace_name : String
  pub release_key : String

pub record ApolloConfig : Type 0 where
  pub conn : ApolloConnConfig
  pub configurations : Option (List (String × String))

-- What the loop over the new configuration writes: the cache, the changes, the old keys.
pub record Progress (C : Type 0) : Type 0 where
  pub store : C
  pub changes : List (String × ConfigChange)
  pub old_keys : List (String × Bool)

-- The old keys, as a set.
unfoldable pub key_set : List String → List (String × Bool)
unfolding insert
key_set [] = []
key_set (key ∷ keys) = insert key true (key_set keys)

abbrev pub text_or_empty : Option String → String
text_or_empty none = ""
text_or_empty (some v) = v

abbrev pub is_empty_config : Option (List (String × String)) → Bool
is_empty_config none = true
is_empty_config (some m) = length m == 0

abbrev pub entries_of : Option (List (String × String)) → List (String × String)
entries_of none = []
entries_of (some m) = m

abbrev pub changes_of : Option (List (String × ConfigChange)) → List (String × ConfigChange)
changes_of none = []
changes_of (some changes) = changes

-- The change that a round writes, by whether the key is old.
unfoldable pub note_change :
    String
    → String
    → String
    → Option Bool
    → List (String × ConfigChange)
    → List (String × ConfigChange)
unfolding insert
note_change key value old none changes = insert key (added value) changes
note_change key value old (some _) changes =
    if old == value then changes else insert key (modified old value) changes

module _ {C : Type 0} (cache : FreeCache C) where
  -- One round of the loop over the new configuration.
  unfoldable pub put_config : ℕ → String → String → Progress C → Progress C
  unfolding note_change lookup remove
  put_config expire_time key value p = record {
    store = cache.set key value expire_time p.store;
    changes =
        note_change key value (text_or_empty (cache.get key p.store)) (lookup key p.old_keys)
          p.changes;
    old_keys = remove key p.old_keys;
  }

  unfoldable pub put_configs : ℕ → List (String × String) → Progress C → Progress C
  unfolding put_config
  put_configs expire_time [] p = p
  put_configs expire_time ((key, value) ∷ m) p =
      put_configs expire_time m (put_config expire_time key value p)

  -- The loop over the old keys that are left.
  unfoldable pub delete_keys :
      List (String × Bool) → C × List (String × ConfigChange) → C × List (String × ConfigChange)
  unfolding insert
  delete_keys [] (c, changes) = (c, changes)
  delete_keys ((key, _) ∷ mp) (c, changes) =
      delete_keys mp
        (cache.del key c, insert key (deleted (text_or_empty (cache.get key c))) changes)

  -- `updateApolloConfigCache`; a result of `none` is nil.
  unfoldable pub update_apollo_config_cache :
      Option (List (String × String)) → ℕ → C → C × Option (List (String × ConfigChange))
  unfolding key_set put_configs delete_keys
  update_apollo_config_cache configurations expire_time c =
      if is_empty_config configurations && cache.entry_count c == 0
      then (c, none)
      else (let p =
            put_configs expire_time (entries_of configurations)
              (record { store = c; changes = []; old_keys = key_set (cache.keys c) }) in
          let (c', changes) = delete_keys p.old_keys (p.store, p.changes) in (c', some changes))

  -- The push of `updateApolloConfig`, where there are changes; `none` is a push that waits.
  unfoldable pub push_changes :
      String → Option (List (String × ConfigChange)) → NotifyChan → Option NotifyChan
  unfolding push_change_event
  push_changes namespace change_list chan =
      if ltb 0 (length (changes_of change_list))
      then push_change_event (record { namespace = namespace; changes = changes_of change_list })
          chan
      else some chan

  -- `updateApolloConfig`: the cache, the connection and the channel, and whether there is a file to
  -- write, which a goroutine does. A nil configuration changes nothing.
  unfoldable pub update_apollo_config :
      Option ApolloConfig
      → Bool
      → C
      → Option ApolloConnConfig
      → NotifyChan
      → Option (C × Option ApolloConnConfig × NotifyChan × Bool)
  unfolding update_apollo_config_cache push_changes
  update_apollo_config none is_backup c current chan = some (c, current, chan, false)
  update_apollo_config (some config) is_backup c current chan =
      let (c', change_list) =
        update_apollo_config_cache config.configurations config_cache_expire_time c in
      elim (push_changes config.conn.namespace_name change_list chan) [
        | none ↦ none
        | some chan' ↦ some (c', some config.conn, chan', is_backup)
      ]

  -- `getConfigValue` and `getValue`: the empty text on an error.
  unfoldable pub get_value : String → C → String
  get_value key c = text_or_empty (cache.get key c)

  unfoldable pub get_string_value : String → String → C → String
  unfolding get_value
  get_string_value key default c = if get_value key c == "" then default else get_value key c

  -- `GetIntValue`, `GetFloatValue` and `GetBoolValue`, by the function of strconv that they call.
  unfoldable pub get_parsed_value : {A : Type 0} → (String → Option A) → String → A → C → A
  unfolding get_value
  get_parsed_value parse key default c = elim (parse (get_value key c)) [
    | none ↦ default
    | some v ↦ v
  ]
