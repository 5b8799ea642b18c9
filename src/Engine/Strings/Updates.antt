-- ===== src/Engine/Strings/Updates.antt =====
-- db_str.cpp: `MSet`, `MGet`, `Append`, `Remove`, `Expire` and `TTL` of `LightDB`; idx.cpp:
-- `buildStringIndex`.
use lightdb.Common.Int.{ℤ, pos, negsuc}
use lightdb.Common.Map.{find_or, has, assign}
use lightdb.Common.{
  ℕ, ◌+◌, ◌-◌, ◌/◌, ◌%◌, ◌^◌, ltb, length, Str, str_eq, Bool, true, false, Option, none, some, List,
  [], ◌∷◌, ◌++◌, if◌then◌else◌,
}
use lightdb.Storage.Entry.{
  string, string_set, string_rem, string_expire, Entry, new_entry_with_expire,
}
use lightdb.Storage.Status.{Code, k_ok, ok}
use lightdb.Engine.State.{
  Action, set_at, current_time_stamp, check_key_value, store, store_now, deadline_of,
}
use lightdb.Engine.Index.{has_mark}
use lightdb.Engine.Strings.Steps.{
  Run, ◌>>=◌, ◌>>◌, pure, lift, asks, written_var, erase_index, put_index, cache_put, cache_remove,
  check_str_expired, set_indexer, unset_deadline, key_value_mem_mode, key_only_mem_mode,
}
use lightdb.Engine.Strings.Access.{str_write, db_str_set, get_val, db_get}

-- Whether a pair of `MSet` sets `skip`: the key holds the value, where values are in memory. The
-- status of `getVal` comes first; the read of an unwritten `suc` is undefined.
unfoldable pub m_set_skips : Str → Str → Run (Code × Bool)
m_set_skips key value = do
  mode ← asks λ s. s.mode
  elim mode [
    | key_only_mem_mode ↦ pure (k_ok, false)
    | key_value_mem_mode ↦ do
      (status, suc, tmp) ← get_val key
      if ok status
          then (do
            found ← written_var suc
            pure (
              k_ok,
              if found then elim tmp [ none ↦ false | some v ↦ str_eq v value ] else false,
            ))
          else pure (status, false)
  ]

-- The first loop of `MSet`; `skip` is the variable, which nothing sets to false. A last key without
-- a value reads behind the end.
unfoldable pub m_set_collect :
    List Str → Option Bool → List (Str × Str) → Run (Code × List (Str × Str))
m_set_collect [] skip pairs = pure (k_ok, pairs)
m_set_collect (key ∷ []) skip pairs = λ s. none
m_set_collect (key ∷ value ∷ values) skip pairs = do
  c ← asks λ s. check_key_value s.db.config key value
  if ok c
      then (do
        (status, same) ← m_set_skips key value
        let skip1 : Option Bool = if same then some true else skip
        if ok status
            then (do
              skipped ← written_var skip1
              m_set_collect values skip1 (if skipped then pairs else pairs ++ (key, value) ∷ []))
            else pure (status, pairs))
      else pure (c, pairs)

-- The second loop of `MSet`.
unfoldable pub m_set_store : List (Str × Str) → Run Code
m_set_store [] = pure k_ok
m_set_store ((key, value) ∷ pairs) = do
  status ← str_write key value
  if ok status then m_set_store pairs else pure status

-- The status built for an odd number of arguments is dropped.
unfoldable pub db_m_set : List Str → Run Code
db_m_set values = do
  (status, pairs) ← m_set_collect values none []
  if ok status then m_set_store pairs else pure status

unfoldable pub check_keys : List Str → Run Code
check_keys [] = pure k_ok
check_keys (key ∷ keys) = do
  c ← asks λ s. check_key_value s.db.config key []
  if ok c then check_keys keys else pure c

-- The loop of `MGet`. The value of a key that is not found is empty.
unfoldable pub m_get_loop : List Str → List Str → List Bool → Run (Code × List Str × List Bool)
m_get_loop [] values sucs = pure (k_ok, values, sucs)
m_get_loop (key ∷ keys) values sucs = do
  (status, suc, value) ← db_get key
  if ok status
      then (do
        found ← written_var suc
        let tmp : Str = elim value [ none ↦ [] | some v ↦ v ]
        m_get_loop keys (values ++ tmp ∷ []) (sucs ++ found ∷ []))
      else pure (status, values, sucs)

unfoldable pub db_m_get : List Str → List Str → List Bool → Run (Code × List Str × List Bool)
db_m_get keys values sucs = do
  c ← check_keys keys
  if ok c then m_get_loop keys values sucs else pure (c, values, sucs)

-- The second result is `length`, an `int`, unless left unwritten.
unfoldable pub db_append : Str → Str → Run (Code × Option ℕ)
db_append key value = do
  c ← asks λ s. check_key_value s.db.config key value
  if ok c
      then (do
        (status, suc, old) ← db_get key
        if ok status
            then (do
              exist ← written_var suc
              let old_value : Str = if exist then elim old [ none ↦ [] | some v ↦ v ] else []
              let new_value = old_value ++ value
              set_status ← db_str_set key new_value
              pure (set_status, some (length new_value)))
            else pure (status, none))
      else pure (c, none)

-- The part of `Remove` behind its store.
unfoldable pub str_drop : Str → Run (Code × Option Bool)
str_drop key = do
  found ← erase_index key
  lift (unset_deadline key)
  cache_remove key
  pure (k_ok, some found)

-- The second result is `suc`, unwritten when the store fails.
unfoldable pub db_remove : Str → Run (Code × Option Bool)
db_remove key = do
  c ← asks λ s. check_key_value s.db.config key []
  if ok c
      then (do
        status ← lift (store_now key [] string string_rem)
        if ok status then str_drop key else pure (status, none))
      else pure (k_ok, some false)

abbrev pub set_deadline : Str → ℕ → Action (Unit {0})
set_deadline key deadline d =
    (tt, record d { expires = set_at d.expires string (assign (d.expires string) key deadline) })

-- The part of `Expire` behind its tests.
unfoldable pub str_mark : Str → Str → ℕ → Run Code
str_mark key value duration = do
  now ← lift current_time_stamp
  let deadline = deadline_of now duration
  let e = new_entry_with_expire key value deadline string string_expire
  status ← lift (store e)
  if ok status
      then (do set_indexer e; lift (set_deadline key deadline); cache_put key value; pure k_ok)
      else pure status

-- `suc` is the caller's variable, if that has been written; an expired key leaves it as it was.
unfoldable pub db_expire : Str → ℕ → Option Bool → Run (Code × Option Bool)
db_expire key duration suc = do
  (status, found, value) ← get_val key
  let suc1 : Option Bool = elim found [ none ↦ suc | some b ↦ some b ]
  let text : Str = elim value [ none ↦ [] | some v ↦ v ]
  if ok status
      then (do
        found1 ← written_var suc1
        if found1
            then (do marked ← str_mark key text duration; pure (marked, some true))
            else pure (k_ok, some false))
      else pure (status, suc1)

unfoldable pub db_ttl : Str → Run ℤ
db_ttl key = do
  known ← asks λ s. has (s.db.expires string) key
  deadline ← asks λ s. find_or (s.db.expires string) key 0
  if known
      then (do
        expired ← check_str_expired key
        if expired then pure (negsuc 1) else (do
          now ← lift current_time_stamp
          pure (pos ((deadline + 2 ^ 64 - now) % 2 ^ 64 / 1000))))
      else pure (negsuc 1)

-- `buildIndex` and `buildStringIndex` on an entry that was read at an offset of a file.
unfoldable pub build_string_index : ℕ → ℕ → Entry → Run (Unit {0})
build_string_index file_id offset e =
    if has_mark e string_set
    then put_index e.key
        (record { key = e.key; value = e.value; file_id = file_id; offset = offset })
    else if has_mark e string_rem
    then erase_index e.key >> pure tt
    else if has_mark e string_expire
    then (do
      now ← lift current_time_stamp
      if ltb e.time_stamp now
          then erase_index e.key >> pure tt
          else lift (set_deadline e.key e.time_stamp))
    else pure tt
