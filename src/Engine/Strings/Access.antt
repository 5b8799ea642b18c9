-- ===== src/Engine/Strings/Access.antt =====
-- db_str.cpp: `StrSet`, `SetNx`, `Get` and `GetSet` of `LightDB`, with `StrExist` and `getVal`. Reading
-- does not move the offset of a file.
use lightdb.Common.{
  ℕ, ◌==◌, Str, Bool, true, false, Option, none, some, List, [], ◌∷◌, if◌then◌else◌,
}
use lightdb.Storage.Entry.{string, string_set, new_entry_no_extra, blank}
use lightdb.Storage.Status.{Code, k_ok, ok}
use lightdb.Storage.File.{DbFile, read}
use lightdb.Storage.Indexer.{Indexer}
use lightdb.Ds.Strings
use lightdb.Ds.Strings.{StrSkiplist, put_drawn}
use lightdb.Cache
use lightdb.Cache.{LruCache}
use lightdb.Engine.State.{current_time_stamp, check_key_value, store}
use lightdb.Engine.Strings.Steps.{
  StrDb, Run, ◌>>=◌, ◌>>◌, pure, lift, asks, cache_put, check_str_expired, set_indexer,
  unset_deadline, key_value_mem_mode, key_only_mem_mode,
}

-- What follows the checks of `StrSet`, and the body of the second loop of `MSet`.
unfoldable pub str_write : Str → Str → Run Code
str_write key value = do
  now ← lift current_time_stamp
  let e = new_entry_no_extra now key value string string_set
  status ← lift (store e)
  if ok status
      then (do lift (unset_deadline key); set_indexer e; cache_put key value; pure k_ok)
      else pure status

unfoldable pub db_str_set : Str → Str → Run Code
db_str_set key value = do
  c ← asks λ s. check_key_value s.db.config key value
  if ok c then str_write key value else pure c

unfoldable pub str_exist : Str → Run Bool
str_exist key = do
  c ← asks λ s. check_key_value s.db.config key []
  found ← asks λ s. Strings.get s.str_idx key
  pure (if ok c then elim found [ none ↦ false | some v ↦ true ] else false)

-- The second result is `suc`, unwritten when the set fails.
unfoldable pub db_str_set_nx : Str → Str → Run (Code × Option Bool)
db_str_set_nx key value = do
  exist ← str_exist key
  if exist
      then pure (k_ok, some false)
      else (do status ← db_str_set key value; pure (status, if ok status then some true else none))

-- The file of an index entry.
unfoldable pub file_with : ℕ → List DbFile → Option DbFile
file_with id [] = none
file_with id (f ∷ fs) = if f.id == id then some f else file_with id fs

unfoldable pub file_of : ℕ → StrDb → Option DbFile
file_of id s =
    let f = s.db.active string in if f.id == id then some f else file_with id (s.db.archived string)

-- The read of the entry's value from its file.
unfoldable pub read_value_at : Indexer → Run (Code × Str)
read_value_at idx s = elim (file_of idx.file_id s) [
  | none ↦ none
  | some f ↦
      let (status, e, io) = read (record { file = f; outcomes = s.db.outcomes }) idx.offset blank in
      some ((status, e.value), record s { db = record s.db { outcomes = io.outcomes } })
]

unfoldable pub cache_get : Str → Run (Option Str)
cache_get key s = elim (Cache.get key s.cache) [
  | none ↦ none
  | some (v, c) ↦ some (v, record s { cache = c })
]

-- The branch of `getVal` that looks in the cache first, then in the file.
unfoldable pub get_stored : Str → Indexer → Run (Code × Option Bool × Option Str)
get_stored key idx = do
  cached ← cache_get key
  elim cached [
    | some v ↦ pure (k_ok, some true, some v)
    | none ↦ do
      (status, value) ← read_value_at idx
      if ok status
          then cache_put key value >> pure (k_ok, some true, some value)
          else pure (status, some true, none)
  ]

-- The part of `getVal` after the index has given an entry: `suc` and `value`, each unless left
-- unwritten.
unfoldable pub get_found : Str → Indexer → Run (Code × Option Bool × Option Str)
get_found key idx = do
  expired ← check_str_expired key
  mode ← asks λ s. s.mode
  if expired then pure (k_ok, none, none) else elim mode [
    | key_value_mem_mode ↦ pure (k_ok, some true, some idx.value)
    | key_only_mem_mode ↦ get_stored key idx
  ]

unfoldable pub get_val : Str → Run (Code × Option Bool × Option Str)
get_val key s = elim (Strings.get s.str_idx key) [
  | none ↦ some ((k_ok, some false, none), s)
  | some idx ↦ get_found key idx s
]

unfoldable pub db_get : Str → Run (Code × Option Bool × Option Str)
db_get key = do
  c ← asks λ s. check_key_value s.db.config key []
  if ok c
      then (do
        expired ← check_str_expired key
        if expired then pure (k_ok, some false, none) else get_val key)
      else pure (k_ok, some false, none)

unfoldable pub db_get_set : Str → Str → Run (Code × Option Bool × Option Str)
db_get_set key new_value = do
  (status, suc, old) ← db_get key
  if ok status
      then (do written ← db_str_set key new_value; pure (written, suc, old))
      else pure (status, suc, old)
