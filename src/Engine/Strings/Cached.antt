-- ===== src/Engine/Strings/Cached.antt =====
-- db_str.cpp and cache/lru.h: a string that is read back from the cache, in the mode that keeps the
-- values in the files.
use lightdb.Common.{
  ◌-◌, ◌<◌, Str, Bool, true, Option, none, some, [], ◌≡◌, refl, ap, ◌∙◌, str_eq_self,
}
use lightdb.Common.Map.{Map, find, find-erase}
use lightdb.Storage.Entry.{Entry, string, string_set, new_entry_no_extra, size}
use lightdb.Storage.Status.{Code, k_ok, ok}
use lightdb.Storage.Indexer.{Indexer}
use lightdb.Ds.Strings
use lightdb.Ds.Strings.{put_drawn}
use lightdb.Ds.Strings.Search.{IsSkiplist}
use lightdb.Ds.Strings.Runs.{put_drawn-IsSkiplist, get-put_drawn}
use lightdb.Cache
use lightdb.Cache.{LruCache}
use lightdb.Cache.Gets.{Caches, touched, get-touched}
use lightdb.Cache.Puts.{stored_pair}
use lightdb.Cache.Evictions.{put-stored_pair}
use lightdb.Cache.Runs.{find-stored_pair}
use lightdb.Engine.State.{LightDb, current_time_stamp, check_key_value, store, erase_expiry}
use lightdb.Engine.Store.{store-OnlyFiles}
use lightdb.Engine.Strings.Steps.{
  Run, StrDb, key_value_mem_mode, key_only_mem_mode, set_indexer, put_index, cache_put, lift,
  unset_deadline, pure, ◌>>=◌, ◌>>◌,
}
use lightdb.Engine.Strings.Access.{
  str_write, cache_get, get_found, get_stored, get_val, db_str_set, db_get,
}
use lightdb.Engine.Strings.Laws.{check_str_expired_timeless}
use lightdb.Engine.Strings.Text.{key_passes, short_passes}

-- The database after a string is stored, its index entry made and its value put into the cache.
abbrev pub cached : Str → Entry → StrDb → LightDb → LruCache → StrDb
cached key e s d c =
    let idx : Indexer = record {
      key = e.key;
      value = elim s.mode [ key_value_mem_mode ↦ e.value | key_only_mem_mode ↦ [] ];
      file_id = (d.active string).id;
      offset = (d.active string).write_offset - size e;
    } in
    let (skiplist, drawn) = put_drawn s.rand s.str_idx e.key idx s.drawn in
    record s { db = erase_expiry string key d; str_idx = skiplist; drawn = drawn; cache = c }

cache_put_lem :
    (key value : Str) (s : StrDb) (c : LruCache)
    → s.mode ≡ key_only_mem_mode
    → Cache.put key value s.cache ≡ some c
    → cache_put key value s ≡ some (tt, record s { cache = c })
unfolding cache_put
cache_put_lem key value s c m e =
    ap
      (λ mode. elim mode [
        | key_value_mem_mode ↦ some (tt, s)
        | key_only_mem_mode ↦ elim (Cache.put key value s.cache) [
          | none ↦ none
          | some c1 ↦ some (tt, record s { cache = c1 })
        ]
      ])
      m
    ∙ ap (λ o. elim o [ none ↦ none | some c1 ↦ some (tt, record s { cache = c1 }) ]) e

set_lem :
    (key value : Str) (e : Entry) (s : StrDb) (c : LruCache)
    → s.mode ≡ key_only_mem_mode
    → Cache.put key value s.cache ≡ some c
    → (lift (unset_deadline key) >> (set_indexer e >> (cache_put key value >> pure k_ok))) s
      ≡ some (k_ok, cached key e s s.db c)
unfolding set_indexer put_index
set_lem key value e s c m r =
    let s1 = cached key e s s.db s.cache in rw (◌>>=◌, ◌>>◌, cache_put_lem key value s1 c m r) refl

-- A read that the cache answers.
get_stored_hit :
    (key value : Str) (idx : Indexer) (s : StrDb) (c : LruCache)
    → Cache.get key s.cache ≡ some (some value, c)
    → get_stored key idx s ≡ some ((k_ok, some true, some value), record s { cache = c })
unfolding get_stored cache_get
get_stored_hit key value idx s c e =
    let hit : cache_get key s ≡ some (some value, record s { cache = c }) =
      ap (λ o. elim o [ none ↦ none | some r ↦ some (r.0, record s { cache = r.1 }) ]) e in
    rw (◌>>=◌, hit) refl

get_val_hit :
    (key value : Str) (idx : Indexer) (s : StrDb) (c : LruCache)
    → s.mode ≡ key_only_mem_mode
    → find (s.db.expires string) key ≡ none
    → Strings.get s.str_idx key ≡ some idx
    → Cache.get key s.cache ≡ some (some value, c)
    → get_val key s ≡ some ((k_ok, some true, some value), record s { cache = c })
unfolding get_val get_found
get_val_hit key value idx s c m n f e =
    rw (get_val, f)
      (rw (◌>>=◌, check_str_expired_timeless key s n)
        (ap
            (λ mode.
              (elim mode as (λ x. Run (Code × Option Bool × Option Str)) [
                | key_value_mem_mode ↦ pure (k_ok, some true, some idx.value)
                | key_only_mem_mode ↦ get_stored key idx
              ])
                s)
            m
          ∙ get_stored_hit key value idx s c e))

get_hit :
    (key value : Str) (idx : Indexer) (s : StrDb) (c : LruCache)
    → s.mode ≡ key_only_mem_mode
    → ok (check_key_value s.db.config key []) ≡ true
    → find (s.db.expires string) key ≡ none
    → Strings.get s.str_idx key ≡ some idx
    → Cache.get key s.cache ≡ some (some value, c)
    → db_get key s ≡ some ((k_ok, some true, some value), record s { cache = c })
unfolding db_get
get_hit key value idx s c m h n f e =
    rw h (rw (◌>>=◌, check_str_expired_timeless key s n) (get_val_hit key value idx s c m n f e))

set_run :
    (key value : Str) (s : StrDb) (c : LruCache)
    → s.mode ≡ key_only_mem_mode
    → ok (check_key_value s.db.config key value) ≡ true
    → Cache.put key value s.cache ≡ some c
    → let (now, d1) = current_time_stamp s.db in
      let e = new_entry_no_extra now key value string string_set in
      (store e d1).0 ≡ k_ok → db_str_set key value s ≡ some (k_ok, cached key e s (store e d1).1 c)
unfolding db_str_set str_write
set_run key value s c m h r stored =
    let (now, d1) = current_time_stamp s.db in
    let e = new_entry_no_extra now key value string string_set in
    let s1 = record s { db = (store e d1).1 } in
    rw h (rw (◌>>=◌, ap ok stored) (set_lem key value e s1 c m r))

-- In the mode that keeps the values in the files, with a cache that holds the pairs of a list
-- and has room for one at least, and arguments that pass the checks: if the store of the entry
-- succeeds, StrSet returns kOk, and the Get that follows returns the value from the cache,
-- without a call of the kernel; the cache then holds the pairs after a put and a get of the key.
pub db_get-db_str_set_cached :
    (key value : Str) (s : StrDb) (m : Map Str)
    → s.mode ≡ key_only_mem_mode
    → IsSkiplist s.str_idx
    → Caches s.cache m
    → 0 < s.cache.capacity
    → ok (check_key_value s.db.config key value) ≡ true
    → (let (now, d1) = current_time_stamp s.db in
        (store (new_entry_no_extra now key value string string_set) d1).0 ≡ k_ok)
    → (s1 : StrDb) × (s2 : StrDb) × (db_str_set key value s ≡ some (k_ok, s1))
      × (db_get key s1 ≡ some ((k_ok, some true, some value), s2))
      × (s2.db.outcomes ≡ s1.db.outcomes)
      × IsSkiplist s2.str_idx
      × Caches s2.cache (touched key (stored_pair s.cache.capacity key value m))
unfolding new_entry_no_extra current_time_stamp
db_get-db_str_set_cached key value s m mode w cs room h stored =
    let (now, d1) = current_time_stamp s.db in
    let e = new_entry_no_extra now key value string string_set in
    let d2 = (store e d1).1 in
    let (c1, put, same, cs1) = put-stored_pair key value s.cache m cs in
    let (c2, got, _, cs2) = get-touched key c1 (stored_pair s.cache.capacity key value m) cs1 in
    let s1 = cached key e s d2 c1 in
    let k = key_passes s.db.config key value h in
    let idx : Indexer = record {
      key = key;
      value = elim s.mode [ key_value_mem_mode ↦ value | key_only_mem_mode ↦ [] ];
      file_id = (d2.active string).id;
      offset = (d2.active string).write_offset - size e;
    } in
    let there =
      get-put_drawn s.rand s.str_idx key key idx s.drawn w k k ∙ rw (str_eq_self key) refl in
    let found = ap (λ o. some (o, c2)) (find-stored_pair s.cache.capacity key value m room) in
    (
      s1,
      record s1 { cache = c2 },
      set_run key value s c1 mode h put stored,
      get_hit key value idx s1 c2 mode
          (rw (store-OnlyFiles e d1).config (short_passes s.db.config key value h))
          (find-erase (d2.expires string) key key ∙ rw (str_eq_self key) refl) there (got ∙ found),
      refl,
      put_drawn-IsSkiplist s.rand s.str_idx key idx s.drawn w k,
      cs2,
    )
