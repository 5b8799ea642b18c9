-- ===== src/Engine/Strings/Laws.antt =====
-- db_str.cpp: what the string operations do where the values are kept in memory.
use lightdb.Ds.Strings.{erased, tail_deleted}
use lightdb.Ds.Strings.{put_drawn}
use lightdb.Common.{
  ◌-◌, Str, Bool, true, false, Option, none, some, ◌≡◌, refl, if◌then◌else◌, Bool-cases, inl, inr,
  ap,
}
use lightdb.Common.Map.{find, has}
use lightdb.Storage.Entry.{string, string_set, new_entry_no_extra, Entry, size}
use lightdb.Storage.Status.{Code, k_ok, ok}
use lightdb.Storage.Indexer.{Indexer}
use lightdb.Ds.Strings
use lightdb.Cache
use lightdb.Engine.State.{LightDb, current_time_stamp, check_expired, store, erase_expiry}
use lightdb.Engine.Strings.Steps.{
  StrDb, key_value_mem_mode, key_only_mem_mode, set_indexer, cache_put, put_index,
  check_str_expired, erase_index, unset_deadline, lift, ◌>>◌, pure, ◌>>=◌, cache_remove,
}
use lightdb.Engine.Strings.Access.{str_write, get_val, get_found}

-- The index entry of a string just stored.
abbrev pub placed : Entry → LightDb → Indexer
placed e d = record {
  key = e.key;
  value = e.value;
  file_id = (d.active string).id;
  offset = (d.active string).write_offset - size e;
}

-- The database after an entry that sets a string is stored, from the database after the store.
abbrev pub kept : Str → Entry → StrDb → LightDb → StrDb
kept key e s d =
    let (skiplist, drawn) = put_drawn s.rand s.str_idx e.key (placed e d) s.drawn in
    record s { db = erase_expiry string key d; str_idx = skiplist; drawn = drawn }

-- The steps after a store that succeeded.
keep_lem :
    (e : Entry) (key value : Str) (s : StrDb)
    → s.mode ≡ key_value_mem_mode
    → (lift (unset_deadline key) >> (set_indexer e >> (cache_put key value >> pure k_ok))) s
      ≡ some (k_ok, kept key e s s.db)
unfolding set_indexer cache_put put_index
keep_lem e key value s m = rw m refl

pub str_write_lem :
    (key value : Str) (s : StrDb)
    → s.mode ≡ key_value_mem_mode
    → let (now, d1) = current_time_stamp s.db in
      let e = new_entry_no_extra now key value string string_set in
      let (status, d2) = store e d1 in
      str_write key value s
      ≡ some (if ok status then (k_ok, kept key e s d2) else (status, record s { db = d2 }))
unfolding str_write
str_write_lem key value s m =
    let (now, d1) = current_time_stamp s.db in
    let e = new_entry_no_extra now key value string string_set in
    let (status, d2) = store e d1 in
    elim (Bool-cases (ok status)) [
      | inl h ↦ rw h (keep_lem e key value (record s { db = d2 }) m)
      | inr h ↦ rw h refl
    ]

-- A string without a deadline does not expire.
pub check_str_expired_timeless :
    (key : Str) (s : StrDb)
    → find (s.db.expires string) key ≡ none
    → check_str_expired key s ≡ some (false, s)
unfolding check_str_expired check_expired
check_str_expired_timeless key s h = rw (has, h) refl

get_found_timeless :
    (key : Str) (idx : Indexer) (s : StrDb)
    → s.mode ≡ key_value_mem_mode
    → find (s.db.expires string) key ≡ none
    → get_found key idx s ≡ some ((k_ok, some true, some idx.value), s)
unfolding get_found
get_found_timeless key idx s m h = rw (◌>>=◌, check_str_expired_timeless key s h, m) refl

-- The read of a string without a deadline.
pub get_val_timeless :
    (key : Str) (s : StrDb)
    → s.mode ≡ key_value_mem_mode
    → find (s.db.expires string) key ≡ none
    → get_val key s
      ≡ elim (Strings.get s.str_idx key)
          as (λ x. Option ((Code × Option Bool × Option Str) × StrDb)) [
            | none ↦ some ((k_ok, some false, none), s)
            | some idx ↦ some ((k_ok, some true, some idx.value), s)
          ]
unfolding get_val
get_val_timeless key s m h = go (Strings.get s.str_idx key) refl
  where
    go :
        (o : Option Indexer)
        → Strings.get s.str_idx key ≡ o
        → get_val key s ≡ elim o as (λ x. Option ((Code × Option Bool × Option Str) × StrDb)) [
          | none ↦ some ((k_ok, some false, none), s)
          | some idx ↦ some ((k_ok, some true, some idx.value), s)
        ]
    go none e = rw (get_val, e) refl
    go (some idx) e = rw (get_val, e) (get_found_timeless key idx s m h)

pub erase_index_lem :
    (key : Str) (s : StrDb) (idx : Strings.StrSkiplist) (found : Bool)
    → Strings.erase s.str_idx key ≡ erased idx found
    → erase_index key s ≡ some (found, record s { str_idx = idx })
unfolding erase_index
erase_index_lem key s idx found e =
    ap (λ o. elim o [ tail_deleted ↦ none | erased i f ↦ some (f, record s { str_idx = i }) ]) e

-- There is no cache where the values are kept in memory.
pub cache_remove_lem :
    (key : Str) (s : StrDb) → s.mode ≡ key_value_mem_mode → cache_remove key s ≡ some (tt, s)
unfolding cache_remove
cache_remove_lem key s m =
    ap
      (λ mode. elim mode [
        | key_value_mem_mode ↦ some (tt, s)
        | key_only_mem_mode ↦ elim (Cache.remove key s.cache) [
          | none ↦ none
          | some c ↦ some (tt, record s { cache = c })
        ]
      ])
      m
