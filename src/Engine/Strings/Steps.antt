-- ===== src/Engine/Strings/Steps.antt =====
-- db_str.cpp: the state of the string operations, and the steps that they share: the string branch of
-- `CheckExpired`, `SetIndexer` and the calls of the index and the cache. `none` is what the code
-- leaves undefined: a deleted node is followed, or a variable read that was never written.
use lightdb.Ds.Strings.{erased, tail_deleted}
use lightdb.Common.{ℕ, ◌-◌, Str, Bool, true, false, Option, none, some, [], if◌then◌else◌}
use lightdb.Storage.Entry.{string, Entry, size}
use lightdb.Storage.Indexer.{Indexer}
use lightdb.Ds.Strings
use lightdb.Ds.Strings.{StrSkiplist, put_drawn}
use lightdb.Cache
use lightdb.Cache.{LruCache}
use lightdb.Engine.State.{LightDb, Action, check_expired, erase_expiry}

pub data IndexMode : Type 0 where
  key_value_mem_mode key_only_mem_mode : IndexMode

-- `drawn` numbers of `rand` have been drawn.
pub record StrDb : Type 0 where
  pub db : LightDb
  pub str_idx : StrSkiplist
  pub mode : IndexMode
  pub cache : LruCache
  pub rand : ℕ → ℕ
  pub drawn : ℕ

abbrev pub Run {ℓ} : Type ℓ → Type ℓ
Run A = StrDb → Option (A × StrDb)

infixl 5 ◌>>=◌ ◌>>◌
abbrev pub ◌>>=◌ {ℓ κ} : {A : Type ℓ} {B : Type κ} → Run A → (A → Run B) → Run B
◌>>=◌ m f s = elim (m s) [ none ↦ none | some (a, s1) ↦ f a s1 ]

abbrev pub ◌>>◌ {ℓ κ} : {A : Type ℓ} {B : Type κ} → Run A → Run B → Run B
m >> n = m >>= λ _. n

abbrev pub pure {ℓ} : {A : Type ℓ} → A → Run A
pure a s = some (a, s)

-- A step of the rest of the database.
abbrev pub lift {ℓ} : {A : Type ℓ} → Action A → Run A
lift f s = let (a, d) = f s.db in some (a, record s { db = d })

abbrev pub asks {ℓ} : {A : Type ℓ} → (StrDb → A) → Run A
asks f s = some (f s, s)

-- A variable that must have been written.
abbrev pub written_var {ℓ} : {A : Type ℓ} → Option A → Run A
written_var o s = elim o [ none ↦ none | some a ↦ some (a, s) ]

-- `strIdx.indexes->erase(key)`; the calls on an index without its tail are not modelled.
unfoldable pub erase_index : Str → Run Bool
erase_index key s = elim (Strings.erase s.str_idx key) [
  | tail_deleted ↦ none
  | erased idx found ↦ some (found, record s { str_idx = idx })
]

-- `strIdx.indexes->put(key, idx)`
unfoldable pub put_index : Str → Indexer → Run (Unit {0})
put_index key idx s =
    let (skiplist, drawn) = put_drawn s.rand s.str_idx key idx s.drawn in
    some (tt, record s { str_idx = skiplist; drawn = drawn })

-- The steps of the cache, in the mode that has one.
unfoldable pub cache_put : Str → Str → Run (Unit {0})
cache_put key value s = elim s.mode [
  | key_value_mem_mode ↦ some (tt, s)
  | key_only_mem_mode ↦ elim (Cache.put key value s.cache) [
    | none ↦ none
    | some c ↦ some (tt, record s { cache = c })
  ]
]

unfoldable pub cache_remove : Str → Run (Unit {0})
cache_remove key s = elim s.mode [
  | key_value_mem_mode ↦ some (tt, s)
  | key_only_mem_mode ↦ elim (Cache.remove key s.cache) [
    | none ↦ none
    | some c ↦ some (tt, record s { cache = c })
  ]
]

-- `CheckExpired` of a string: what it does to the files and deadlines, and the index.
unfoldable pub check_str_expired : Str → Run Bool
check_str_expired key = do
  expired ← lift (check_expired key string)
  if expired then erase_index key >> pure true else pure false

-- The place of an entry just stored. `WriteOffset` is past the entry.
unfoldable pub set_indexer : Entry → Run (Unit {0})
set_indexer e s =
    let f = s.db.active string in
    let value : Str = elim s.mode [ key_value_mem_mode ↦ e.value | key_only_mem_mode ↦ [] ] in
    put_index e.key
      (record { key = e.key; value = value; file_id = f.id; offset = f.write_offset - size e }) s

abbrev pub unset_deadline : Str → Action (Unit {0})
unset_deadline key d = (tt, erase_expiry string key d)
