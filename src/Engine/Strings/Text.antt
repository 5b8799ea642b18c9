-- ===== src/Engine/Strings/Text.antt =====
-- db_str.cpp: the string operations against a map, where the values are kept in memory, the kernel
-- fails no call and no string has a deadline.
pub mod Removal
pub mod Runs
pub mod Refinement
use lightdb.Common.{
  ℕ, suc, ◌+◌, ◌<◌, ◌^◌, ltb, ◌==◌, Str, str_eq, str_eq_iff, length, Bool, true, false, Option,
  none, some, List, [], ◌∷◌, ◌++◌, ◌≡◌, refl, sym, ap, ◌∙◌, ◌≢◌, arith, if◌then◌else◌, Bool-cases,
  Option-cases, inl, inr,
}
use lightdb.Common.Map.{Map, find, find_or, has, assign, erase, find-assign, find-erase}
use lightdb.Storage.Entry.{
  Entry, string, string_set, string_rem, new_entry_no_extra, OperationType, new_entry_now,
}
use lightdb.Storage.Status.{Code, k_ok, ok}
use lightdb.Storage.Indexer.{Indexer}
use lightdb.Ds.Strings
use lightdb.Ds.Strings.Search.{IsSkiplist}
use lightdb.Ds.Strings.Runs.{put_drawn-IsSkiplist, get-put_drawn}
use lightdb.Ds.Strings.Erase.{dropped, erase-dropped, dropped-IsSkiplist, get-dropped}
use lightdb.Engine.State.{
  LightDb, Config, current_time_stamp, check_key_value, store, erase_expiry, store_now,
}
use lightdb.Engine.Store.{store-OnlyFiles}
use lightdb.Engine.Journal.{Filed, Good, store-Filed, new_entry_now-Good}
use lightdb.Engine.Strings.Steps.{StrDb, key_value_mem_mode, ◌>>=◌, erase_index, cache_remove}
use lightdb.Engine.Strings.Access.{db_str_set, db_get, str_write, str_exist}
use lightdb.Engine.Strings.Updates.{db_remove}
use lightdb.Engine.Strings.Laws.{
  str_write_lem, kept, placed, check_str_expired_timeless, get_val_timeless,
}

abbrev pub text_of : Option Indexer → Option Str
text_of none = none
text_of (some idx) = some idx.value

-- The strings of the database are those of a map.
pub record IsText (s : StrDb) (m : Map Str) : Type 0 where
  pub mode : s.mode ≡ key_value_mem_mode
  pub whole : IsSkiplist s.str_idx
  pub same : (j : Str) → j ≢ [] → text_of (Strings.get s.str_idx j) ≡ find m j
  pub timeless : (j : Str) → find (s.db.expires string) j ≡ none
  pub log : List Entry
  pub filed : Filed string s.db log

-- An entry of a string, made now, is stored.
pub store_text :
    (d : LightDb) (log : List Entry) (key value : Str) (mark : OperationType)
    → Filed string d log
    → ok (check_key_value d.config key value) ≡ true
    → let (now, d1) = current_time_stamp d in
      let e = new_entry_no_extra now key value string mark in
      ((store e d1).0 ≡ k_ok) × Filed string (store e d1).1 (log ++ e ∷ [])
unfolding current_time_stamp new_entry_no_extra check_key_value
store_text d log key value mark f h =
    let now = d.clock d.ticks in
    let e = new_entry_now now key value [] string mark in
    store-Filed string e (record d { ticks = suc d.ticks }) log
      (new_entry_now-Good string mark now key value [] (f.times d.ticks) (ground (arith, h))
        (ground (arith, h, f.keys)) (ground (arith, h, f.values)) (omega arith))
      (record {
        logged = f.logged;
        succeeds = f.succeeds;
        keys = f.keys;
        values = f.values;
        times = f.times;
      })

pub key_passes : (c : Config) (key value : Str) → ok (check_key_value c key value) ≡ true → key ≢ []
unfolding check_key_value
key_passes c key value h = ground (arith, h)

pub short_passes :
    (c : Config) (key value : Str)
    → ok (check_key_value c key value) ≡ true
    → ok (check_key_value c key []) ≡ true
unfolding check_key_value
short_passes c key value h = ground (arith, h)

-- The deadlines of strings, one of them erased.
pub erased_timeless :
    (d : LightDb) (key : Str)
    → ((j : Str) → find (d.expires string) j ≡ none)
    → (j : Str) → find ((erase_expiry string key d).expires string) j ≡ none
erased_timeless d key h j = find-erase (d.expires string) key j ∙ ground (arith, h j)

-- A string is written: the store succeeds and the map gets the value.
str_write-IsText :
    (key value : Str) (s : StrDb) (m : Map Str)
    → IsText s m
    → ok (check_key_value s.db.config key value) ≡ true
    → (s1 : StrDb) × (str_write key value s ≡ some (k_ok, s1))
      × (s1.db.config ≡ s.db.config)
      × IsText s1 (assign m key value)
unfolding current_time_stamp new_entry_no_extra
str_write-IsText key value s m t h =
    let now = s.db.clock s.db.ticks in
    let e = new_entry_no_extra now key value string string_set in
    let d1 = record s.db { ticks = suc s.db.ticks } in
    let d2 = (store e d1).1 in
    let s1 = kept key e s d2 in
    let only = store-OnlyFiles e d1 in
    let k = key_passes s.db.config key value h in
    let (status, filed) = store_text s.db t.log key value string_set t.filed h in
    (
      s1,
      str_write_lem key value s t.mode
          ∙ ap (λ c. some (if ok c then (k_ok, s1) else (c, record s { db = d2 }))) status,
      only.config,
      record {
        mode = t.mode;
        whole = put_drawn-IsSkiplist s.rand s.str_idx key (placed e d2) s.drawn t.whole k;
        same = λ j g.
            ap text_of (get-put_drawn s.rand s.str_idx key j (placed e d2) s.drawn t.whole k g)
            ∙ ground (arith, t.same j g, find-assign m key j value);
        timeless = erased_timeless d2 key (rw only.expires t.timeless);
        log = t.log ++ e ∷ [];
        filed = record {
          logged = filed.logged;
          succeeds = filed.succeeds;
          keys = filed.keys;
          values = filed.values;
          times = filed.times;
        };
      },
    )

-- `StrSet` of a map.
abbrev pub set_text : Config → Str → Str → Map Str → Code × Map Str
set_text c key value m =
    let code = check_key_value c key value in
    if ok code then (k_ok, assign m key value) else (code, m)

-- What an operation leaves behind, with what it returned.
pub record Follows {ℓ} {A : Type ℓ} (run : Option (A × StrDb)) (s : StrDb) (a : A) (m : Map Str)
    : Type ℓ where
  pub end : StrDb
  pub result : run ≡ some (a, end)
  pub config : end.db.config ≡ s.db.config
  pub text : IsText end m

pub db_str_set-Follows :
    (key value : Str) (s : StrDb) (m : Map Str)
    → IsText s m
    → let (code, m1) = set_text s.db.config key value m in
      Follows (db_str_set key value s) s code m1
unfolding db_str_set
db_str_set-Follows key value s m t =
    elim (Bool-cases (ok (check_key_value s.db.config key value))) [
      | inl h ↦
          let (s1, e, c, t1) = str_write-IsText key value s m t h in
          rw h (record { end = s1; result = e; config = c; text = t1 })
      | inr h ↦ rw h (record { end = s; result = refl; config = refl; text = t })
    ]

-- What `Get` of a map gives.
abbrev pub get_text : Config → Str → Map Str → Code × Option Bool × Option Str
get_text c key m =
    if ok (check_key_value c key [])
    then (k_ok, some (has m key), find m key)
    else (k_ok, some false, none)

pub db_get-Follows :
    (key : Str) (s : StrDb) (m : Map Str)
    → IsText s m
    → db_get key s ≡ some (get_text s.db.config key m, s)
unfolding db_get
db_get-Follows key s m t = elim (Bool-cases (ok (check_key_value s.db.config key []))) [
  | inl h ↦
      rw (h, ◌>>=◌, check_str_expired_timeless key s (t.timeless key))
        (get_val_timeless key s t.mode (t.timeless key) ∙ found h (Strings.get s.str_idx key) refl)
  | inr h ↦ rw h refl
]
  where
    found :
        ok (check_key_value s.db.config key []) ≡ true
        → (o : Option Indexer) → Strings.get s.str_idx key ≡ o
        → elim o as (λ x. Option ((Code × Option Bool × Option Str) × StrDb)) [
          | none ↦ some ((k_ok, some false, none), s)
          | some idx ↦ some ((k_ok, some true, some idx.value), s)
        ]
          ≡ some ((k_ok, some (has m key), find m key), s)
    found h none e = ground (arith, e, t.same key (key_passes s.db.config key [] h))
    found h (some idx) e = ground (arith, e, t.same key (key_passes s.db.config key [] h))
