-- ===== src/Engine/Strings/Defects.antt =====
-- db_str.cpp and idx.cpp: strings where the operations disagree with each other.
use lightdb.Ds.Strings.{erased, tail_deleted}
use lightdb.Ds.Strings.{put_drawn}
use lightdb.Common.{
  if◌then◌else◌, Str, ℕ, Bool, true, false, [], ◌≡◌, refl, some, none, ltb, ◌∙◌, ap, str_eq_self,
}
use lightdb.Common.Map.{find, find_or, has, find-erase}
use lightdb.Storage.Entry.{
  string, string_set, new_entry_no_extra, get_mark, new_entry_now, new_entry,
}
use lightdb.Storage.Status.{k_ok, ok}
use lightdb.Storage.Indexer.{Indexer}
use lightdb.Ds.Strings
use lightdb.Ds.Strings.Search.{IsSkiplist}
use lightdb.Ds.Strings.Erase.{dropped, erase-dropped, get-dropped}
use lightdb.Engine.State.{check_key_value, check_expired, current_time_stamp, store}
use lightdb.Engine.Strings.Steps.{
  StrDb, ◌>>=◌, ◌>>◌, check_str_expired, put_index, key_value_mem_mode,
}
use lightdb.Engine.Strings.Access.{db_str_set, db_str_set_nx, db_get, str_exist}
use lightdb.Engine.Strings.Updates.{build_string_index}
use lightdb.Engine.Strings.Laws.{erase_index_lem}
use lightdb.Engine.Strings.Laws.{str_write_lem, kept}
use lightdb.Storage.Entry.RoundTrip.{get_type-new_entry_now}
use lightdb.Engine.Strings.Text.{key_passes}

-- The deadline of a string is over.
abbrev pub IsOver : Str → StrDb → Type 0
IsOver key s =
    (has (s.db.expires string) key ≡ true)
    × (ltb (find_or (s.db.expires string) key 0) (s.db.clock s.db.ticks) ≡ true)

over_lem : (key : Str) (s : StrDb) → IsOver key s → (check_expired key string s.db).0 ≡ true
unfolding check_expired current_time_stamp
over_lem key s (h, g) = rw (h, g) refl

-- What the check of an expired string does.
pub check_str_expired_over :
    (key : Str) (s : StrDb) (skiplist : Strings.StrSkiplist) (found : Bool)
    → IsOver key s
    → Strings.erase s.str_idx key ≡ erased skiplist found
    → check_str_expired key s
      ≡ some (true, record s { db = (check_expired key string s.db).1; str_idx = skiplist })
unfolding check_str_expired
check_str_expired_over key s skiplist found o e =
    let s1 = record s { db = (check_expired key string s.db).1 } in
    rw (◌>>=◌, over_lem key s o) (rw (◌>>=◌, ◌>>◌, erase_index_lem key s1 skiplist found e) refl)

set_nx_stays :
    (key value : Str) (idx : Indexer) (s : StrDb)
    → Strings.get s.str_idx key ≡ some idx
    → ok (check_key_value s.db.config key []) ≡ true
    → db_str_set_nx key value s ≡ some ((k_ok, some false), s)
unfolding db_str_set_nx str_exist
set_nx_stays key value idx s e h = rw (e, h) refl

get_over :
    (key : Str) (s s1 : StrDb)
    → ok (check_key_value s.db.config key []) ≡ true
    → check_str_expired key s ≡ some (true, s1)
    → db_get key s ≡ some ((k_ok, some false, none), s1)
unfolding db_get
get_over key s s1 h e = rw h (rw (◌>>=◌, e) refl)

-- On a string in the index whose deadline is over, with a key that passes the check and the
-- index in order: SetNx reports that the key exists and changes nothing, while Get reports that
-- it does not and removes it from the index.
pub expired_str_exist :
    (key value : Str) (idx : Indexer) (s : StrDb)
    → IsSkiplist s.str_idx
    → Strings.get s.str_idx key ≡ some idx
    → ok (check_key_value s.db.config key []) ≡ true
    → IsOver key s
    → (db_str_set_nx key value s ≡ some ((k_ok, some false), s))
      × ((s1 : StrDb) × (db_get key s ≡ some ((k_ok, some false, none), s1))
          × (Strings.get s1.str_idx key ≡ none))
expired_str_exist key value idx s w e h o =
    let skiplist = dropped s.str_idx key in
    let k = key_passes s.db.config key [] h in
    let gone = erase-dropped s.str_idx key w k ∙ rw e refl in
    let s1 = record s { db = (check_expired key string s.db).1; str_idx = skiplist } in
    (
      set_nx_stays key value idx s e h,
      (
        s1,
        get_over key s s1 h (check_str_expired_over key s skiplist true o gone),
        get-dropped s.str_idx key key idx w k k e ∙ rw (str_eq_self key) refl,
      ),
    )

set_mark :
    (now : ℕ) (key value : Str) → get_mark (new_entry_no_extra now key value string string_set) ≡ 0
unfolding new_entry_no_extra
set_mark now key value = (get_type-new_entry_now now key value [] string string_set).1

replay_set :
    (file_id offset now : ℕ) (key value : Str) (s : StrDb)
    → (s1 : StrDb) × (build_string_index file_id offset
          (new_entry_no_extra now key value string string_set)
          s
        ≡ some (tt, s1))
      × (s1.db.expires ≡ s.db.expires)
unfolding build_string_index put_index new_entry_no_extra new_entry_now new_entry
replay_set file_id offset now key value s =
    let idx : Indexer = record { key = key; value = value; file_id = file_id; offset = offset } in
    let (skiplist, drawn) = put_drawn s.rand s.str_idx key idx s.drawn in
    (record s { str_idx = skiplist; drawn = drawn }, rw (set_mark now key value) refl, refl)

-- Where the values are kept in memory, for arguments that pass the checks and a store that
-- succeeds: StrSet leaves the key without a deadline, while the entry that it stores leaves
-- every deadline as it is when it is read back at a load.
pub deadline_returns :
    (key value : Str) (s : StrDb)
    → s.mode ≡ key_value_mem_mode
    → ok (check_key_value s.db.config key value) ≡ true
    → let (now, d1) = current_time_stamp s.db in
      let e = new_entry_no_extra now key value string string_set in
      (store e d1).0 ≡ k_ok
      → ((s1 : StrDb) × (db_str_set key value s ≡ some (k_ok, s1))
          × (find (s1.db.expires string) key ≡ none))
        × ((file_id offset : ℕ) (r : StrDb)
            → (r1 : StrDb) × (build_string_index file_id offset e r ≡ some (tt, r1))
              × (r1.db.expires ≡ r.db.expires))
unfolding db_str_set
deadline_returns key value s m h stored =
    let (now, d1) = current_time_stamp s.db in
    let e = new_entry_no_extra now key value string string_set in
    let d2 = (store e d1).1 in
    (
      (
        kept key e s d2,
        rw h (
            str_write_lem key value s m
            ∙ ap (λ c. some (if ok c then (k_ok, kept key e s d2) else (c, record s { db = d2 })))
                stored),
        find-erase (d2.expires string) key key ∙ rw (str_eq_self key) refl,
      ),
      λ file_id offset r. replay_set file_id offset now key value r,
    )
