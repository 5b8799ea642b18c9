-- ===== src/Engine/Index.antt =====
-- idx.cpp: the entries of the data files, read back when the database is opened. `Offset` of a file,
-- which no read depends on, is dropped with the file object.
pub mod Indexed
pub mod Replay
pub mod Files
pub mod Lists
use lightdb.Common.Int.{ℤ}
use lightdb.Common.Map.{assign}
use lightdb.Common.{
  ℕ, zero, suc, ◌+◌, ltb, ◌==◌, Str, Bool, true, false, not, List, [], ◌∷◌, ◌++◌, if◌then◌else◌, ap,
}
use lightdb.Storage.Entry.{
  DataType, list, hash, set, OperationType, hash_h_set, hash_h_del, hash_h_clear, hash_h_expire,
  set_s_add, set_s_rem, set_s_move, set_s_clear, set_s_expire, Entry, mark_code, get_mark, get_type,
  size, blank,
}
use lightdb.Storage.Status.{Code, ok, is_end_of_file}
use lightdb.Storage.File.{DbFile, Io, Outcome, read}
use lightdb.Ds.Hash.{Hash, h_set, h_del, h_clear}
use lightdb.Ds.Sets.{Sets, s_add, s_rem, s_move, s_clear}
use lightdb.Engine.State.{LightDb, set_at, current_time_stamp, clear_index, archive}
use lightdb.Engine.Hashes.{with_hash}

abbrev pub has_mark : Entry → OperationType → Bool
has_mark e mark = get_mark e == mark_code mark

-- The branch of an expiry entry: a deadline that is over clears the key, any other is kept.
unfoldable pub load_expiry : DataType → Entry → LightDb → LightDb
unfolding current_time_stamp clear_index
load_expiry type e d =
    let (now, d1) = current_time_stamp d in
    if ltb e.time_stamp now then clear_index type e.key d1 else (record d1 {
      expires = set_at d1.expires type (assign (d1.expires type) e.key e.time_stamp);
    })

unfoldable pub build_hash_index : Entry → LightDb → LightDb
unfolding get_mark load_expiry h_set h_del h_clear
build_hash_index e d =
    if has_mark e hash_h_set
    then with_hash d (h_set d.hash_idx e.key e.extra e.value).0
    else if has_mark e hash_h_del
    then with_hash d (h_del d.hash_idx e.key e.extra).0
    else if has_mark e hash_h_clear
    then with_hash d (h_clear d.hash_idx e.key).0
    else if has_mark e hash_h_expire
    then load_expiry hash e d
    else d

abbrev pub with_set_idx : LightDb → Sets → LightDb
with_set_idx d r = record d { set_idx = r }

unfoldable pub build_set_index : Entry → LightDb → LightDb
unfolding get_mark load_expiry s_add s_rem s_move s_clear
build_set_index e d =
    if has_mark e set_s_add
    then with_set_idx d (s_add d.set_idx e.key e.value).0
    else if has_mark e set_s_rem
    then with_set_idx d (s_rem d.set_idx e.key e.value).0
    else if has_mark e set_s_move
    then with_set_idx d (s_move d.set_idx e.key e.extra e.value).0
    else if has_mark e set_s_clear
    then with_set_idx d (s_clear d.set_idx e.key).0
    else if has_mark e set_s_expire
    then load_expiry set e d
    else d

-- What a run of the loop over one file ends with: the end of the file or of its first block, an
-- error, at which the program exits, or the end of the fuel.
pub data Loaded : Type 0 where
  opened : LightDb → Loaded
  fatal : Code → Loaded
  no_fuel : Loaded

abbrev pub is_empty_key : Str → Bool
is_empty_key [] = true
is_empty_key (c ∷ cs) = false

-- The loop over the entries of one file, from an offset; the way to build an index is `buildIndex`
-- at the type of the file.
module _ (build : Entry → LightDb → LightDb) where
  -- What follows a `Read`; `next` is the rest of the loop.
  unfoldable pub load_entry :
      (DbFile → ℕ → LightDb → Loaded) → ℕ → LightDb → Code × Entry × Io → Loaded
  unfolding size
  load_entry next offset d (status, e, io) =
      let d1 = record d { outcomes = io.outcomes } in
      if is_end_of_file status
      then opened d1
      else if not (ok status)
      then fatal status
      else next io.file (offset + size e) (if is_empty_key e.key then d1 else build e d1)

  unfoldable pub load_loop : ℕ → DbFile → ℕ → LightDb → Loaded
  unfolding read load_entry
  load_loop zero f offset d = no_fuel
  load_loop (suc n) f offset d =
      let rest =
        load_entry (load_loop n) offset d
          (read (record { file = f; outcomes = d.outcomes }) offset blank) in
      if ltb offset d.config.block_size then rest else opened d

  -- The files of one type in the order of their ids; each loop has a fuel of a block and one.
  unfoldable pub load_files : List DbFile → LightDb → Loaded
  unfolding load_loop
  load_files [] d = opened d
  load_files (f ∷ fs) d = elim (load_loop (suc d.config.block_size) f 0 d) [
    | opened d1 ↦ load_files fs d1
    | fatal c ↦ fatal c
    | no_fuel ↦ no_fuel
  ]

-- The files of a type by ascending id, the active one among them.
abbrev pub files_of : DataType → LightDb → List DbFile
files_of type d = archive (d.active type) (d.archived type)

-- The body of `loadIdxFromFiles` for hashes and for sets.
unfoldable pub load_hashes : LightDb → Loaded
unfolding load_files build_hash_index archive
load_hashes d = load_files build_hash_index (files_of hash d) d

unfoldable pub load_sets : LightDb → Loaded
unfolding load_files build_set_index archive
load_sets d = load_files build_set_index (files_of set d) d

-- A database that is opened on the files of another one, before its indexes are built.
abbrev pub reopened : LightDb → (ℕ → ℕ) → List Outcome → LightDb
reopened d clock outcomes = record {
  config = d.config;
  hash_idx = [];
  list_idx = [];
  set_idx = [];
  archived = d.archived;
  active = d.active;
  expires = λ type. [];
  clock = clock;
  ticks = 0;
  outcomes = outcomes;
}
