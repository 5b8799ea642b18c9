-- ===== src/Engine/State.antt =====
-- lightdb.cpp: the state, `CheckKeyValue`, `getActiveFile`, `store` and `CheckExpired`.
use lightdb.Storage.Entry.{
  DataType, string, list, hash, set, z_set, all, OperationType, list_l_clear, hash_h_clear,
  set_s_clear, string_rem, z_set_z_clear, Entry, type_code, new_entry_now, new_entry_no_extra,
  get_type,
}
use lightdb.Storage.Status.{Code, k_ok, k_empty_key, k_key_too_large, k_value_too_large}
use lightdb.Storage.File.{Outcome, DbFile, Io, write}
use lightdb.Ds.Hash.{Hash, h_clear}
use lightdb.Ds.Lists.{Lists, l_clear}
use lightdb.Ds.Sets.{Sets, s_clear}
use lightdb.Common.Map.{Map, has, find_or, erase}
use lightdb.Common.Int.{ℤ, pos, negsuc}
use lightdb.Common.{
  ℕ, suc, ◌+◌, ◌-◌, ◌*◌, ◌/◌, ◌%◌, ◌^◌, ltb, ◌==◌, length, Str, Bool, true, false, List, [], ◌∷◌,
  if◌then◌else◌,
}

-- `IndexMode`, and what else of the configuration only strings or the merge use, is left out.
pub record Config : Type 0 where
  pub max_key_size : ℕ
  pub max_value_size : ℕ
  pub block_size : ℕ

-- `archived` lists the files of a type by ascending id. `clock` is what the system clock reads,
-- reading after reading, of which `ticks` have been made; `outcomes` is what the kernel does.
pub record LightDb : Type 0 where
  pub config : Config
  pub hash_idx : Hash
  pub list_idx : Lists
  pub set_idx : Sets
  pub archived : DataType → List DbFile
  pub active : DataType → DbFile
  pub expires : DataType → Map ℕ
  pub clock : ℕ → ℕ
  pub ticks : ℕ
  pub outcomes : List Outcome

abbrev pub Action {ℓ} : Type ℓ → Type ℓ
Action A = LightDb → A × LightDb

abbrev pub same_type : DataType → DataType → Bool
same_type a b = type_code a == type_code b

-- `m[type] = a`
abbrev pub set_at {ℓ} : {A : Type ℓ} → (DataType → A) → DataType → A → DataType → A
set_at m type a t = if same_type type t then a else m t

unfoldable pub current_time_stamp : Action ℕ
current_time_stamp d = (d.clock d.ticks, record d { ticks = suc d.ticks })

-- The overload for one value.
unfoldable pub check_key_value : Config → Str → Str → Code
check_key_value c key value =
    if length key == 0
    then k_empty_key
    else if ltb c.max_key_size (length key)
    then k_key_too_large
    else if ltb c.max_value_size (length value)
    then k_value_too_large
    else k_ok

abbrev pub check_values : Config → List Str → Code
check_values c [] = k_ok
check_values c (value ∷ values) =
    if ltb c.max_value_size (length value) then k_value_too_large else check_values c values

-- The overload for several values.
unfoldable pub check_key_values : Config → Str → List Str → Code
check_key_values c key values =
    if length key == 0
    then k_empty_key
    else if ltb c.max_key_size (length key)
    then k_key_too_large
    else check_values c values

-- `static_cast<DataType>`
unfoldable pub type_of : ℕ → DataType
type_of n =
    if n == 0
    then string
    else if n == 1
    then list
    else if n == 2
    then hash
    else if n == 3
    then set
    else if n == 4
    then z_set
    else all

abbrev pub get_active_file : LightDb → DataType → DbFile
get_active_file d type = d.active type

-- A file that does not exist yet.
abbrev pub new_file : ℕ → DbFile
new_file id = record { id = id; bytes = []; offset = 0; write_offset = 0 }

-- `archivedFiles[type].insert`, which leaves a present id alone, in the order of the ids.
unfoldable pub archive : DbFile → List DbFile → List DbFile
archive f [] = f ∷ []
archive f (g ∷ gs) =
    let rest = archive f gs in
    if f.id == g.id then g ∷ gs else if ltb f.id g.id then f ∷ g ∷ gs else g ∷ rest

-- The active file is archived when it is longer than a block, and a new one begins.
unfoldable pub rotate : DataType → LightDb → LightDb
unfolding archive
rotate type d =
    let f = get_active_file d type in
    if ltb d.config.block_size f.write_offset
    then (record d {
      active = set_at d.active type (new_file (f.id + 1));
      archived = set_at d.archived type (archive f (d.archived type));
    })
    else d

-- What `write` leaves behind.
abbrev pub written : DataType → LightDb → Io → LightDb
written type d io = record d { active = set_at d.active type io.file; outcomes = io.outcomes }

unfoldable pub store : Entry → Action Code
unfolding rotate type_of write get_type
store e d =
    let type = type_of (get_type e) in
    let d1 = rotate type d in
    let (status, io) =
      write (record { file = get_active_file d1 type; outcomes = d1.outcomes }) e in
    (status, written type d1 io)

-- The mark of the entry that clears a key of a type.
abbrev pub clear_mark : DataType → OperationType
clear_mark list = list_l_clear
clear_mark hash = hash_h_clear
clear_mark set = set_s_clear
clear_mark z_set = z_set_z_clear
clear_mark _ = string_rem

-- The index of a type without a key.
unfoldable pub clear_index : DataType → Str → LightDb → LightDb
unfolding h_clear l_clear s_clear
clear_index list key d = record d { list_idx = (l_clear d.list_idx key).0 }
clear_index hash key d = record d { hash_idx = (h_clear d.hash_idx key).0 }
clear_index set key d = record d { set_idx = (s_clear d.set_idx key).0 }
clear_index _ key d = d

abbrev pub erase_expiry : DataType → Str → LightDb → LightDb
erase_expiry type key d = record d { expires = set_at d.expires type (erase (d.expires type) key) }

-- The branch of a key whose deadline is over: the entry is made, the index cleared, the entry
-- stored and the deadline erased.
unfoldable pub expire_key : DataType → Str → LightDb → LightDb
unfolding current_time_stamp new_entry_no_extra clear_index store
expire_key type key d =
    let (now, d1) = current_time_stamp d in
    let e = new_entry_no_extra now key [] type (clear_mark type) in
    erase_expiry type key (store e (clear_index type key d1)).1

unfoldable pub check_expired : Str → DataType → Action Bool
unfolding current_time_stamp expire_key
check_expired key type d =
    if has (d.expires type) key
    then (let (now, d1) = current_time_stamp d in
        if ltb (find_or (d.expires type) key 0) now
        then (true, expire_key type key d1)
        else (false, d1))
    else (false, d)

-- `getCurrentTimeStamp() + duration * 1000`, a `uint64_t`
abbrev pub deadline_of : ℕ → ℕ → ℕ
deadline_of now duration = (now + duration * 1000) % 2 ^ 64

-- The time that a key has left, `(deadline - getCurrentTimeStamp()) / 1000` in `uint64_t`; -2
-- without a deadline.
unfoldable pub time_left : DataType → Str → Action ℤ
unfolding current_time_stamp
time_left type key d =
    if has (d.expires type) key
    then (let (now, d1) = current_time_stamp d in
        (pos ((find_or (d.expires type) key 0 + 2 ^ 64 - now) % 2 ^ 64 / 1000), d1))
    else (negsuc 1, d)

-- `NewEntryNoExtra` at the present time, and `store`.
unfoldable pub store_now : Str → Str → DataType → OperationType → Action Code
unfolding current_time_stamp new_entry_no_extra store
store_now key value type mark d =
    let (now, d1) = current_time_stamp d in store (new_entry_no_extra now key value type mark) d1

-- `NewEntryNow` at the present time, and `store`.
unfoldable pub store_extra : Str → Str → Str → DataType → OperationType → Action Code
unfolding current_time_stamp new_entry_now store
store_extra key value extra type mark d =
    let (now, d1) = current_time_stamp d in store (new_entry_now now key value extra type mark) d1
