-- ===== src/Engine/Hashes.antt =====
-- db_hash.cpp: the hash operations of `LightDB`. A result that an operation leaves unwritten is
-- `none`. The status of an operation is its code.
pub mod Journal
pub mod Commands
pub mod Reads
pub mod Recovery
pub mod Deletion
use lightdb.Common.Int.{ℤ, pos, negsuc}
use lightdb.Common.Map.{Map, find, has, find_or, assign}
use lightdb.Common.{
  ℕ, ◌+◌, ◌-◌, ◌*◌, ◌/◌, ◌%◌, ◌^◌, Str, str_eq, Bool, true, false, Option, none, some, List, [],
  ◌∷◌, ◌++◌, if◌then◌else◌,
}
use lightdb.Storage.Entry.{
  DataType, hash, hash_h_set, hash_h_del, hash_h_clear, hash_h_expire, Entry, new_entry_now,
  new_entry_no_extra, new_entry_with_expire,
}
use lightdb.Storage.Status.{Code, k_ok, ok}
use lightdb.Ds.Hash.{
  Hash, h_set, h_set_nx, h_get, h_get_all, h_del, h_key_exist, h_exist, h_len, h_keys, h_vals,
  h_clear,
}
use lightdb.Engine.State.{
  LightDb, Action, set_at, current_time_stamp, check_key_value, check_key_values, check_expired,
  store, deadline_of, time_left,
}

abbrev pub value_or_empty : Option Str → Str
value_or_empty none = []
value_or_empty (some v) = v

abbrev pub with_hash : LightDb → Hash → LightDb
with_hash d h = record d { hash_idx = h }

unfoldable pub db_h_get : Str → Str → Action (Option Str)
unfolding check_key_value check_expired h_get
db_h_get key field d =
    if ok (check_key_value d.config key field)
    then (let (expired, d1) = check_expired key hash d in
        if expired then (none, d1) else (h_get d1.hash_idx key field, d1))
    else (none, d)

-- The part of `HSet` after the checks and the read of the old value.
unfoldable pub db_h_write : Str → Str → Str → Action (Code × ℕ)
unfolding h_set current_time_stamp new_entry_now store
db_h_write key field value d =
    let (h, res) = h_set d.hash_idx key field value in
    let (now, d1) = current_time_stamp (with_hash d h) in
    let (status, d2) = store (new_entry_now now key value field hash hash_h_set) d1 in
    ((status, res), d2)

unfoldable pub db_h_set : Str → Str → Str → Action (Code × ℕ)
unfolding check_key_value db_h_get db_h_write
db_h_set key field value d =
    let c1 = check_key_value d.config key field in
    let c2 = check_key_value d.config key value in
    if ok c1
    then (if ok c2
        then (let (old, d1) = db_h_get key field d in
            if str_eq (value_or_empty old) value
            then ((k_ok, 1), d1)
            else db_h_write key field value d1)
        else ((c2, 0), d))
    else ((c1, 0), d)

-- The part of `HSetNx` after `CheckExpired`.
unfoldable pub db_h_write_nx : Str → Str → Str → Action (Code × Option Bool)
unfolding h_set_nx current_time_stamp new_entry_now store
db_h_write_nx key field value d =
    let (h, res) = h_set_nx d.hash_idx key field value in
    if res
    then (let (now, d1) = current_time_stamp (with_hash d h) in
        let (status, d2) = store (new_entry_now now key value field hash hash_h_set) d1 in
        ((status, some true), d2))
    else ((k_ok, some false), with_hash d h)

unfoldable pub db_h_set_nx : Str → Str → Str → Action (Code × Option Bool)
unfolding check_key_value check_expired db_h_write_nx
db_h_set_nx key field value d =
    let c1 = check_key_value d.config key field in
    let c2 = check_key_value d.config key value in
    if ok c1
    then (if ok c2
        then db_h_write_nx key field value (check_expired key hash d).1
        else ((c2, none), d))
    else ((c1, none), d)

unfoldable pub db_h_get_all : Str → List Str → Action (Bool × List Str)
unfolding check_key_value check_expired h_get_all
db_h_get_all key vals d =
    if ok (check_key_value d.config key [])
    then (let (expired, d1) = check_expired key hash d in
        if expired then ((false, vals), d1) else (h_get_all d1.hash_idx key vals, d1))
    else ((false, vals), d)

-- The loop of `HMSet`. `none` is the read of the value behind the last field.
unfoldable pub h_m_set_loop : Str → List Str → LightDb → Option (Code × LightDb)
unfolding db_h_set
h_m_set_loop key [] d = some (k_ok, d)
h_m_set_loop key (field ∷ []) d = none
h_m_set_loop key (field ∷ value ∷ vals) d =
    let ((status, res), d1) = db_h_set key field value d in
    let rest = h_m_set_loop key vals d1 in if ok status then rest else some (status, d1)

unfoldable pub db_h_m_set : Str → List Str → LightDb → Option (Code × LightDb)
unfolding check_key_values h_m_set_loop
db_h_m_set key vals d =
    let c = check_key_values d.config key vals in
    if ok c then h_m_set_loop key vals d else some (c, d)

-- The end of `HDel`, behind its test for an expired key, which is the wrong way round.
unfoldable pub db_h_erase : Str → Str → Action (Code × ℕ)
unfolding h_del current_time_stamp new_entry_now store
db_h_erase key field d =
    let (h, deleted) = h_del d.hash_idx key field in
    if deleted
    then (let (now, d1) = current_time_stamp (with_hash d h) in
        let (status, d2) = store (new_entry_now now key [] field hash hash_h_del) d1 in
        ((status, 1), d2))
    else ((k_ok, 0), with_hash d h)

unfoldable pub db_h_del : Str → Str → Action (Code × ℕ)
unfolding check_key_value check_expired db_h_erase
db_h_del key field d =
    if ok (check_key_value d.config key field)
    then (let (expired, d1) = check_expired key hash d in
        if expired then db_h_erase key field d1 else ((k_ok, 0), d1))
    else ((k_ok, 0), d)

-- The loop of `HMGet`.
unfoldable pub h_m_get_loop : Str → List Str → List Str → List Bool → Action (List Str × List Bool)
unfolding db_h_get
h_m_get_loop key [] vals sucs d = ((vals, sucs), d)
h_m_get_loop key (field ∷ fields) vals sucs d =
    let (val, d1) = db_h_get key field d in
    let found : Bool = elim val [ none ↦ false | some v ↦ true ] in
    h_m_get_loop key fields (vals ++ value_or_empty val ∷ []) (sucs ++ found ∷ []) d1

unfoldable pub db_h_m_get :
    Str → List Str → List Str → List Bool → Action (Code × List Str × List Bool)
unfolding check_key_values h_m_get_loop
db_h_m_get key fields vals sucs d =
    let c = check_key_values d.config key fields in
    let ((vals', sucs'), d1) = h_m_get_loop key fields vals sucs d in
    if ok c then ((k_ok, vals', sucs'), d1) else ((c, vals, sucs), d)

unfoldable pub db_h_key_exist : Str → Action Bool
unfolding check_key_value check_expired h_key_exist
db_h_key_exist key d =
    if ok (check_key_value d.config key [])
    then (let (expired, d1) = check_expired key hash d in
        if expired then (false, d1) else (h_key_exist d1.hash_idx key, d1))
    else (false, d)

unfoldable pub db_h_exist : Str → Str → Action Bool
unfolding check_key_value check_expired h_exist
db_h_exist key field d =
    if ok (check_key_value d.config key field)
    then (let (expired, d1) = check_expired key hash d in
        if expired then (false, d1) else (h_exist d1.hash_idx key field, d1))
    else (false, d)

unfoldable pub db_h_len : Str → Action ℕ
unfolding check_key_value check_expired h_len
db_h_len key d =
    if ok (check_key_value d.config key [])
    then (let (expired, d1) = check_expired key hash d in
        if expired then (0, d1) else (h_len d1.hash_idx key, d1))
    else (0, d)

unfoldable pub db_h_keys : Str → List Str → Action (Bool × List Str)
unfolding check_key_value check_expired db_h_key_exist h_keys
db_h_keys key keys d =
    if ok (check_key_value d.config key [])
    then (let (expired, d1) = check_expired key hash d in
        if expired
        then ((false, keys), d1)
        else (let (exist, d2) = db_h_key_exist key d1 in
            if exist then ((true, h_keys d2.hash_idx key keys), d2) else ((false, keys), d2)))
    else ((false, keys), d)

unfoldable pub db_h_vals : Str → List Str → Action (Bool × List Str)
unfolding check_key_value check_expired db_h_key_exist h_vals
db_h_vals key vals d =
    if ok (check_key_value d.config key [])
    then (let (exist, d1) = db_h_key_exist key d in
        if exist
        then (let (expired, d2) = check_expired key hash d1 in
            if expired then ((false, vals), d2) else ((true, h_vals d2.hash_idx key vals), d2))
        else ((false, vals), d1))
    else ((false, vals), d)

-- The part of `HClear` behind `CheckExpired`: the entry is stored first.
unfoldable pub db_h_drop : Str → Action (Code × Option ℕ)
unfolding h_clear current_time_stamp new_entry_no_extra store
db_h_drop key d =
    let (now, d1) = current_time_stamp d in
    let (status, d2) = store (new_entry_no_extra now key [] hash hash_h_clear) d1 in
    let (h, res) = h_clear d2.hash_idx key in
    if ok status then ((k_ok, some res), with_hash d2 h) else ((status, none), d2)

unfoldable pub db_h_clear : Str → Action (Code × Option ℕ)
unfolding check_expired db_h_drop
db_h_clear key d =
    let (expired, d1) = check_expired key hash d in
    if expired then ((k_ok, some 0), d1) else db_h_drop key d1

-- The part of `HExpire` behind its checks.
unfoldable pub db_h_mark : Str → ℕ → Action (Code × Bool)
unfolding current_time_stamp new_entry_with_expire store
db_h_mark key duration d =
    let (now, d1) = current_time_stamp d in
    let deadline = deadline_of now duration in
    let (status, d2) = store (new_entry_with_expire key [] deadline hash hash_h_expire) d1 in
    if ok status
    then (
      (k_ok, true),
      record d2 { expires = set_at d2.expires hash (assign (d2.expires hash) key deadline) },
    )
    else ((status, false), d2)

unfoldable pub db_h_expire : Str → ℕ → Action (Code × Bool)
unfolding check_key_value db_h_key_exist db_h_mark
db_h_expire key duration d =
    if ok (check_key_value d.config key [])
    then (let (exist, d1) = db_h_key_exist key d in
        if exist then db_h_mark key duration d1 else ((k_ok, false), d1))
    else ((k_ok, false), d)

unfoldable pub db_h_ttl : Str → Action ℤ
unfolding check_key_value check_expired time_left
db_h_ttl key d =
    if ok (check_key_value d.config key [])
    then (let (expired, d1) = check_expired key hash d in
        if expired then (negsuc 1, d1) else time_left hash key d1)
    else (negsuc 1, d)
