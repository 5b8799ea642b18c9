-- ===== src/Engine/Lists.antt =====
-- db_list.cpp: the list operations of `LightDB`. A result that an operation leaves unwritten is
-- `none`; an outer `none` is undefined behaviour of the list store.
pub mod Trim
pub mod Reload
use lightdb.Common.Int.{ℤ, pos, negsuc}
use lightdb.Common.Decimal.{to_string}
use lightdb.Common.Map.{Map, has, assign}
use lightdb.Common.{
  ℕ, Str, Bool, true, false, Option, none, some, List, [], ◌∷◌, ◌++◌, if◌then◌else◌,
}
use lightdb.Storage.Entry.{
  DataType, list, OperationType, list_l_push, list_r_push, list_l_pop, list_r_pop, list_l_rem,
  list_l_insert, list_l_set, list_l_trim, list_l_clear, list_l_expire, new_entry_with_expire,
}
use lightdb.Storage.Status.{Code, k_ok, k_key_not_exist, ok}
use lightdb.Ds.Lists.{
  InsertOption, before, after, Lists, l_push, r_push, l_pop, r_pop, l_index, l_rem, l_insert, l_set,
  l_trim, l_range, l_key_exist, l_len, l_clear,
}
use lightdb.Engine.State.{
  LightDb, Action, set_at, current_time_stamp, check_key_value, check_expired, store, store_now,
  store_extra, deadline_of, time_left,
}

abbrev pub with_lists : LightDb → Lists → LightDb
with_lists d r = record d { list_idx = r }

-- `ExtraSeparator`, a backslash and a zero
abbrev pub extra_separator : Str
extra_separator = 92 ∷ 48 ∷ []

abbrev pub option_code : InsertOption → ℤ
option_code before = pos 1
option_code after = pos 2

-- Deadlines do not matter here, nor in `LKeyExist` and `LRange`.
unfoldable pub db_l_len : Str → LightDb → ℕ
unfolding check_key_value l_len
db_l_len key d = if ok (check_key_value d.config key []) then l_len d.list_idx key else 0

unfoldable pub db_l_key_exist : Str → LightDb → Bool
unfolding check_key_value l_key_exist
db_l_key_exist key d =
    if ok (check_key_value d.config key []) then l_key_exist d.list_idx key else false

-- The end of `LPush`, from the store on.
unfoldable pub db_l_push : Str → Str → Action (Code × Option ℕ)
unfolding check_key_value check_expired l_push store_now db_l_len
db_l_push key value d =
    let c = check_key_value d.config key value in
    let d1 = (check_expired key list d).1 in
    let r = (l_push d1.list_idx key value).0 in
    let (status, d2) = store_now key value list list_l_push (with_lists d1 r) in
    let pushed = if ok status then ((k_ok, some (db_l_len key d2)), d2) else ((status, none), d2) in
    if ok c then pushed else ((c, none), d)

unfoldable pub db_r_push : Str → Str → Action (Code × Option ℕ)
unfolding check_key_value check_expired r_push store_now db_l_len
db_r_push key value d =
    let c = check_key_value d.config key value in
    let d1 = (check_expired key list d).1 in
    let (r, length) = r_push d1.list_idx key value in
    let (status, d2) = store_now key value list list_r_push (with_lists d1 r) in
    let pushed =
      if ok status then ((k_ok, some (db_l_len key d2)), d2) else ((status, some length), d2) in
    if ok c then pushed else ((c, none), d)

-- What follows a pop of the index: an entry of the popped element, or else of what `val` held.
unfoldable pub db_popped :
    Str
    → Str
    → OperationType
    → LightDb
    → Option (Lists × Option Str)
    → Option ((Code × Str × Bool) × LightDb)
unfolding store_now
db_popped key val mark d none = none
db_popped key val mark d (some (r, none)) =
    let (status, d1) = store_now key val list mark (with_lists d r) in
    some ((status, val, false), d1)
db_popped key val mark d (some (r, some x)) =
    let (status, d1) = store_now key x list mark (with_lists d r) in some ((status, x, true), d1)

-- `val` and `suc` are what the caller's variables hold.
unfoldable pub db_l_pop : Str → Str → Bool → LightDb → Option ((Code × Str × Bool) × LightDb)
unfolding check_key_value check_expired l_pop db_popped
db_l_pop key val suc d =
    let c = check_key_value d.config key [] in
    let d1 = (check_expired key list d).1 in
    if ok c
    then db_popped key val list_l_pop d1 (l_pop d1.list_idx key)
    else some ((c, val, suc), d)

unfoldable pub db_r_pop : Str → Str → Bool → LightDb → Option ((Code × Str × Bool) × LightDb)
unfolding check_key_value check_expired r_pop db_popped
db_r_pop key val suc d =
    let c = check_key_value d.config key [] in
    let d1 = (check_expired key list d).1 in
    if ok c
    then db_popped key val list_r_pop d1 (r_pop d1.list_idx key)
    else some ((c, val, suc), d)

unfoldable pub db_l_index : Str → ℕ → Action (Option Str)
unfolding check_key_value check_expired l_index
db_l_index key index d =
    if ok (check_key_value d.config key [])
    then (let (expired, d1) = check_expired key list d in
        if expired then (none, d1) else (l_index d1.list_idx key index, d1))
    else (none, d)

-- What follows the `LRem` of the index.
unfoldable pub db_removed :
    Str → Str → ℤ → LightDb → Option (Lists × ℕ) → Option ((Code × Option ℕ) × LightDb)
unfolding store_extra to_string
db_removed key value count d none = none
db_removed key value count d (some (r, removed)) =
    let (status, d1) = store_extra key value (to_string count) list list_l_rem (with_lists d r) in
    some ((status, some removed), d1)

unfoldable pub db_l_rem : Str → Str → ℤ → LightDb → Option ((Code × Option ℕ) × LightDb)
unfolding check_key_value check_expired l_rem db_removed
db_l_rem key value count d =
    let c = check_key_value d.config key value in
    if ok c
    then (let (expired, d1) = check_expired key list d in
        if expired
        then some ((k_ok, some 0), d1)
        else db_removed key value count d1 (l_rem d1.list_idx key value count))
    else some ((c, none), d)

unfoldable pub db_l_insert : Str → InsertOption → Str → Str → Action (Code × Option ℤ)
unfolding check_key_value check_expired l_insert store_extra to_string
db_l_insert key option pivot val d =
    let c1 = check_key_value d.config key pivot in
    let c2 = check_key_value d.config key val in
    let (expired, d1) = check_expired key list d in
    let (r, count) = l_insert d1.list_idx key option pivot val in
    let extra = pivot ++ extra_separator ++ to_string (option_code option) in
    let (status, d2) = store_extra key val extra list list_l_insert (with_lists d1 r) in
    if ok c1
    then (if ok c2
        then if expired then ((k_ok, some (pos 0)), d1) else ((status, some count), d2)
        else ((c2, none), d))
    else ((c1, none), d)

unfoldable pub db_l_set : Str → ℤ → Str → Action (Code × Option Bool)
unfolding check_key_value check_expired l_set store_extra to_string
db_l_set key idx value d =
    let c = check_key_value d.config key value in
    let (expired, d1) = check_expired key list d in
    let (r, suc) = l_set d1.list_idx key idx value in
    let (status, d2) = store_extra key value (to_string idx) list list_l_set (with_lists d1 r) in
    if ok c
    then if expired
      then ((k_ok, some false), d1)
      else if suc
      then ((status, some true), d2)
      else ((k_ok, some false), with_lists d1 r)
    else ((c, none), d)

-- `extra` of the entry of `LTrim`
abbrev pub trim_extra : ℤ → ℤ → Str
trim_extra start end = to_string start ++ extra_separator ++ to_string end

unfoldable pub db_l_trim : Str → ℤ → ℤ → Action (Code × Option Bool)
unfolding check_key_value check_expired l_trim store_extra to_string
db_l_trim key start end d =
    if ok (check_key_value d.config key [])
    then (let (expired, d1) = check_expired key list d in
        let (r, suc) = l_trim d1.list_idx key start end in
        let (status, d2) =
          store_extra key [] (trim_extra start end) list list_l_trim (with_lists d1 r) in
        if expired then ((k_ok, none), d1) else ((status, some suc), d2))
    else ((k_ok, none), d)

unfoldable pub db_l_range :
    Str → ℤ → ℤ → List Str → LightDb → Option (Code × Option Bool × List Str)
unfolding check_key_value l_range
db_l_range key start end vals d =
    let c = check_key_value d.config key [] in
    if ok c
    then (elim (l_range d.list_idx key start end vals) [
      | none ↦ none
      | some (suc, out) ↦ some (k_ok, some suc, out)
    ])
    else some (c, none, vals)

unfoldable pub db_l_clear : Str → Action (Code × ℕ)
unfolding check_key_value check_expired l_clear store_now
db_l_clear key d =
    let (expired, d1) = check_expired key list d in
    let (r, count) = l_clear d1.list_idx key in
    let (status, d2) = store_now key [] list list_l_clear (with_lists d1 r) in
    if ok (check_key_value d.config key [])
    then if expired then ((k_ok, 0), d1) else ((status, count), d2)
    else ((k_ok, 0), d)

unfoldable pub db_l_expire : Str → ℕ → Action (Code × Option Bool)
unfolding db_l_key_exist current_time_stamp new_entry_with_expire store
db_l_expire key duration d =
    let (now, d1) = current_time_stamp d in
    let deadline = deadline_of now duration in
    let (status, d2) = store (new_entry_with_expire key [] deadline list list_l_expire) d1 in
    let d3 = record d2 {
      expires = set_at d2.expires list (assign (d2.expires list) key deadline);
    } in
    if db_l_key_exist key d
    then if ok status then ((k_ok, some true), d3) else ((status, none), d2)
    else ((k_key_not_exist, some false), d)

unfoldable pub db_l_ttl : Str → Action ℤ
unfolding check_expired time_left
db_l_ttl key d =
    let (expired, d1) = check_expired key list d in
    if expired then (negsuc 1, d1) else time_left list key d1
