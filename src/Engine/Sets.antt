-- ===== src/Engine/Sets.antt =====
-- db_set.cpp: the set operations of `LightDB`. A result that an operation leaves unwritten is
-- `none`.
pub mod Journal
pub mod Commands
pub mod Runs
pub mod Expiry
use lightdb.Common.Int.{ℤ, negsuc}
use lightdb.Common.Map.{Map, has, assign}
use lightdb.Common.{ℕ, Str, Bool, true, false, Option, none, some, List, [], ◌∷◌, if◌then◌else◌}
use lightdb.Storage.Entry.{
  DataType, set, set_s_add, set_s_rem, set_s_move, set_s_clear, set_s_expire, new_entry_with_expire,
}
use lightdb.Storage.Status.{Code, k_ok, ok}
use lightdb.Ds.Sets.{
  Sets, s_add, s_pop, s_is_member, s_rem, s_move, s_card, s_members, s_union, s_diff, s_key_exist,
  s_clear,
}
use lightdb.Engine.State.{
  LightDb, Action, Config, set_at, current_time_stamp, check_key_value, check_expired, store,
  store_now, store_extra, deadline_of, time_left,
}
use lightdb.Engine.Hashes.{value_or_empty}

abbrev pub with_sets : LightDb → Sets → LightDb
with_sets d r = record d { set_idx = r }

-- The part of `SAdd` behind `CheckExpired`.
unfoldable pub db_s_insert : Str → Str → Action (Code × Option ℕ)
unfolding s_is_member s_add store_now
db_s_insert key member d =
    let (r, count) = s_add d.set_idx key member in
    let (status, d1) = store_now key member set set_s_add (with_sets d r) in
    if s_is_member d.set_idx key member
    then ((k_ok, some count), with_sets d r)
    else ((status, some count), d1)

unfoldable pub db_s_add : Str → Str → Action (Code × Option ℕ)
unfolding check_key_value check_expired db_s_insert
db_s_add key member d =
    let c = check_key_value d.config key member in
    if ok c then db_s_insert key member (check_expired key set d).1 else ((c, none), d)

-- What follows the `SPop` of the index: an entry of the popped member, or else of what `val` held.
unfoldable pub db_s_popped :
    Str → Str → LightDb → Option (Sets × Option Str) → Option ((Code × Str × Bool) × LightDb)
unfolding store_now
db_s_popped key val d none = none
db_s_popped key val d (some (r, none)) =
    let (status, d1) = store_now key val set set_s_rem (with_sets d r) in
    some ((status, val, false), d1)
db_s_popped key val d (some (r, some member)) =
    let (status, d1) = store_now key member set set_s_rem (with_sets d r) in
    some ((status, member, true), d1)

-- `val` and `suc` are what the caller's variables hold. `none` is the `begin` of an empty set.
unfoldable pub db_s_pop : Str → Str → Bool → LightDb → Option ((Code × Str × Bool) × LightDb)
unfolding check_key_value check_expired s_pop db_s_popped
db_s_pop key val suc d =
    let c = check_key_value d.config key [] in
    if ok c
    then (let (expired, d1) = check_expired key set d in
        if expired
        then some ((k_ok, val, false), d1)
        else db_s_popped key val d1 (s_pop d1.set_idx key))
    else some ((c, val, suc), d)

unfoldable pub db_s_is_member : Str → Str → Action Bool
unfolding check_key_value check_expired s_is_member
db_s_is_member key member d =
    if ok (check_key_value d.config key member)
    then (let (expired, d1) = check_expired key set d in
        if expired then (false, d1) else (s_is_member d1.set_idx key member, d1))
    else (false, d)

unfoldable pub db_s_rem : Str → Str → Action (Code × Option Bool)
unfolding check_key_value check_expired s_rem store_now
db_s_rem key member d =
    let c = check_key_value d.config key member in
    if ok c
    then (let (expired, d1) = check_expired key set d in
        let (r, suc) = s_rem d1.set_idx key member in
        let (status, d2) = store_now key member set set_s_rem (with_sets d1 r) in
        if expired then ((k_ok, some false), d1) else ((status, some suc), d2))
    else ((c, none), d)

unfoldable pub db_s_move : Str → Str → Str → Action (Code × Bool)
unfolding check_key_value check_expired s_move store_extra
db_s_move src dst member d =
    if ok (check_key_value d.config src [])
    then (if ok (check_key_value d.config dst member)
        then (let (expired, d1) = check_expired src set d in
            let d2 = (check_expired dst set d1).1 in
            let (r, suc) = s_move d2.set_idx src dst member in
            let (status, d3) = store_extra src member dst set set_s_move (with_sets d2 r) in
            if expired then ((k_ok, false), d1) else ((status, suc), d3))
        else ((k_ok, false), d))
    else ((k_ok, false), d)

unfoldable pub db_s_card : Str → Action ℕ
unfolding check_key_value check_expired s_card
db_s_card key d =
    if ok (check_key_value d.config key [])
    then (let (expired, d1) = check_expired key set d in
        if expired then (0, d1) else (s_card d1.set_idx key, d1))
    else (0, d)

unfoldable pub db_s_members : Str → List Str → Action (Bool × List Str)
unfolding check_key_value check_expired s_members
db_s_members key members d =
    if ok (check_key_value d.config key [])
    then (let (expired, d1) = check_expired key set d in
        if expired then ((false, members), d1) else (s_members d1.set_idx key members, d1))
    else ((false, members), d)

unfoldable pub valid_keys : Config → List Str → List Str
unfolding check_key_value
valid_keys c [] = []
valid_keys c (key ∷ keys) =
    if ok (check_key_value c key []) then key ∷ valid_keys c keys else valid_keys c keys

unfoldable pub keys_not_expired : List Str → Action (List Str)
unfolding check_expired
keys_not_expired [] d = ([], d)
keys_not_expired (key ∷ keys) d =
    let (expired, d1) = check_expired key set d in
    let (rest, d2) = keys_not_expired keys d1 in if expired then (rest, d2) else (key ∷ rest, d2)

unfoldable pub db_s_union : List Str → List Str → Action (List Str)
unfolding valid_keys keys_not_expired s_union
db_s_union keys vals d =
    let (ks, d1) = keys_not_expired (valid_keys d.config keys) d in (s_union d1.set_idx ks vals, d1)

unfoldable pub db_s_diff : Str → List Str → List Str → Action (List Str)
unfolding check_key_value check_expired valid_keys keys_not_expired s_diff
db_s_diff key1 succ_keys vals d =
    if ok (check_key_value d.config key1 [])
    then (let (expired, d1) = check_expired key1 set d in
        let (ks, d2) = keys_not_expired (valid_keys d1.config succ_keys) d1 in
        let (r, vals') = s_diff d2.set_idx key1 ks vals in
        if expired then (vals, d1) else (vals', with_sets d2 r))
    else (vals, d)

unfoldable pub db_s_key_exist : Str → Action Bool
unfolding check_key_value check_expired s_key_exist
db_s_key_exist key d =
    if ok (check_key_value d.config key [])
    then (let (expired, d1) = check_expired key set d in
        if expired then (false, d1) else (s_key_exist d1.set_idx key, d1))
    else (false, d)

-- The end of `SClear`: the entry is stored first.
unfoldable pub db_s_drop : Str → Action (Code × Option ℕ)
unfolding store_now s_clear
db_s_drop key d =
    let (status, d1) = store_now key [] set set_s_clear d in
    let (r, count) = s_clear d1.set_idx key in
    if ok status then ((k_ok, some count), with_sets d1 r) else ((status, none), d1)

unfoldable pub db_s_clear : Str → Action (Code × Option ℕ)
unfolding check_key_value db_s_key_exist check_expired db_s_drop
db_s_clear key d =
    if ok (check_key_value d.config key [])
    then (let (exist, d1) = db_s_key_exist key d in
        let (expired, d2) = check_expired key set d1 in
        if exist
        then if expired then ((k_ok, some 0), d2) else db_s_drop key d2
        else ((k_ok, some 0), d1))
    else ((k_ok, some 0), d)

-- `expires[Set][key] == deadline` compares; the read makes an absent deadline 0.
abbrev pub touch_deadline : Str → LightDb → LightDb
touch_deadline key d =
    if has (d.expires set) key
    then d
    else record d { expires = set_at d.expires set (assign (d.expires set) key 0) }

-- The part of `SExpire` behind its checks.
unfoldable pub db_s_mark : Str → ℕ → Action (Code × Bool)
unfolding current_time_stamp new_entry_with_expire store
db_s_mark key duration d =
    let (now, d1) = current_time_stamp d in
    let deadline = deadline_of now duration in
    let (status, d2) = store (new_entry_with_expire key [] deadline set set_s_expire) d1 in
    if ok status then ((k_ok, true), touch_deadline key d2) else ((status, false), d2)

unfoldable pub db_s_expire : Str → ℕ → Action (Code × Bool)
unfolding check_key_value check_expired db_s_key_exist db_s_mark
db_s_expire key duration d =
    if ok (check_key_value d.config key [])
    then (let (expired, d1) = check_expired key set d in
        let (exist, d2) = db_s_key_exist key d1 in
        if expired
        then ((k_ok, false), d1)
        else if exist
        then db_s_mark key duration d2
        else ((k_ok, false), d2))
    else ((k_ok, false), d)

unfoldable pub db_s_ttl : Str → Action ℤ
unfolding check_key_value check_expired time_left
db_s_ttl key d =
    if ok (check_key_value d.config key [])
    then (let (expired, d1) = check_expired key set d in
        if expired then (negsuc 1, d1) else time_left set key d1)
    else (negsuc 1, d)
