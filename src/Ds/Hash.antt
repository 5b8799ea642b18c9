-- ===== src/Ds/Hash.antt =====
-- ds/hash/ds_hash.h: the class `Hash`. `record` maps a key to the map of its fields. A method
-- returns the new record beside its result; an `std::string&` result that is written only on
-- success is an `Option`.
mod Buckets
pub mod View
pub mod Size
pub mod Refinement
use lightdb.Common.Map.{Map, find, has, find_or, insert, assign, erase}
use lightdb.Common.{
  ℕ, Str, length, Bool, true, false, Option, none, some, List, [], ◌∷◌, ◌++◌, if◌then◌else◌,
}

abbrev pub Hash : Type 0
Hash = Map (Map Str)

-- `record[key]`, where the key is present
abbrev pub bucket : Hash → Str → Map Str
bucket h key = find_or h key []

unfoldable pub h_key_exist : Hash → Str → Bool
h_key_exist h key = if has h key then true else false

-- The new bucket of a missing key, before the field is written.
abbrev pub with_bucket : Hash → Str → Hash
with_bucket h key = if has h key then h else insert h key []

unfoldable pub h_set : Hash → Str → Str → Str → Hash × ℕ
h_set h key field value =
    let h1 = with_bucket h key in
    if has (bucket h1 key) field
    then (assign h1 key (assign (bucket h1 key) field value), 0)
    else (assign h1 key (insert (bucket h1 key) field value), 1)

unfoldable pub h_set_nx : Hash → Str → Str → Str → Hash × Bool
unfolding h_key_exist
h_set_nx h key field value =
    if h_key_exist h key
    then (if has (bucket h key) field
        then (h, false)
        else (assign h key (insert (bucket h key) field value), true))
    else (let h1 = insert h key [] in (assign h1 key (insert (bucket h1 key) field value), true))

unfoldable pub h_get : Hash → Str → Str → Option Str
h_get h key field = if has h key then find (bucket h key) field else none

unfoldable pub h_del : Hash → Str → Str → Hash × Bool
h_del h key field =
    if has h key
    then (if has (bucket h key) field
        then (assign h key (erase (bucket h key) field), true)
        else (h, false))
    else (h, false)

unfoldable pub h_exist : Hash → Str → Str → Bool
unfolding h_key_exist
h_exist h key field =
    if h_key_exist h key then (if has (bucket h key) field then true else false) else false

unfoldable pub h_len : Hash → Str → ℕ
unfolding h_key_exist
h_len h key = if h_key_exist h key then length (bucket h key) else 0

-- The loops of `HKeys`, `HVals` and `HGetAll` over `record[key]`.
unfoldable pub push_keys : Map Str → List Str → List Str
push_keys [] res = res
push_keys ((f, v) ∷ m) res = push_keys m (res ++ f ∷ [])

unfoldable pub push_vals : Map Str → List Str → List Str
push_vals [] res = res
push_vals ((f, v) ∷ m) res = push_vals m (res ++ v ∷ [])

unfoldable pub push_all : Map Str → List Str → List Str
push_all [] res = res
push_all ((f, v) ∷ m) res = push_all m ((res ++ f ∷ []) ++ v ∷ [])

unfoldable pub h_keys : Hash → Str → List Str → List Str
unfolding push_keys
h_keys h key res = if has h key then push_keys (bucket h key) res else res

unfoldable pub h_vals : Hash → Str → List Str → List Str
unfolding push_vals h_key_exist
h_vals h key values = if h_key_exist h key then push_vals (bucket h key) values else values

unfoldable pub h_get_all : Hash → Str → List Str → Bool × List Str
unfolding push_all h_key_exist
h_get_all h key vals =
    if h_key_exist h key then (true, push_all (bucket h key) vals) else (false, vals)

unfoldable pub h_clear : Hash → Str → Hash × ℕ
unfolding h_key_exist
h_clear h key = if h_key_exist h key then (erase h key, length (bucket h key)) else (h, 0)
