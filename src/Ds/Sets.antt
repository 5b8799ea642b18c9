-- ===== src/Ds/Sets.antt =====
-- ds/set/ds_set.h: the class `Set`. `record` maps a key to a map whose keys are the members; the
-- value 1 that the source stores beside each member is kept. `none` is undefined behaviour: the
-- first element of an empty map.
pub mod Members
pub mod Algebra
use lightdb.Common.Map.{Map, has, find_or, insert, assign, erase}
use lightdb.Common.{
  ℕ, Str, str_eq, str_lt, contains, length, Bool, true, false, Option, none, some, List, [], ◌∷◌,
  ◌++◌, if◌then◌else◌,
}

abbrev pub Sets : Type 0
Sets = Map (Map ℕ)

-- `record[key]`, where the key is present
abbrev pub members : Sets → Str → Map ℕ
members r key = find_or r key []

unfoldable pub s_key_exist : Sets → Str → Bool
s_key_exist r key = if has r key then true else false

abbrev pub with_set : Sets → Str → Sets
with_set r key = if s_key_exist r key then r else insert r key []

unfoldable pub s_add : Sets → Str → Str → Sets × ℕ
unfolding s_key_exist
s_add r key member =
    let r1 = with_set r key in
    let m = insert (members r1 key) member 1 in (assign r1 key m, length m)

abbrev pub shrunk : Sets → Str → Map ℕ → Sets
shrunk r key [] = erase (assign r key []) key
shrunk r key (e ∷ m) = assign r key (e ∷ m)

-- `begin()` of the map, and `erase` of it
unfoldable pub pop_begin : Sets → Str → Map ℕ → Option (Sets × Option Str)
pop_begin r key [] = none
pop_begin r key ((member, v) ∷ m) = some (shrunk r key m, some member)

unfoldable pub s_pop : Sets → Str → Option (Sets × Option Str)
unfolding s_key_exist pop_begin
s_pop r key = if s_key_exist r key then pop_begin r key (members r key) else some (r, none)

unfoldable pub s_card : Sets → Str → ℕ
unfolding s_key_exist
s_card r key = if s_key_exist r key then length (members r key) else 0

unfoldable pub s_is_member : Sets → Str → Str → Bool
unfolding s_key_exist
s_is_member r key member =
    if s_key_exist r key then (if has (members r key) member then true else false) else false

unfoldable pub s_rem : Sets → Str → Str → Sets × Bool
unfolding s_key_exist
s_rem r key member =
    if s_key_exist r key
    then (if has (members r key) member
        then (assign r key (erase (members r key) member), true)
        else (r, false))
    else (r, false)

unfoldable pub s_move : Sets → Str → Str → Str → Sets × Bool
unfolding s_key_exist
s_move r src dst member =
    if s_key_exist r src
    then (if has (members r src) member
        then (let r1 = assign r src (erase (members r src) member) in
            let r2 = with_set r1 dst in (assign r2 dst (insert (members r2 dst) member 1), true))
        else (r, false))
    else (r, false)

unfoldable pub push_members : Map ℕ → List Str → List Str
push_members [] vals = vals
push_members ((member, v) ∷ m) vals = push_members m (vals ++ member ∷ [])

unfoldable pub s_members : Sets → Str → List Str → Bool × List Str
unfolding s_key_exist push_members
s_members r key vals =
    if s_key_exist r key then (true, push_members (members r key) vals) else (false, vals)

-- `map[itj.first] = 1` for each member
unfoldable pub mark_all : Map ℕ → Map ℕ → Map ℕ
mark_all [] acc = acc
mark_all ((member, v) ∷ m) acc = mark_all m (assign acc member 1)

unfoldable pub union_loop : Sets → List Str → Map ℕ → Map ℕ
unfolding s_key_exist mark_all
union_loop r [] acc = acc
union_loop r (key ∷ keys) acc =
    union_loop r keys (if s_key_exist r key then mark_all (members r key) acc else acc)

unfoldable pub s_union : Sets → List Str → List Str → List Str
unfolding union_loop push_members
s_union r keys vals = push_members (union_loop r keys []) vals

-- `std::set<std::string>`: sorted, each string once
unfoldable pub set_insert : List Str → Str → List Str
set_insert [] x = x ∷ []
set_insert (y ∷ ys) x =
    if str_eq x y then y ∷ ys else if str_lt x y then x ∷ y ∷ ys else y ∷ set_insert ys x

unfoldable pub set_erase : List Str → Str → List Str
set_erase [] x = []
set_erase (y ∷ ys) x = let rest = set_erase ys x in if str_eq y x then rest else y ∷ rest

unfoldable pub collect : Map ℕ → List Str → List Str
unfolding set_insert
collect [] acc = acc
collect ((member, v) ∷ m) acc = collect m (set_insert acc member)

unfoldable pub remove_all : List Str → List Str → List Str
unfolding set_erase
remove_all [] acc = acc
remove_all (v ∷ vs) acc = remove_all vs (if contains acc v then set_erase acc v else acc)

-- `record[key1]` creates an empty set under a missing key.
abbrev pub touched : Sets → Str → Sets
touched r key = if has r key then r else assign r key []

unfoldable pub s_diff : Sets → Str → List Str → List Str → Sets × List Str
unfolding s_union collect remove_all
s_diff r key1 succ_keys vals =
    let r1 = touched r key1 in
    let to_ret = collect (members r key1) [] in
    (r1, vals ++ remove_all (s_union r1 succ_keys []) to_ret)

unfoldable pub s_clear : Sets → Str → Sets × ℕ
unfolding s_key_exist
s_clear r key = if s_key_exist r key then (erase r key, length (members r key)) else (r, 0)
