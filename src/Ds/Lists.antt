-- ===== src/Ds/Lists.antt =====
-- ds/list/ds_list.h: the class `List`. `record` maps a key to its list. A method returns the new
-- record beside its result; `none` where the source runs into undefined behaviour: `front` or
-- `back` of an empty list, and a step of an iterator whose element was erased.
pub mod Ends
pub mod Index
pub mod Range
pub mod Trim
pub mod Defects
use lightdb.Common.Int.{ℤ, pos, negsuc, pos_part, ◌+ℤ◌, ◌-ℤ◌, ltb_ℤ, leb_ℤ, eq_ℤ}
use lightdb.Common.Map.{Map, has, find_or, insert, assign, erase}
use lightdb.Common.{
  ℕ, zero, suc, ◌+◌, ◌/◌, Str, codes, str_eq, length, get_elem?, set, leb, ltb, Bool, true, false,
  ◌||◌, Option, none, some, List, [], ◌∷◌, ◌++◌, if◌then◌else◌,
}

pub data InsertOption : Type 0 where
  before after : InsertOption

abbrev pub Lists : Type 0
Lists = Map (List Str)

-- `record[key]`, where the key is present
abbrev pub items : Lists → Str → List Str
items r key = find_or r key []

unfoldable pub l_key_exist : Lists → Str → Bool
l_key_exist r key = if has r key then true else false

-- The source inserts under the literal "key", not under its argument.
abbrev pub literal_key : Str
literal_key = codes "key"

abbrev pub created : Lists → Str → Lists
created r key = if l_key_exist r key then r else insert r literal_key []

unfoldable pub l_push : Lists → Str → Str → Lists × ℕ
unfolding l_key_exist
l_push r key val =
    let r1 = created r key in
    let xs : List Str = val ∷ items r1 key in (assign r1 key xs, length xs)

unfoldable pub r_push : Lists → Str → Str → Lists × ℕ
unfolding l_key_exist
r_push r key val =
    let r1 = created r key in
    let xs : List Str = items r1 key ++ val ∷ [] in (assign r1 key xs, length xs)

-- `if (record[key].empty()) record.erase(key)`
abbrev pub shrunk : Lists → Str → List Str → Lists
shrunk r key [] = erase (assign r key []) key
shrunk r key (x ∷ xs) = assign r key (x ∷ xs)

unfoldable pub pop_front : Lists → Str → List Str → Option (Lists × Option Str)
pop_front r key [] = none
pop_front r key (x ∷ xs) = some (shrunk r key xs, some x)

unfoldable pub l_pop : Lists → Str → Option (Lists × Option Str)
unfolding l_key_exist pop_front
l_pop r key = if l_key_exist r key then pop_front r key (items r key) else some (r, none)

-- `back` and `pop_back`
unfoldable pub split_last : List Str → Option (List Str × Str)
split_last [] = none
split_last (x ∷ xs) = elim (split_last xs) [ none ↦ some ([], x) | some p ↦ some (x ∷ p.0, p.1) ]

unfoldable pub pop_back : Lists → Str → Option (List Str × Str) → Option (Lists × Option Str)
pop_back r key none = none
pop_back r key (some p) = some (shrunk r key p.0, some p.1)

unfoldable pub r_pop : Lists → Str → Option (Lists × Option Str)
unfolding l_key_exist pop_back split_last
r_pop r key =
    if l_key_exist r key then pop_back r key (split_last (items r key)) else some (r, none)

-- `index` is a `uint32_t`.
unfoldable pub l_index : Lists → Str → ℕ → Option Str
unfolding l_key_exist
l_index r key index =
    if l_key_exist r key
    then (if leb (length (items r key)) index then none else get_elem? (items r key) index)
    else none

-- `it++` at the end of a round; `none` after `erase(it)`, which leaves no iterator to step. Going
-- backwards, `erase(it.base())` erases what the reverse iterator stands on, or is given `end()`.
abbrev pub stepped {ℓ} : {A : Type ℓ} → Bool → Option A → Option A
stepped erased rest = if erased then none else rest

-- The loop of a count of 0 goes over all elements; it gives what `res` is at its end.
unfoldable pub rem_all : List Str → Str → ℕ → Option ℕ
rem_all [] val res = some res
rem_all (x ∷ xs) val res =
    let found = str_eq x val in
    let rest = rem_all xs val (if found then suc res else res) in stepped found rest

-- The loops of the other counts end too when as many elements are removed as are asked for.
unfoldable pub rem_some : List Str → Str → ℕ → ℕ → Option ℕ
rem_some [] val count res = some res
rem_some (x ∷ xs) val zero res = some res
rem_some (x ∷ xs) val (suc count) res =
    let found = str_eq x val in
    let rest =
      rem_some xs val (if found then count else suc count) (if found then suc res else res) in
    stepped found rest

unfoldable pub rev : List Str → List Str → List Str
rev [] acc = acc
rev (x ∷ xs) acc = rev xs (x ∷ acc)

-- A run that erases nothing leaves the record.
abbrev pub with_record : Lists → Option ℕ → Option (Lists × ℕ)
with_record r none = none
with_record r (some res) = some (r, res)

unfoldable pub l_rem : Lists → Str → Str → ℤ → Option (Lists × ℕ)
unfolding rem_all rem_some rev
l_rem r key val count =
    if has r key
    then with_record r (elim count [
      | pos zero ↦ rem_all (items r key) val 0
      | pos (suc n) ↦ rem_some (items r key) val (suc n) 0
      | negsuc n ↦ rem_some (rev (items r key) []) val (suc n) 0
    ])
    else some (r, 0)

unfoldable pub l_len : Lists → Str → ℕ
unfolding l_key_exist
l_len r key = if l_key_exist r key then length (items r key) else 0

unfoldable pub l_clear : Lists → Str → Lists × ℕ
unfolding l_key_exist
l_clear r key = if l_key_exist r key then (erase r key, length (items r key)) else (r, 0)

unfoldable pub l_set : Lists → Str → ℤ → Str → Lists × Bool
unfolding l_key_exist
l_set r key index val =
    if l_key_exist r key
    then (if ltb_ℤ index (pos 0) || leb_ℤ (pos (length (items r key))) index
        then (r, false)
        else (assign r key (set (items r key) (pos_part index) val), true))
    else (r, false)

-- The search for the pivot and the insertion at it; `none` where the pivot is missing.
unfoldable pub insert_at : InsertOption → Str → Str → List Str → Option (List Str)
insert_at option pivot val [] = none
insert_at option pivot val (x ∷ xs) =
    if str_eq x pivot
    then some (elim option [ before ↦ val ∷ x ∷ xs | after ↦ x ∷ val ∷ xs ])
    else (elim (insert_at option pivot val xs) [ none ↦ none | some ys ↦ some (x ∷ ys) ])

-- `record[key]` creates an empty list under a missing key.
abbrev pub touched : Lists → Str → Lists
touched r key = if has r key then r else assign r key []

unfoldable pub l_insert : Lists → Str → InsertOption → Str → Str → Lists × ℤ
unfolding insert_at
l_insert r key option pivot val = elim (insert_at option pivot val (items r key)) [
  | none ↦ (touched r key, negsuc 0)
  | some ys ↦ (assign r key ys, pos (length ys))
]

unfoldable pub handle_index : ℕ → ℤ → ℤ → ℤ × ℤ
handle_index len start end =
    let s1 = if ltb_ℤ start (pos 0) then start +ℤ pos len else start in
    let e1 = if ltb_ℤ end (pos 0) then end +ℤ pos len else end in
    let s2 = if ltb_ℤ s1 (pos 0) then pos 0 else s1 in
    let e2 = if leb_ℤ (pos len) e1 then pos len -ℤ pos 1 else e1 in (s2, e2)

-- `start > end || start >= length`
abbrev pub out_of_range : ℕ → ℤ × ℤ → Bool
out_of_range len (s, e) = ltb_ℤ e s || leb_ℤ (pos len) s

-- `it++`, n times; `none` past the end
unfoldable pub skip : ℕ → List Str → Option (List Str)
skip zero xs = some xs
skip (suc n) [] = none
skip (suc n) (x ∷ xs) = skip n xs

-- n times `vals.push_back(*it)`; `none` where `it` is the end
unfoldable pub push_range : ℕ → List Str → List Str → Option (List Str)
push_range zero xs vals = some vals
push_range (suc n) [] vals = none
push_range (suc n) (x ∷ xs) vals = push_range n xs (vals ++ x ∷ [])

abbrev pub range_loop : List Str → List Str → ℤ × ℤ → Option (Bool × List Str)
range_loop xs vals (s, e) = elim (skip (pos_part s) xs) [
  | none ↦ none
  | some ys ↦ elim (push_range (pos_part (e -ℤ s +ℤ pos 1)) ys vals) [
    | none ↦ none
    | some out ↦ some (true, out)
  ]
]

unfoldable pub l_range : Lists → Str → ℤ → ℤ → List Str → Option (Bool × List Str)
unfolding l_key_exist
l_range r key start end vals =
    let xs = items r key in
    let se = handle_index (length xs) start end in
    if l_key_exist r key
    then (if out_of_range (length xs) se then some (false, vals) else range_loop xs vals se)
    else some (false, vals)

-- The loop of the first branch of `LTrim`, which never steps `index`.
unfoldable pub trim_small : ℤ → ℤ → ℤ → List Str → List Str → List Str
trim_small s e index [] out = out
trim_small s e index (x ∷ xs) out =
    let next = trim_small s e index xs out in
    let pushed = trim_small s e index xs (out ++ x ∷ []) in
    if ltb_ℤ index s then next else if leb_ℤ index e then pushed else out

-- The loop of the second branch, with the erasures that follow it.
unfoldable pub trim_large : ℤ → ℤ → ℕ → List Str → List Str
trim_large s e index [] = []
trim_large s e index (x ∷ xs) =
    let rest = trim_large s e (suc index) xs in
    if ltb_ℤ (pos index) s || ltb_ℤ e (pos index) then rest else x ∷ rest

abbrev pub trim_loop : Lists → Str → ℤ × ℤ → Lists
trim_loop r key (s, e) =
    if ltb_ℤ (e -ℤ s +ℤ pos 1) (pos (length (items r key) / 2))
    then insert (erase r key) key (trim_small s e (pos 0) (items r key) [])
    else assign r key (trim_large s e 0 (items r key))

unfoldable pub l_trim : Lists → Str → ℤ → ℤ → Lists × Bool
unfolding l_key_exist
l_trim r key start end =
    let se = handle_index (length (items r key)) start end in
    if l_key_exist r key
    then (if out_of_range (length (items r key)) se
        then (erase r key, true)
        else (trim_loop r key se, true))
    else (r, false)
