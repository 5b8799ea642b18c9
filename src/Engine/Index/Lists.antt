-- ===== src/Engine/Index/Lists.antt =====
-- idx.cpp: `buildListIndex`, which applies an entry of a list to the index.
use lightdb.Common.Int.{ℤ, pos, eq_ℤ}
use lightdb.Common.{Str, Option, none, some, List, ◌∷◌, if◌then◌else◌}
use lightdb.Storage.Entry.{
  list, list_l_push, list_r_push, list_l_pop, list_r_pop, list_l_rem, list_l_insert, list_l_set,
  list_l_trim, list_l_clear, list_l_expire, Entry,
}
use lightdb.Ds.Lists.{
  InsertOption, before, after, Lists, l_push, r_push, l_pop, r_pop, l_rem, l_insert, l_set, l_trim,
  l_clear,
}
use lightdb.Util.{split_with_stl}
use lightdb.Util.Numbers.{string_to_int}
use lightdb.Engine.State.{LightDb}
use lightdb.Engine.Lists.{with_lists, extra_separator}
use lightdb.Engine.Index.{has_mark, load_expiry}

-- A number cast to an `InsertOption`; `LInsert` takes every other value for `After`.
abbrev pub option_of : ℤ → InsertOption
option_of z = if eq_ℤ z (pos 1) then before else after

-- What a pop or a removal leaves, its result dropped.
abbrev pub left_by {ℓ} : {A : Type ℓ} → LightDb → Option (Lists × A) → Option LightDb
left_by d none = none
left_by d (some (r, a)) = some (with_lists d r)

-- The parts of `extra`, the pivot and the option; `none` where a part is missing or no number.
unfoldable pub load_insert : Entry → LightDb → List Str → Option LightDb
unfolding string_to_int l_insert
load_insert e d (pivot ∷ option ∷ parts) = elim (string_to_int option) [
  | none ↦ none
  | some z ↦ some (with_lists d (l_insert d.list_idx e.key (option_of z) pivot e.value).0)
]
load_insert e d parts = none

-- The parts of `extra`, the two offsets.
unfoldable pub load_trim : Entry → LightDb → List Str → Option LightDb
unfolding string_to_int l_trim
load_trim e d (start ∷ end ∷ parts) = elim (string_to_int start) [
  | none ↦ none
  | some s ↦ elim (string_to_int end) [
    | none ↦ none
    | some t ↦ some (with_lists d (l_trim d.list_idx e.key s t).0)
  ]
]
load_trim e d parts = none

-- `none` where `stoi` throws, where a part of `extra` is missing, and where the list store is
-- undefined.
unfoldable pub build_list_index : Entry → LightDb → Option LightDb
build_list_index e d =
    if has_mark e list_l_push
    then some (with_lists d (l_push d.list_idx e.key e.value).0)
    else if has_mark e list_l_pop
    then left_by d (l_pop d.list_idx e.key)
    else if has_mark e list_r_push
    then some (with_lists d (r_push d.list_idx e.key e.value).0)
    else if has_mark e list_r_pop
    then left_by d (r_pop d.list_idx e.key)
    else if has_mark e list_l_rem
    then (elim (string_to_int e.extra) [
      | none ↦ none
      | some count ↦ left_by d (l_rem d.list_idx e.key e.value count)
    ])
    else if has_mark e list_l_insert
    then load_insert e d (split_with_stl e.extra extra_separator)
    else if has_mark e list_l_set
    then (elim (string_to_int e.extra) [
      | none ↦ none
      | some index ↦ some (with_lists d (l_set d.list_idx e.key index e.value).0)
    ])
    else if has_mark e list_l_trim
    then load_trim e d (split_with_stl e.extra extra_separator)
    else if has_mark e list_l_expire
    then some (load_expiry list e d)
    else if has_mark e list_l_clear
    then some (with_lists d (l_clear d.list_idx e.key).0)
    else some d
