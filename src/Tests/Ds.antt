-- ===== src/Tests/Ds.antt =====
-- Runs of the data structures of ds/.
use lightdb.Common.Int.{pos, negsuc}
use lightdb.Common.Map.{find, insert, assign}
use lightdb.Common.{
  leb, Str, codes, str_eq, contains, length, true, false, none, some, List, [], ◌∷◌, ◌++◌,
  if◌then◌else◌, ◌≡◌, refl,
}
use lightdb.Ds.Hash.{Hash, h_set, h_get}
use lightdb.Ds.Hash.Size.{IsValid, h_set-IsValid}
use lightdb.Ds.Hash.Refinement.{Write, run, specify_all, run-specify_all}
use lightdb.Ds.Lists.{
  literal_key, Lists, items, l_push, r_push, l_pop, l_range, l_trim, l_key_exist,
}
use lightdb.Ds.Lists.Range.{start_of, stop_of, slice, l_range-slice}
use lightdb.Ds.Lists.Trim.{trimmed, l_trim-trimmed}
use lightdb.Ds.Lists.Defects.{push_breaks_literal_key}
use lightdb.Ds.Sets.{Sets, s_is_member, s_union, s_key_exist, s_members}
use lightdb.Ds.Sets.Algebra.{in_any, contains-s_members, contains-s_union}

abbrev k : Str
k = codes "user"

abbrev f : Str
f = codes "name"

abbrev g : Str
g = codes "town"

abbrev v : Str
v = codes "ann"

abbrev w : Str
w = codes "oslo"

abbrev user : Hash
user = (k, (f, v) ∷ (g, w) ∷ []) ∷ []

empty-IsValid : IsValid []
unfolding find
empty-IsValid = record { buckets = λ key. tt }

user-IsValid : IsValid user
unfolding h_set find str_eq insert assign
user-IsValid = h_set-IsValid (h_set [] k f v).0 k g w (h_set-IsValid [] k f v empty-IsValid)

abbrev writes : List Write
writes = Write.set k f w ∷ Write.del k g ∷ Write.set_nx v g w ∷ Write.clear k ∷ []

run-specify_all_example : h_get (run user writes) ≡ specify_all (h_get user) writes
run-specify_all_example = run-specify_all user writes

abbrev queue : Lists
queue = (k, f ∷ g ∷ v ∷ []) ∷ []

l_range-slice_example :
    l_range queue k (negsuc 1) (pos 5) []
    ≡ some (
        if leb
          (stop_of (length (items queue k)) (pos 5))
          (start_of (length (items queue k)) (negsuc 1))
        then (false, [])
        else (
          true,
          []
              ++ slice
                  (start_of (length (items queue k)) (negsuc 1))
                  (stop_of (length (items queue k)) (pos 5))
                  (items queue k),
        ))
l_range-slice_example = l_range-slice queue k (negsuc 1) (pos 5) []

l_trim-trimmed_example :
    ((l_trim queue k (pos 1) (pos 1)).1 ≡ l_key_exist queue k)
    × (items (l_trim queue k (pos 1) (pos 1)).0 k ≡ (
        if str_eq k k
        then trimmed
            (start_of (length (items queue k)) (pos 1))
            (stop_of (length (items queue k)) (pos 1))
            (items queue k)
        else items queue k))
l_trim-trimmed_example = l_trim-trimmed queue k (pos 1) (pos 1) k

push_breaks_literal_key_example :
    (l_pop (l_push [] k v).0 literal_key ≡ none) × (l_pop (r_push [] k v).0 literal_key ≡ none)
unfolding find str_eq
push_breaks_literal_key_example = push_breaks_literal_key [] k v refl refl refl

abbrev groups : Sets
groups = (k, (f, 1) ∷ (g, 1) ∷ []) ∷ (v, (w, 1) ∷ []) ∷ []

contains-s_members_example :
    ((s_members groups k []).0 ≡ s_key_exist groups k)
    × (contains (s_members groups k []).1 g ≡ s_is_member groups k g)
contains-s_members_example = contains-s_members groups k g

contains-s_union_example :
    contains (s_union groups (k ∷ v ∷ []) []) w ≡ in_any groups (k ∷ v ∷ []) w
contains-s_union_example = contains-s_union groups (k ∷ v ∷ []) w
