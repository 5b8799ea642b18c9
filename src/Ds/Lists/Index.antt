-- ===== src/Ds/Lists/Index.antt =====
-- Access by position and by pivot: `LIndex`, `LSet` and `LInsert`.
use lightdb.Common.Int.{pos, negsuc}
use lightdb.Common.Map.{assign, find-assign}
use lightdb.Common.{
  ℕ, zero, suc, ◌+◌, ◌<◌, ◌==◌, Str, str_eq, str_eq_iff, str_eq_self, length, get_elem?, set, leb,
  ◌≡◌, refl, true, false, none, some, List, [], ◌∷◌, ◌++◌, arith, if◌then◌else◌,
}
use lightdb.Ds.Lists.{
  Lists, items, touched, InsertOption, before, after, l_key_exist, l_index, l_set, l_insert,
  insert_at,
}
use lightdb.Ds.Lists.Ends.{items-assign}

get_elem?_beyond : (xs : List Str) (i : ℕ) → leb (length xs) i ≡ true → get_elem? xs i ≡ none
get_elem?_beyond [] i h = refl
get_elem?_beyond (x ∷ xs) zero h = absurd (ground arith)
get_elem?_beyond (x ∷ xs) (suc i) h = get_elem?_beyond xs i (ground arith)

-- The position test of `LIndex` changes nothing.
pub l_index-items : (r : Lists) (key : Str) (i : ℕ) → l_index r key i ≡ get_elem? (items r key) i
unfolding l_index l_key_exist
l_index-items r key i = ground (arith, get_elem?_beyond (items r key) i)

get_elem?-set :
    (xs : List Str) (i j : ℕ) (v : Str)
    → i < length xs
    → get_elem? (set xs i v) j ≡ (if i == j then some v else get_elem? xs j)
get_elem?-set [] i j v h = elim h [ ]
get_elem?-set (x ∷ xs) zero zero v h = refl
get_elem?-set (x ∷ xs) zero (suc j) v h = ground arith
get_elem?-set (x ∷ xs) (suc i) zero v h = ground arith
get_elem?-set (x ∷ xs) (suc i) (suc j) v h = ground (arith, get_elem?-set xs i j v)

-- `LSet` at a position of the list writes that position of that list and nothing else.
pub l_index-l_set :
    (r : Lists) (key : Str) (i : ℕ) (v k : Str) (j : ℕ)
    → i < length (items r key)
    → ((l_set r key (pos i) v).1 ≡ true)
      × (l_index (l_set r key (pos i) v).0 k j
          ≡ (if str_eq key k then (if i == j then some v else l_index r k j) else l_index r k j))
unfolding l_set l_key_exist
l_index-l_set r key i v k j h =
    let e = l_index-items (l_set r key (pos i) v).0 k j in
    (
      ground arith,
      ground (
        arith,
        e,
        l_index-items r k j,
        items-assign r key k (set (items r key) i v),
        get_elem?-set (items r key) i j v h,
        str_eq_iff key k,
      ),
    )

-- `LSet` before the first element or past the last one fails and changes nothing.
pub l_set_out_of_range :
    (r : Lists) (key : Str) (n : ℕ) (v : Str)
    → (l_set r key (negsuc n) v ≡ (r, false))
      × (l_set r key (pos (length (items r key) + n)) v ≡ (r, false))
unfolding l_set l_key_exist
l_set_out_of_range r key n v = (ground arith, ground arith)

pub placed : InsertOption → Str → Str → List Str
placed before pivot val = val ∷ pivot ∷ []
placed after pivot val = pivot ∷ val ∷ []

abbrev pub Misses : Str → List Str → Type 0
Misses p [] = Unit
Misses p (x ∷ xs) = (str_eq x p ≡ false) × Misses p xs

insert_at_lem :
    (option : InsertOption) (pivot val : Str) (pre post : List Str)
    → Misses pivot pre
    → insert_at option pivot val (pre ++ pivot ∷ post)
      ≡ some (pre ++ (placed option pivot val ++ post))
unfolding insert_at placed
insert_at_lem before pivot val [] post h = rw str_eq_self refl
insert_at_lem after pivot val [] post h = rw str_eq_self refl
insert_at_lem option pivot val (x ∷ pre) post h =
    rw (h.0, insert_at_lem option pivot val pre post h.1) refl

insert_at_missing :
    (option : InsertOption) (pivot val : Str) (xs : List Str)
    → Misses pivot xs
    → insert_at option pivot val xs ≡ none
unfolding insert_at
insert_at_missing option pivot val [] h = refl
insert_at_missing option pivot val (x ∷ xs) h =
    rw (h.0, insert_at_missing option pivot val xs h.1) refl

module _ (r : Lists) (key : Str) (option : InsertOption) (pivot val : Str) where
  l_insert_hit :
      (ys : List Str)
      → insert_at option pivot val (items r key) ≡ some ys
      → l_insert r key option pivot val ≡ (assign r key ys, pos (length ys))
  unfolding l_insert
  l_insert_hit ys h = ground arith

  l_insert_miss :
      insert_at option pivot val (items r key) ≡ none
      → l_insert r key option pivot val ≡ (touched r key, negsuc 0)
  unfolding l_insert
  l_insert_miss h = ground arith

  -- `LInsert` puts the value next to the first occurrence of the pivot, on the side of the option,
  -- returns the new length and leaves the other lists.
  pub l_insert_lem :
      (pre post : List Str)
      → items r key ≡ pre ++ pivot ∷ post
      → Misses pivot pre
      → ((k : Str)
          → items (l_insert r key option pivot val).0 k
            ≡ (if str_eq key k then pre ++ (placed option pivot val ++ post) else items r k))
        × ((l_insert r key option pivot val).1
            ≡ pos (length (pre ++ (placed option pivot val ++ post))))
  l_insert_lem pre post h m =
      let ys : List Str = pre ++ (placed option pivot val ++ post) in
      let e : l_insert r key option pivot val ≡ (assign r key ys, pos (length ys)) =
        l_insert_hit ys (rw h (insert_at_lem option pivot val pre post m)) in
      ((λ k. rw e (items-assign r key k ys)), rw e)

  -- Without the pivot `LInsert` returns -1 and leaves every list, but the key exists afterwards.
  pub l_insert_missing :
      Misses pivot (items r key)
      → ((l_insert r key option pivot val).1 ≡ negsuc 0)
        × (l_key_exist (l_insert r key option pivot val).0 key ≡ true)
        × ((k : Str) → items (l_insert r key option pivot val).0 k ≡ items r k)
  unfolding l_key_exist
  l_insert_missing m =
      let e : l_insert r key option pivot val ≡ (touched r key, negsuc 0) =
        l_insert_miss (insert_at_missing option pivot val (items r key) m) in
      (
        rw e,
        rw e (ground (arith, find-assign r key key [], str_eq_self key)),
        (λ k. rw e (ground (arith, find-assign r key k [], str_eq_iff key k))),
      )
