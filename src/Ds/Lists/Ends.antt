-- ===== src/Ds/Lists/Ends.antt =====
-- The pushes and pops of `List`.
use lightdb.Common.Map.{assign, find-assign, find-insert, find-erase}
use lightdb.Common.{
  ◌+◌, Str, str_eq, str_eq_iff, str_eq_self, length, length-append, ◌≡◌, refl, Bool, true, false,
  some, List, [], ◌∷◌, ◌++◌, arith, if◌then◌else◌,
}
use lightdb.Ds.Lists.{
  Lists, items, literal_key, created, shrunk, l_key_exist, l_push, r_push, l_pop, r_pop, l_len,
  pop_front, pop_back, split_last,
}

pub l_len-items : (r : Lists) (key : Str) → l_len r key ≡ length (items r key)
unfolding l_len l_key_exist
l_len-items r key = ground arith

-- Creating the key leaves every list as it is, under the literal key too.
pub items-created : (r : Lists) (key k : Str) → items (created r key) k ≡ items r k
unfolding l_key_exist
items-created r key k = ground (arith, find-insert r literal_key k [], str_eq_iff literal_key k)

pub items-assign :
    (r : Lists) (key k : Str) (xs : List Str)
    → items (assign r key xs) k ≡ (if str_eq key k then xs else items r k)
items-assign r key k xs = ground (arith, find-assign r key k xs)

pub items-shrunk :
    (r : Lists) (key k : Str) (xs : List Str)
    → items (shrunk r key xs) k ≡ (if str_eq key k then xs else items r k)
items-shrunk r key k [] = ground (arith, find-erase (assign r key []) key k, find-assign r key k [])
items-shrunk r key k (x ∷ xs) = items-assign r key k (x ∷ xs)

module _ (r : Lists) (key val : Str) where
  -- `LPush` puts the value in front of the key's list and leaves the other lists.
  pub items-l_push :
      (k : Str)
      → items (l_push r key val).0 k ≡ (if str_eq key k then val ∷ items r key else items r k)
  unfolding l_push
  items-l_push k = ground (
    arith,
    items-assign (created r key) key k (val ∷ items (created r key) key),
    items-created r key key,
    items-created r key k,
  )

  pub items-r_push :
      (k : Str)
      → items (r_push r key val).0 k ≡ (if str_eq key k then items r key ++ val ∷ [] else items r k)
  unfolding r_push
  items-r_push k = ground (
    arith,
    items-assign (created r key) key k (items (created r key) key ++ val ∷ []),
    items-created r key key,
    items-created r key k,
  )

  -- Both pushes return the length that `LLen` then reports, one more than before.
  pub push_result :
      ((l_push r key val).1 ≡ l_len r key + 1)
      × ((r_push r key val).1 ≡ l_len r key + 1)
      × (l_len (l_push r key val).0 key ≡ l_len r key + 1)
      × (l_len (r_push r key val).0 key ≡ l_len r key + 1)
  unfolding l_push r_push
  push_result = (
    ground (arith, items-created r key key, l_len-items r key),
    ground (
      arith,
      items-created r key key,
      l_len-items r key,
      length-append (items (created r key) key) (val ∷ []),
    ),
    ground (
      arith,
      l_len-items r key,
      l_len-items (l_push r key val).0 key,
      items-l_push key,
      str_eq_self key,
    ),
    ground (
      arith,
      l_len-items r key,
      l_len-items (r_push r key val).0 key,
      items-r_push key,
      str_eq_self key,
      length-append (items r key) (val ∷ []),
    ),
  )

split_last-append : (xs : List Str) (x : Str) → split_last (xs ++ x ∷ []) ≡ some (xs, x)
unfolding split_last
split_last-append [] x = refl
split_last-append (y ∷ xs) x = rw (split_last-append xs x)

abbrev pub is_empty : List Str → Bool
is_empty [] = true
is_empty (x ∷ xs) = false

exists-shrunk :
    (r : Lists) (key : Str) (xs : List Str)
    → l_key_exist (shrunk r key xs) key ≡ (if is_empty xs then false else true)
unfolding l_key_exist
exists-shrunk r key [] = ground (arith, find-erase (assign r key []) key key, str_eq_self key)
exists-shrunk r key (x ∷ xs) = ground (arith, find-assign r key key (x ∷ xs), str_eq_self key)

exists_of_items :
    (r : Lists) (key : Str) (x : Str) (xs : List Str)
    → items r key ≡ x ∷ xs
    → l_key_exist r key ≡ true
unfolding l_key_exist
exists_of_items r key x xs h = ground arith

-- What a pop leaves: the rest of the key's list, the other lists, and the key while a rest is left.
pub record Popped (r r' : Lists) (key : Str) (rest : List Str) : Type 0 where
  pub lists : (k : Str) → items r' k ≡ (if str_eq key k then rest else items r k)
  pub key_left : l_key_exist r' key ≡ (if is_empty rest then false else true)

shrunk-Popped : (r : Lists) (key : Str) (rest : List Str) → Popped r (shrunk r key rest) key rest
shrunk-Popped r key rest = record {
  lists = λ k. items-shrunk r key k rest;
  key_left = exists-shrunk r key rest;
}

-- `LPop` on a list that is not empty returns its first element and leaves the rest; the key goes
-- with its last element.
pub l_pop_lem :
    (r : Lists) (key x : Str) (rest : List Str)
    → items r key ≡ x ∷ rest
    → (r' : Lists) × (l_pop r key ≡ some (r', some x)) × Popped r r' key rest
unfolding l_pop pop_front
l_pop_lem r key x rest h =
    (shrunk r key rest, rw (exists_of_items r key x rest h, h) refl, shrunk-Popped r key rest)

exists_of_append :
    (r : Lists) (key x : Str) (rest : List Str)
    → items r key ≡ rest ++ x ∷ []
    → l_key_exist r key ≡ true
exists_of_append r key x [] h = exists_of_items r key x [] h
exists_of_append r key x (y ∷ rest) h = exists_of_items r key y (rest ++ x ∷ []) h

-- `RPop` on a list that is not empty returns its last element and leaves the rest; the key goes
-- with its last element.
pub r_pop_lem :
    (r : Lists) (key x : Str) (rest : List Str)
    → items r key ≡ rest ++ x ∷ []
    → (r' : Lists) × (r_pop r key ≡ some (r', some x)) × Popped r r' key rest
unfolding r_pop pop_back
r_pop_lem r key x rest h = (
  shrunk r key rest,
  rw (exists_of_append r key x rest h, h, split_last-append) refl,
  shrunk-Popped r key rest,
)
