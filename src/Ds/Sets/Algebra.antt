-- ===== src/Ds/Sets/Algebra.antt =====
-- `SPop`, `SUnion` and `SDiff`.
use lightdb.Common.Map.{Map, find, has, assign, erase, IsDistinct, find-assign, find-erase}
use lightdb.Common.{
  ℕ, Str, str_eq, str_eq_iff, str_eq_self, contains, contains-append, ◌≡◌, ◌↔◌, refl, Bool, true,
  false, not, ◌&&◌, ◌||◌, none, some, List, [], ◌∷◌, ◌++◌, arith, if◌then◌else◌,
}
use lightdb.Ds.Sets.{
  Sets, members, shrunk, touched, s_key_exist, s_is_member, s_rem, s_pop, pop_begin, push_members,
  mark_all, union_loop, s_union, set_insert, set_erase, collect, remove_all, s_diff, s_members,
}
use lightdb.Ds.Sets.Members.{s_is_member-has, members-assign}

-- `SPop` is undefined exactly where an empty set is stored under the key.
pub s_pop-undefined_iff : (r : Sets) (key : Str) → (s_pop r key ≡ none) ↔ (find r key ≡ some [])
unfolding s_pop pop_begin s_key_exist
s_pop-undefined_iff r key = ((λ h. ground arith), (λ h. ground arith))

members-shrunk :
    (r : Sets) (key k : Str) (m : Map ℕ)
    → members (shrunk r key m) k ≡ (if str_eq key k then m else members r k)
members-shrunk r key k [] =
    ground (arith, find-erase (assign r key []) key k, find-assign r key k [])
members-shrunk r key k (e ∷ m) = members-assign r key k (e ∷ m)

-- On a set that is not empty and has no member twice, `SPop` returns its first member and removes
-- that member only.
pub s_pop_lem :
    (r : Sets) (key member : Str) (v : ℕ) (rest : Map ℕ)
    → members r key ≡ (member, v) ∷ rest
    → IsDistinct (members r key)
    → (r' : Sets) × (s_pop r key ≡ some (r', some member))
      × (s_is_member r key member ≡ true)
      × ((k m : Str)
          → s_is_member r' k m
            ≡ (if str_eq key k && str_eq member m then false else s_is_member r k m))
unfolding s_pop pop_begin s_key_exist find
s_pop_lem r key member v rest h d = (
  shrunk r key rest,
  ground arith,
  ground (arith, s_is_member-has r key member, str_eq_self member),
  (λ k m. ground (
    arith,
    s_is_member-has (shrunk r key rest) k m,
    s_is_member-has r k m,
    members-shrunk r key k rest,
    str_eq_iff key k,
    str_eq_iff member m,
    (rw h at d).0,
  )),
)

-- `SRem` of the last member leaves an empty set behind, on which `SPop` is undefined.
pub s_rem_leaves_empty :
    (r : Sets) (key member : Str) (v : ℕ)
    → find r key ≡ some ((member, v) ∷ [])
    → s_pop (s_rem r key member).0 key ≡ none
unfolding s_rem s_key_exist find erase
s_rem_leaves_empty r key member v h =
    (s_pop-undefined_iff (s_rem r key member).0 key).1
      (ground (arith, find-assign r key key [], str_eq_self key, str_eq_self member))

contains-push_members :
    (m : Map ℕ) (vals : List Str) (x : Str)
    → contains (push_members m vals) x ≡ (contains vals x || has m x)
unfolding push_members find
contains-push_members [] vals x = ground arith
contains-push_members ((j, v) ∷ m) vals x =
    ground (arith, contains-push_members m (vals ++ j ∷ []) x, contains-append vals (j ∷ []) x)

-- `SMembers` lists the members of a set that exists, and nothing else.
pub contains-s_members :
    (r : Sets) (key x : Str)
    → ((s_members r key []).0 ≡ s_key_exist r key)
      × (contains (s_members r key []).1 x ≡ s_is_member r key x)
unfolding s_members s_key_exist find
contains-s_members r key x = (
  ground arith,
  ground (arith, contains-push_members (members r key) [] x, s_is_member-has r key x),
)

has-mark_all : (m acc : Map ℕ) (x : Str) → has (mark_all m acc) x ≡ (has acc x || has m x)
unfolding mark_all find
has-mark_all [] acc x = ground arith
has-mark_all ((j, v) ∷ m) acc x =
    ground (arith, has-mark_all m (assign acc j 1) x, find-assign acc j x 1)

abbrev pub in_any : Sets → List Str → Str → Bool
in_any r [] x = false
in_any r (key ∷ keys) x = s_is_member r key x || in_any r keys x

has-union_loop :
    (r : Sets) (keys : List Str) (acc : Map ℕ) (x : Str)
    → has (union_loop r keys acc) x ≡ (has acc x || in_any r keys x)
unfolding union_loop s_key_exist find
has-union_loop r [] acc x = ground arith
has-union_loop r (key ∷ keys) acc x = ground (
  arith,
  has-union_loop r keys (if s_key_exist r key then mark_all (members r key) acc else acc) x,
  has-mark_all (members r key) acc x,
  s_is_member-has r key x,
)

-- `SUnion` lists what is a member of at least one of the sets.
pub contains-s_union :
    (r : Sets) (keys : List Str) (x : Str) → contains (s_union r keys []) x ≡ in_any r keys x
unfolding s_union find
contains-s_union r keys x =
    ground (arith, contains-push_members (union_loop r keys []) [] x, has-union_loop r keys [] x)

contains-set_insert :
    (s : List Str) (x y : Str) → contains (set_insert s x) y ≡ (str_eq x y || contains s y)
unfolding set_insert
contains-set_insert [] x y = refl
contains-set_insert (z ∷ s) x y = ground (arith, contains-set_insert s x y, str_eq_iff x z)

contains-set_erase :
    (s : List Str) (x y : Str)
    → contains (set_erase s x) y ≡ (if str_eq x y then false else contains s y)
unfolding set_erase
contains-set_erase [] x y = ground arith
contains-set_erase (z ∷ s) x y =
    ground (arith, contains-set_erase s x y, str_eq_iff z x, str_eq_iff x y, str_eq_iff z y)

contains-collect :
    (m : Map ℕ) (acc : List Str) (x : Str)
    → contains (collect m acc) x ≡ (contains acc x || has m x)
unfolding collect find
contains-collect [] acc x = ground arith
contains-collect ((j, v) ∷ m) acc x =
    ground (arith, contains-collect m (set_insert acc j) x, contains-set_insert acc j x)

contains-remove_all :
    (vs acc : List Str) (x : Str)
    → contains (remove_all vs acc) x ≡ (contains acc x && not (contains vs x))
unfolding remove_all
contains-remove_all [] acc x = ground arith
contains-remove_all (v ∷ vs) acc x = ground (
  arith,
  contains-remove_all vs (if contains acc v then set_erase acc v else acc) x,
  contains-set_erase acc v x,
  str_eq_iff v x,
)

is_member-touched : (r : Sets) (key k x : Str) → s_is_member (touched r key) k x ≡ s_is_member r k x
unfolding find
is_member-touched r key k x = ground (
  arith,
  s_is_member-has (touched r key) k x,
  s_is_member-has r k x,
  find-assign r key k [],
  str_eq_iff key k,
)

in_any-touched :
    (r : Sets) (key : Str) (keys : List Str) (x : Str)
    → in_any (touched r key) keys x ≡ in_any r keys x
in_any-touched r key [] x = refl
in_any-touched r key (k ∷ keys) x =
    ground (arith, is_member-touched r key k x, in_any-touched r key keys x)

-- `SDiff` lists the members of the first set that no other set has. No membership changes, but the
-- first key exists afterwards.
pub contains-s_diff :
    (r : Sets) (key : Str) (keys : List Str) (x : Str)
    → (contains (s_diff r key keys []).1 x ≡ (s_is_member r key x && not (in_any r keys x)))
      × ((k : Str) → s_is_member (s_diff r key keys []).0 k x ≡ s_is_member r k x)
      × (s_key_exist (s_diff r key keys []).0 key ≡ true)
unfolding s_diff s_key_exist
contains-s_diff r key keys x = (
  ground (
    arith,
    contains-remove_all (s_union (touched r key) keys []) (collect (members r key) []) x,
    contains-collect (members r key) [] x,
    contains-s_union (touched r key) keys x,
    in_any-touched r key keys x,
    s_is_member-has r key x,
  ),
  (λ k. is_member-touched r key k x),
  ground (arith, find-assign r key key [], str_eq_self key),
)
