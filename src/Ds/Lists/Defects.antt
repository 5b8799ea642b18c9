-- ===== src/Ds/Lists/Defects.antt =====
-- Where the methods of `List` are undefined, and how such a state arises.
use lightdb.Common.Map.{find, assign, find-assign, find-insert}
use lightdb.Common.{
  Str, str_eq, str_eq_iff, str_eq_self, ◌≡◌, ◌↔◌, refl, false, none, some, List, [], ◌∷◌, ◌++◌,
  arith,
}
use lightdb.Ds.Lists.{
  Lists, items, literal_key, l_key_exist, l_push, r_push, l_pop, r_pop, pop_front, pop_back,
  split_last, created,
}

split_last-none : (xs : List Str) → split_last xs ≡ none → xs ≡ []
unfolding split_last
split_last-none [] h = refl
split_last-none (x ∷ xs) h = ground arith

-- `LPop` and `RPop` are undefined exactly where an empty list is stored under the key.
pub pop-undefined_iff :
    (r : Lists) (key : Str)
    → ((l_pop r key ≡ none) ↔ (find r key ≡ some []))
      × ((r_pop r key ≡ none) ↔ (find r key ≡ some []))
unfolding l_pop r_pop pop_front pop_back l_key_exist split_last
pop-undefined_iff r key = (
  ((λ h. ground arith), (λ h. ground arith)),
  ((λ h. ground (arith, split_last-none (items r key))), (λ h. ground arith)),
)

-- A push to a new key other than "key", while "key" is not in use, stores an empty list under
-- "key": a pop of "key" is undefined from then on.
pub push_breaks_literal_key :
    (r : Lists) (key val : Str)
    → find r key ≡ none
    → find r literal_key ≡ none
    → str_eq literal_key key ≡ false
    → (l_pop (l_push r key val).0 literal_key ≡ none)
      × (l_pop (r_push r key val).0 literal_key ≡ none)
unfolding l_push r_push l_key_exist
push_breaks_literal_key r key val h g e =
    let r1 = created r key in
    let ghost : (xs : List Str) → find (assign r1 key xs) literal_key ≡ some [] = λ xs. ground (
      arith,
      find-assign r1 key literal_key xs,
      find-insert r literal_key literal_key [],
      str_eq_self literal_key,
      str_eq_iff key literal_key,
      str_eq_iff literal_key key,
    ) in
    (
      (pop-undefined_iff (l_push r key val).0 literal_key).0.1 (ghost (val ∷ items r1 key)),
      (pop-undefined_iff (r_push r key val).0 literal_key).0.1 (ghost (items r1 key ++ val ∷ [])),
    )
