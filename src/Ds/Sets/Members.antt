-- ===== src/Ds/Sets/Members.antt =====
-- Membership after each write of `Set`, and the counts that the methods return.
use lightdb.Common.Map.{
  Map, find, has, insert, assign, erase, find-assign, find-insert, find-erase, length-insert,
}
use lightdb.Common.{
  ℕ, ◌+◌, Str, str_eq, str_eq_iff, str_eq_self, length, ◌≡◌, true, false, ◌&&◌, [], arith,
  if◌then◌else◌, Bool-cases, inl, inr,
}
use lightdb.Ds.Sets.{
  Sets, members, with_set, s_key_exist, s_add, s_card, s_is_member, s_rem, s_move,
}

pub s_is_member-has : (r : Sets) (k m : Str) → s_is_member r k m ≡ has (members r k) m
unfolding s_is_member s_key_exist find
s_is_member-has r k m = ground arith

pub s_card-members : (r : Sets) (k : Str) → s_card r k ≡ length (members r k)
unfolding s_card s_key_exist
s_card-members r k = ground arith

pub members-assign :
    (r : Sets) (key k : Str) (m : Map ℕ)
    → members (assign r key m) k ≡ (if str_eq key k then m else members r k)
members-assign r key k m = ground (arith, find-assign r key k m)

members-with_set : (r : Sets) (key k : Str) → members (with_set r key) k ≡ members r k
unfolding s_key_exist
members-with_set r key k = ground (arith, find-insert r key k [], str_eq_iff key k)

has-insert : (m : Map ℕ) (x y : Str) → has (insert m x 1) y ≡ (if str_eq x y then true else has m y)
has-insert m x y = ground (arith, find-insert m x y 1)

has-erase : (m : Map ℕ) (x y : Str) → has (erase m x) y ≡ (if str_eq x y then false else has m y)
has-erase m x y = ground (arith, find-erase m x y)

-- `SRem` and `SMove` by one test.
s_rem-lem :
    (r : Sets) (key member : Str)
    → s_rem r key member ≡ (
        if s_is_member r key member
        then (assign r key (erase (members r key) member), true)
        else (r, false))
unfolding s_rem s_is_member s_key_exist find
s_rem-lem r key member = ground arith

moved : Sets → Str → Str → Str → Sets
moved r src dst member =
    let r1 = assign r src (erase (members r src) member) in
    let r2 = with_set r1 dst in assign r2 dst (insert (members r2 dst) member 1)

s_move-lem :
    (r : Sets) (src dst member : Str)
    → s_move r src dst member
      ≡ (if s_is_member r src member then (moved r src dst member, true) else (r, false))
unfolding s_move s_is_member s_key_exist find moved
s_move-lem r src dst member = ground arith

module _ (r : Sets) (key member k : Str) where
  pub members-s_add :
      members (s_add r key member).0 k
      ≡ (if str_eq key k then insert (members r key) member 1 else members r k)
  unfolding s_add
  members-s_add = ground (
    arith,
    members-assign (with_set r key) key k (insert (members (with_set r key) key) member 1),
    members-with_set r key key,
    members-with_set r key k,
  )

  pub members-s_rem : members (s_rem r key member).0 k ≡ (
      if str_eq key k && s_is_member r key member
      then erase (members r key) member
      else members r k)
  members-s_rem =
      ground (arith, s_rem-lem r key member, members-assign r key k (erase (members r key) member))

  -- After `SAdd` the member is in the set, and all else is as before.
  pub s_is_member-s_add :
      (m : Str)
      → s_is_member (s_add r key member).0 k m
        ≡ (if str_eq key k && str_eq member m then true else s_is_member r k m)
  s_is_member-s_add m = ground (
    arith,
    s_is_member-has (s_add r key member).0 k m,
    s_is_member-has r k m,
    members-s_add,
    has-insert (members r key) member m,
    str_eq_iff key k,
  )

  -- `SRem` reports whether the member was there; after it the member is not, and all else is as
  -- before.
  pub s_is_member-s_rem :
      (m : Str)
      → ((s_rem r key member).1 ≡ s_is_member r key member)
        × (s_is_member (s_rem r key member).0 k m
            ≡ (if str_eq key k && str_eq member m then false else s_is_member r k m))
  s_is_member-s_rem m = (
    ground (arith, s_rem-lem r key member),
    ground (
      arith,
      s_is_member-has (s_rem r key member).0 k m,
      s_is_member-has r k m,
      members-s_rem,
      has-erase (members r key) member m,
      str_eq_iff key k,
      str_eq_iff member m,
    ),
  )

-- `SAdd` returns the size that `SCard` then reports: one more for a new member.
pub s_card-s_add :
    (r : Sets) (key member : Str)
    → ((s_add r key member).1 ≡ s_card (s_add r key member).0 key)
      × ((s_add r key member).1
          ≡ (if s_is_member r key member then s_card r key else s_card r key + 1))
unfolding s_add
s_card-s_add r key member = (
  ground (
    arith,
    s_card-members (s_add r key member).0 key,
    members-s_add r key member key,
    members-with_set r key key,
    str_eq_self key,
  ),
  ground (
    arith,
    s_card-members r key,
    s_is_member-has r key member,
    members-with_set r key key,
    length-insert (members r key) member 1,
  ),
)

module _ (r : Sets) (src dst member : Str) where
  members-s_move :
      (k : Str)
      → s_is_member r src member ≡ true
      → members (s_move r src dst member).0 k ≡ (
          if str_eq dst k
          then insert
              (if str_eq src dst then erase (members r src) member else members r dst)
              member
              1
          else if str_eq src k
          then erase (members r src) member
          else members r k)
  unfolding moved
  members-s_move k h =
      let r1 = assign r src (erase (members r src) member) in
      ground (
        arith,
        s_move-lem r src dst member,
        members-assign (with_set r1 dst) dst k (insert (members (with_set r1 dst) dst) member 1),
        members-with_set r1 dst dst,
        members-with_set r1 dst k,
        members-assign r src dst (erase (members r src) member),
        members-assign r src k (erase (members r src) member),
      )

  -- `SMove` reports whether the source had the member. If so the destination has it afterwards and
  -- the source has not, unless the two are one set; all else is as before.
  pub s_is_member-s_move :
      (k m : Str)
      → ((s_move r src dst member).1 ≡ s_is_member r src member)
        × (s_is_member (s_move r src dst member).0 k m ≡ (
            if s_is_member r src member && str_eq member m
            then (if str_eq dst k then true else if str_eq src k then false else s_is_member r k m)
            else s_is_member r k m))
  s_is_member-s_move k m = (
    ground (arith, s_move-lem r src dst member),
    elim (Bool-cases (s_is_member r src member)) [
      | inl e ↦ ground (
        arith,
        s_is_member-has (s_move r src dst member).0 k m,
        s_is_member-has r k m,
        members-s_move k e,
        has-insert (if str_eq src dst then erase (members r src) member else members r dst) member
            m,
        has-erase (members r src) member m,
        str_eq_iff dst k,
        str_eq_iff src k,
        str_eq_iff src dst,
      )
      | inr e ↦ ground (arith, s_move-lem r src dst member)
    ],
  )
