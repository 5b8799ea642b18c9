-- ===== src/Ds/Strings.antt =====
-- ds/str/ds_strlist.h: `StrSkiplist`, the nodes by descending key. A node has as many pointers as
-- its height, and its pointer at a level goes to the next node that is higher than the level, or to
-- the tail: so the heights and the order at level 0 give all of them. A position in the list is what
-- follows it at level 0.
pub mod Order
pub mod Search
pub mod Laws
pub mod Put
pub mod Erase
pub mod Runs
use lightdb.Storage.Indexer.{Indexer, no_indexer}
use lightdb.Common.{
  ℕ, zero, suc, ◌+◌, ◌-◌, ◌*◌, ◌/◌, ◌==◌, ltb, length, take, Str, str_eq, str_lt, Bool, true, false,
  Option, none, some, List, [], ◌∷◌, ◌++◌, ◌||◌, if◌then◌else◌, ◌%◌, ◌^◌,
}

pub record StrNode : Type 0 where
  pub key : Str
  pub val : Indexer
  pub height : ℕ

-- The key of the tail is empty; `tail` is its value.
pub record StrSkiplist : Type 0 where
  pub nodes : List StrNode
  pub level : ℕ
  pub count : ℕ
  pub tail : Indexer

abbrev pub new_skiplist : StrSkiplist
new_skiplist = record { nodes = []; level = 0; count = 0; tail = no_indexer }

abbrev pub max_level : ℕ
max_level = 32

-- The loop at one level: from the position `p`, `rest` being what of it is not yet looked at.
unfoldable pub walk : ℕ → Str → List StrNode → List StrNode → List StrNode
walk i key p [] = p
walk i key p (n ∷ rest) =
    let go = walk i key rest rest in
    let skip = walk i key p rest in
    if ltb i n.height then (if str_lt key n.key then go else p) else skip

-- The loop over the levels below a bound.
unfoldable pub descend : ℕ → Str → List StrNode → List StrNode
unfolding walk
descend zero key p = p
descend (suc i) key p = descend i key (walk i key p p)

-- The position whose next node is the one found.
unfoldable pub find : StrSkiplist → Str → List StrNode
unfolding descend
find s key = descend s.level key s.nodes

abbrev pub key_at : List StrNode → Str
key_at [] = []
key_at (n ∷ rest) = n.key

abbrev pub val_at : StrSkiplist → List StrNode → Indexer
val_at s [] = s.tail
val_at s (n ∷ rest) = n.val

unfoldable pub get : StrSkiplist → Str → Option Indexer
unfolding find
get s key = let p = find s key in if str_eq (key_at p) key then some (val_at s p) else none

-- The nodes up to a position.
abbrev pub before : StrSkiplist → List StrNode → List StrNode
before s p = take (length s.nodes - length p) s.nodes

-- `pointer->val = val`, at the tail too.
unfoldable pub assign_at : StrSkiplist → List StrNode → Indexer → StrSkiplist
assign_at s [] val = record s { tail = val }
assign_at s (n ∷ rest) val = record s {
  nodes = before s (n ∷ rest) ++ record n { val = val } ∷ rest;
}

-- The number of levels that a new node has, and that the list then has.
abbrev pub capped : ℕ → ℕ → ℕ
capped level lv = if ltb level lv then suc level else lv

abbrev pub raised : ℕ → ℕ → ℕ
raised level lv = if ltb level lv then suc level else level

-- `lv` is the level that `randomLevel` gives.
unfoldable pub put : StrSkiplist → Str → Indexer → ℕ → StrSkiplist
unfolding find assign_at
put s key val lv =
    let p = find s key in
    if str_eq (key_at p) key then assign_at s p val else (record s {
      nodes = before s p ++ record { key = key; val = val; height = capped s.level lv } ∷ p;
      level = raised s.level lv;
      count = s.count + 1;
    })

abbrev pub reaches : ℕ → List StrNode → Bool
reaches i [] = false
reaches i (n ∷ ns) = ltb i n.height || reaches i ns

-- The highest levels that hold no node are given up.
unfoldable pub shrink : ℕ → List StrNode → ℕ
shrink zero ns = 0
shrink (suc l) ns = let rest = shrink l ns in if reaches l ns then suc l else rest

-- What `erase` leaves and returns. `tail_deleted`, which also returns true, is a list whose tail is
-- deleted: the last pointer of each level in use is null, and those above still go to the tail.
pub data Erased : Type 0 where
  erased : StrSkiplist → Bool → Erased
  tail_deleted : Erased

-- The node is taken out of every level it stands in; the empty key finds the tail.
unfoldable pub unlink : StrSkiplist → List StrNode → Erased
unfolding shrink
unlink s [] = tail_deleted
unlink s (n ∷ rest) =
    let ns = before s (n ∷ rest) ++ rest in
    erased (record s { nodes = ns; level = shrink s.level ns; count = s.count - 1 }) true

unfoldable pub erase : StrSkiplist → Str → Erased
unfolding find unlink
erase s key = let p = find s key in if str_eq (key_at p) key then unlink s p else erased s false

-- The loop of `randomLevel`, of a fuel of 31 rounds: `rand` gives the numbers, from `t` on.
unfoldable pub level_loop : (ℕ → ℕ) → ℕ → ℕ → ℕ → ℕ × ℕ
level_loop rand zero lv t = (lv, t)
level_loop rand (suc n) lv t =
    let rest = level_loop rand n (lv + 1) (t + 1) in
    if ltb (rand t % 2 ^ 16) (65535 / 4) then rest else (lv, t + 1)

unfoldable pub random_level : (ℕ → ℕ) → ℕ → ℕ × ℕ
unfolding level_loop
random_level rand t = level_loop rand (max_level - 1) 1 t

-- `put`, which draws a level only for a new node; `t` numbers have been drawn before.
unfoldable pub put_drawn : (ℕ → ℕ) → StrSkiplist → Str → Indexer → ℕ → StrSkiplist × ℕ
unfolding find put random_level
put_drawn rand s key val t =
    let (lv, t1) = random_level rand t in
    if str_eq (key_at (find s key)) key then (put s key val 1, t) else (put s key val lv, t1)
