-- ===== src/Ds/Strings/Search.antt =====
-- ds/str/ds_strlist.h: what `find` gives, against the scan of the bottom level.
use lightdb.Common.{
  ℕ, zero, suc, ◌-◌, ◌≤◌, ltb, if◌then◌else◌, take, length, length-append, take-append, false,
  Bool-cases, inl, inr, Str, str_lt, ◌≡◌, refl, arith, [], ◌∷◌, ◌++◌, ◌∙◌, List, ap, sym,
}
use lightdb.Ds.Strings.{StrNode, StrSkiplist, walk, descend, find, shrink, max_level, before}
use lightdb.Ds.Strings.Order.{Below, IsOrdered, str_lt_trans}

-- The scan of the bottom level: what is left after the nodes with greater keys, and those.
unfoldable pub beyond : Str → List StrNode → List StrNode
beyond key [] = []
beyond key (n ∷ ns) = let rest = beyond key ns in if str_lt key n.key then rest else n ∷ ns

unfoldable pub passed : Str → List StrNode → List StrNode
passed key [] = []
passed key (n ∷ ns) = let rest = passed key ns in if str_lt key n.key then n ∷ rest else []

walk_stays :
    (i : ℕ) (key k : Str) (p ns : List StrNode)
    → str_lt key k ≡ false
    → Below k ns
    → walk i key p ns ≡ p
unfolding walk
walk_stays i key k p [] h b = refl
walk_stays i key k p (n ∷ ns) h b =
    ground (arith, walk_stays i key k p ns h b.1, str_lt_trans key n.key k)

beyond-walk :
    (i : ℕ) (key : Str) (p ns : List StrNode)
    → IsOrdered ns
    → beyond key ns ≡ beyond key p
    → beyond key (walk i key p ns) ≡ beyond key p
unfolding walk beyond
beyond-walk i key p [] o e = refl
beyond-walk i key p (n ∷ ns) o e = elim (Bool-cases (str_lt key n.key)) [
  | inl h ↦ ground (arith, beyond-walk i key ns ns o.3 refl, beyond-walk i key p ns o.3)
  | inr h ↦ ground (arith, walk_stays i key n.key p ns h o.2)
]

walk-IsOrdered :
    (i : ℕ) (key : Str) (p ns : List StrNode)
    → IsOrdered p
    → IsOrdered ns
    → IsOrdered (walk i key p ns)
unfolding walk
walk-IsOrdered i key p [] o q = o
walk-IsOrdered i key p (n ∷ ns) o q = elim (Bool-cases (ltb i n.height)) [
  | inl t ↦ elim (Bool-cases (str_lt key n.key)) [
    | inl h ↦ rw (t, h) (walk-IsOrdered i key ns ns q.3 q.3)
    | inr h ↦ rw (t, h) o
  ]
  | inr t ↦ rw t (walk-IsOrdered i key p ns o q.3)
]

walk_bottom : (key : Str) (ns : List StrNode) → IsOrdered ns → walk 0 key ns ns ≡ beyond key ns
unfolding walk beyond
walk_bottom key [] o = refl
walk_bottom key (n ∷ ns) o = ground (arith, walk_bottom key ns o.3, o.0)

descend-beyond :
    (l : ℕ) (key : Str) (p : List StrNode) → IsOrdered p → descend (suc l) key p ≡ beyond key p
unfolding descend
descend-beyond zero key p o = walk_bottom key p o
descend-beyond (suc l) key p o =
    descend-beyond l key (walk (suc l) key p p) (walk-IsOrdered (suc l) key p p o o)
    ∙ beyond-walk (suc l) key p p o refl

-- No node is higher than the list.
abbrev pub Low : ℕ → List StrNode → Type 0
Low l [] = Unit
Low l (n ∷ ns) = (n.height ≤ l) × Low l ns

pub record IsSkiplist (s : StrSkiplist) : Type 0 where
  pub ordered : IsOrdered s.nodes
  pub low : Low s.level s.nodes
  pub tight : shrink s.level s.nodes ≡ s.level
  pub bounded : s.level ≤ max_level
  pub counted : s.count ≡ length s.nodes

-- On a skip list in order, the search from the highest level down ends where a scan of the
-- bottom level ends: behind the last node whose key is greater.
pub find-beyond : (s : StrSkiplist) (key : Str) → IsSkiplist s → find s key ≡ beyond key s.nodes
unfolding find descend beyond
find-beyond s key w = by_level s.level s.nodes w.ordered w.low
  where
    by_level :
        (l : ℕ) (ns : List StrNode) → IsOrdered ns → Low l ns → descend l key ns ≡ beyond key ns
    by_level zero [] o low = refl
    by_level zero (n ∷ ns) o low = ground arith
    by_level (suc l) ns o low = descend-beyond l key ns o

pub passed-beyond : (key : Str) (ns : List StrNode) → passed key ns ++ beyond key ns ≡ ns
unfolding passed beyond
passed-beyond key [] = refl
passed-beyond key (n ∷ ns) = ground (arith, passed-beyond key ns)

-- The nodes up to the position found are those that the scan passes.
pub before-beyond :
    (s : StrSkiplist) (key : Str)
    → IsSkiplist s
    → before s (beyond key s.nodes) ≡ passed key s.nodes
before-beyond s key w =
    let front = passed key s.nodes in
    let rest = beyond key s.nodes in
    ap (λ ns. take (length ns - length rest) ns) (sym (passed-beyond key s.nodes))
    ∙ take-append (length (front ++ rest) - length rest) front rest
        (omega (arith, length-append front rest))
