-- ===== src/Ds/Strings/Erase.antt =====
-- ds/str/ds_strlist.h: `erase` keeps the list in order, and takes away its key alone.
use lightdb.Common.{
  ℕ, zero, suc, ◌+◌, ◌-◌, if◌then◌else◌, length, true, false, Bool-cases, inl, inr, Str, str_eq,
  str_eq_iff, ◌≡◌, refl, arith, [], ◌∷◌, ◌++◌, ◌∙◌, List, none, some, ◌≢◌, ap, sym,
}
use lightdb.Ds.Strings.Put.{shrink_low}
use lightdb.Storage.Indexer.{Indexer}
use lightdb.Ds.Strings.{
  StrNode, StrSkiplist, erased, erase, unlink, get, reaches, shrink, find, before,
}
use lightdb.Ds.Strings.Order.{Below, IsOrdered, str_lt_irrefl}
use lightdb.Ds.Strings.Search.{beyond, passed, IsSkiplist, find-beyond, Low, before-beyond}
use lightdb.Ds.Strings.Laws.{lookup, without, lookup-beyond, lookup-Below, get-lookup}

Below-without : (ns : List StrNode) (k key : Str) → Below k ns → Below k (without ns key)
unfolding without
Below-without [] k key b = tt
Below-without (n ∷ ns) k key b = elim (Bool-cases (str_eq n.key key)) [
  | inl e ↦ rw e b.1
  | inr e ↦ rw e (b.0, Below-without ns k key b.1)
]

without-IsOrdered : (ns : List StrNode) (key : Str) → IsOrdered ns → IsOrdered (without ns key)
unfolding without
without-IsOrdered [] key o = tt
without-IsOrdered (n ∷ ns) key o = elim (Bool-cases (str_eq n.key key)) [
  | inl e ↦ rw e o.3
  | inr e ↦ rw e (o.0, o.1, Below-without ns n.key key o.2, without-IsOrdered ns key o.3)
]

lookup-without :
    (ns : List StrNode) (key j : Str)
    → IsOrdered ns
    → lookup (without ns key) j ≡ (if str_eq key j then none else lookup ns j)
unfolding lookup without
lookup-without [] key j o = ground arith
lookup-without (n ∷ ns) key j o = ground (
  arith,
  lookup-without ns key j o.3,
  str_eq_iff n.key key,
  str_eq_iff n.key j,
  str_eq_iff key j,
  lookup-Below ns n.key n.key o.2 (str_lt_irrefl n.key),
)

-- The nodes that reach at least to the level that is left.
Low-shrink : (l : ℕ) (ns : List StrNode) → Low l ns → Low (shrink l ns) ns
unfolding shrink
Low-shrink zero ns w = w
Low-shrink (suc l) ns w = elim (Bool-cases (reaches l ns)) [
  | inl e ↦ rw e w
  | inr e ↦ rw e (Low-shrink l ns (lower ns w e))
]
  where
    lower : (ns : List StrNode) → Low (suc l) ns → reaches l ns ≡ false → Low l ns
    lower [] w e = tt
    lower (n ∷ ns) w e = (ground arith, lower ns w.1 (ground arith))

Low-without : (l : ℕ) (ns : List StrNode) (key : Str) → Low l ns → Low l (without ns key)
unfolding without
Low-without l [] key w = tt
Low-without l (n ∷ ns) key w = elim (Bool-cases (str_eq n.key key)) [
  | inl e ↦ rw e w.1
  | inr e ↦ rw e (w.0, Low-without l ns key w.1)
]

shrink-shrink : (l : ℕ) (ns : List StrNode) → shrink (shrink l ns) ns ≡ shrink l ns
unfolding shrink
shrink-shrink zero ns = refl
shrink-shrink (suc l) ns = elim (Bool-cases (reaches l ns)) [
  | inl e ↦ rw (e, shrink) (ground arith)
  | inr e ↦ rw (e, shrink) (shrink-shrink l ns)
]

length-without :
    (ns : List StrNode) (key : Str)
    → length ns ≡ length (without ns key) + elim (lookup ns key) [ none ↦ 0 | some v ↦ 1 ]
unfolding lookup without
length-without [] key = omega arith
length-without (n ∷ ns) key = ground (arith, length-without ns key)

-- The node behind the position found goes when it has the key.
without-passed :
    (ns rest : List StrNode) (key : Str) (n : StrNode)
    → beyond key ns ≡ n ∷ rest
    → str_eq n.key key ≡ true
    → passed key ns ++ rest ≡ without ns key
unfolding beyond passed without
without-passed [] rest key n e q = ground arith
without-passed (m ∷ ns) rest key n e q =
    ground (arith, without-passed ns rest key n, str_eq_iff m.key key, str_lt_irrefl key)

-- The list without a key that it has.
abbrev pub dropped : StrSkiplist → Str → StrSkiplist
dropped s key = record s {
  nodes = without s.nodes key;
  level = shrink s.level (without s.nodes key);
  count = s.count - 1;
}

erase_parts :
    (s : StrSkiplist) (key : Str) (p : List StrNode)
    → find s key ≡ p
    → beyond key s.nodes ≡ p
    → before s p ≡ passed key s.nodes
    → key ≢ []
    → (lookup s.nodes key
        ≡ elim p [ [] ↦ none | n ∷ rest ↦ if str_eq n.key key then some n.val else none ])
    → erase s key
      ≡ elim (lookup s.nodes key) [ none ↦ erased s false | some v ↦ erased (dropped s key) true ]
unfolding erase unlink
erase_parts s key [] e b q k l = ground (arith, str_eq_iff [] key)
erase_parts s key (n ∷ rest) e b q k l = elim (Bool-cases (str_eq n.key key)) [
  | inl t ↦ rw (e, l, t, q, without-passed s.nodes rest key n b t) refl
  | inr t ↦ rw (e, l, t) refl
]

pub erase-dropped :
    (s : StrSkiplist) (key : Str)
    → IsSkiplist s
    → key ≢ []
    → erase s key
      ≡ elim (get s key) [ none ↦ erased s false | some v ↦ erased (dropped s key) true ]
erase-dropped s key w k = rw (get-lookup s key w k) (
    erase_parts s key (beyond key s.nodes) (find-beyond s key w) refl (before-beyond s key w) k
      (lookup-beyond s.nodes key w.ordered))

pub dropped-IsSkiplist :
    (s : StrSkiplist) (key : Str) (v : Indexer)
    → IsSkiplist s
    → key ≢ []
    → get s key ≡ some v
    → IsSkiplist (dropped s key)
dropped-IsSkiplist s key v w k e =
    let there : lookup s.nodes key ≡ some v = sym (get-lookup s key w k) ∙ e in
    record {
      ordered = without-IsOrdered s.nodes key w.ordered;
      low = Low-shrink s.level (without s.nodes key) (Low-without s.level s.nodes key w.low);
      tight = shrink-shrink s.level (without s.nodes key);
      bounded = omega (arith, shrink_low s.level (without s.nodes key), w.bounded);
      counted = ground (arith, length-without s.nodes key, w.counted);
    }

pub get-dropped :
    (s : StrSkiplist) (key j : Str) (v : Indexer)
    → IsSkiplist s
    → key ≢ []
    → j ≢ []
    → get s key ≡ some v
    → get (dropped s key) j ≡ (if str_eq key j then none else get s j)
get-dropped s key j v w k h e =
    get-lookup (dropped s key) j (dropped-IsSkiplist s key v w k e) h
    ∙ lookup-without s.nodes key j w.ordered
    ∙ ap (λ o. if str_eq key j then none else o) (sym (get-lookup s j w h))
