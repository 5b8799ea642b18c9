-- ===== src/Ds/Strings/Laws.antt =====
-- ds/str/ds_strlist.h: `get`, `put` and `erase` on the ordered nodes.
use lightdb.Common.{
  ◌||◌, ℕ, ◌+◌, ◌≤◌, ◌<◌, ltb, if◌then◌else◌, length, true, false, Bool-cases, inl, inr, Str,
  str_lt, str_eq, str_eq_iff, ◌≡◌, refl, arith, [], ◌∷◌, ◌++◌, ◌∙◌, List, Option, none, some, ◌≢◌,
  ap, sym,
}
use lightdb.Storage.Indexer.{Indexer}
use lightdb.Ds.Strings.{
  StrNode, StrSkiplist, get, put, assign_at, reaches, find, capped, raised, before, key_at,
}
use lightdb.Ds.Strings.Order.{Below, IsOrdered, str_lt_trans, str_lt_irrefl, str_lt_total}
use lightdb.Ds.Strings.Search.{beyond, passed, IsSkiplist, find-beyond, before-beyond, Low}

-- The value of a key, and the nodes with a key written or removed, by a scan.
unfoldable pub lookup : List StrNode → Str → Option Indexer
lookup [] key = none
lookup (n ∷ ns) key = if str_eq n.key key then some n.val else lookup ns key

unfoldable pub place : List StrNode → Str → Indexer → ℕ → List StrNode
place [] key val h = record { key = key; val = val; height = h } ∷ []
place (n ∷ ns) key val h =
    let rest = place ns key val h in
    if str_lt key n.key
    then n ∷ rest
    else if str_eq n.key key
    then record n { val = val } ∷ ns
    else record { key = key; val = val; height = h } ∷ n ∷ ns

unfoldable pub without : List StrNode → Str → List StrNode
without [] key = []
without (n ∷ ns) key = let rest = without ns key in if str_eq n.key key then ns else n ∷ rest

pub lookup-Below :
    (ns : List StrNode) (k key : Str) → Below k ns → str_lt key k ≡ false → lookup ns key ≡ none
unfolding lookup
lookup-Below [] k key b h = refl
lookup-Below (n ∷ ns) k key b h = ground (arith, lookup-Below ns k key b.1 h, str_eq_iff n.key key)

-- What the node at the position found says of the key.
pub lookup-beyond :
    (ns : List StrNode) (key : Str)
    → IsOrdered ns
    → lookup ns key ≡ elim (beyond key ns) [
      | [] ↦ none
      | n ∷ rest ↦ if str_eq n.key key then some n.val else none
    ]
unfolding lookup beyond
lookup-beyond [] key o = refl
lookup-beyond (n ∷ ns) key o = elim (Bool-cases (str_lt key n.key)) [
  | inl h ↦ ground (arith, lookup-beyond ns key o.3, str_eq_iff n.key key, str_lt_irrefl key)
  | inr h ↦ ground (arith, lookup-Below ns n.key key o.2 h)
]

pub get-lookup :
    (s : StrSkiplist) (key : Str) → IsSkiplist s → key ≢ [] → get s key ≡ lookup s.nodes key
unfolding get
get-lookup s key w k =
    ground (arith, find-beyond s key w, lookup-beyond s.nodes key w.ordered, str_eq_iff [] key)

pub settle : Str → Indexer → ℕ → List StrNode → List StrNode
settle key val h [] = record { key = key; val = val; height = h } ∷ []
settle key val h (n ∷ rest) =
    if str_eq n.key key
    then record n { val = val } ∷ rest
    else record { key = key; val = val; height = h } ∷ n ∷ rest

place-settle :
    (ns : List StrNode) (key : Str) (val : Indexer) (h : ℕ)
    → place ns key val h ≡ passed key ns ++ settle key val h (beyond key ns)
unfolding place settle passed beyond
place-settle [] key val h = refl
place-settle (n ∷ ns) key val h = ground (arith, place-settle ns key val h)

-- What `put` leaves behind, from the position found.
pub put_parts :
    (s : StrSkiplist) (key : Str) (val : Indexer) (lv : ℕ) (p : List StrNode)
    → find s key ≡ p
    → key ≢ []
    → ((put s key val lv).nodes ≡ before s p ++ settle key val (capped s.level lv) p)
      × ((put s key val lv).level ≡ (if str_eq (key_at p) key then s.level else raised s.level lv))
      × ((put s key val lv).count ≡ (if str_eq (key_at p) key then s.count else s.count + 1))
unfolding put assign_at settle
put_parts s key val lv [] e k = (
  ground (arith, e, str_eq_iff [] key),
  ground (arith, e, str_eq_iff [] key),
  ground (arith, e, str_eq_iff [] key),
)
put_parts s key val lv (n ∷ rest) e k = (ground (arith, e), ground (arith, e), ground (arith, e))

pub put-place :
    (s : StrSkiplist) (key : Str) (val : Indexer) (lv : ℕ)
    → IsSkiplist s
    → key ≢ []
    → (put s key val lv).nodes ≡ place s.nodes key val (capped s.level lv)
put-place s key val lv w k =
    let h = capped s.level lv in
    (put_parts s key val lv (beyond key s.nodes) (find-beyond s key w) k).0
    ∙ ap (λ ns. ns ++ settle key val h (beyond key s.nodes)) (before-beyond s key w)
    ∙ sym (place-settle s.nodes key val h)

pub lookup-place :
    (ns : List StrNode) (key j : Str) (val : Indexer) (h : ℕ)
    → IsOrdered ns
    → lookup (place ns key val h) j ≡ (if str_eq key j then some val else lookup ns j)
unfolding lookup place
lookup-place [] key j val h o = refl
lookup-place (n ∷ ns) key j val h o = ground (
  arith,
  lookup-place ns key j val h o.3,
  str_eq_iff n.key key,
  str_eq_iff n.key j,
  str_eq_iff key j,
  str_lt_irrefl key,
)

Below-place :
    (ns : List StrNode) (k key : Str) (val : Indexer) (h : ℕ)
    → Below k ns
    → str_lt key k ≡ true
    → Below k (place ns key val h)
unfolding place
Below-place [] k key val h b c = (c, tt)
Below-place (n ∷ ns) k key val h b c = elim (Bool-cases (str_lt key n.key)) [
  | inl e ↦ rw e (b.0, Below-place ns k key val h b.1 c)
  | inr e ↦ elim (Bool-cases (str_eq n.key key)) [ inl q ↦ rw (e, q) b | inr q ↦ rw (e, q) (c, b) ]
]

Below-lt : (ns : List StrNode) (k j : Str) → Below k ns → str_lt k j ≡ true → Below j ns
Below-lt [] k j b c = tt
Below-lt (n ∷ ns) k j b c = (str_lt_trans n.key k j b.0 c, Below-lt ns k j b.1 c)

pub place-IsOrdered :
    (ns : List StrNode) (key : Str) (val : Indexer) (h : ℕ)
    → 0 < h
    → key ≢ []
    → IsOrdered ns
    → IsOrdered (place ns key val h)
unfolding place
place-IsOrdered [] key val h t k o = (t, k, tt, tt)
place-IsOrdered (n ∷ ns) key val h t k o = elim (Bool-cases (str_lt key n.key)) [
  | inl e ↦
      rw e (o.0, o.1, Below-place ns n.key key val h o.2 e, place-IsOrdered ns key val h t k o.3)
  | inr e ↦ elim (Bool-cases (str_eq n.key key)) [
    | inl q ↦ rw (e, q) o
    | inr q ↦
        let c : str_lt n.key key ≡ true =
          ground (arith, str_lt_total key n.key, str_eq_iff n.key key) in
        rw (e, q) (t, k, (c, Below-lt ns n.key key o.2 c), o)
  ]
]

pub Low-place :
    (ns : List StrNode) (key : Str) (val : Indexer) (h l m : ℕ)
    → Low l ns
    → l ≤ m
    → h ≤ m
    → Low m (place ns key val h)
unfolding place
Low-place [] key val h l m w a b = (b, tt)
Low-place (n ∷ ns) key val h l m w a b = elim (Bool-cases (str_lt key n.key)) [
  | inl e ↦ rw e (omega (arith, w.0), Low-place ns key val h l m w.1 a b)
  | inr e ↦ elim (Bool-cases (str_eq n.key key)) [
    | inl q ↦ rw (e, q) (omega (arith, w.0), Low_weaken ns l m w.1 a)
    | inr q ↦ rw (e, q) (b, (omega (arith, w.0), Low_weaken ns l m w.1 a))
  ]
]
  where
    Low_weaken : (ns : List StrNode) (l m : ℕ) → Low l ns → l ≤ m → Low m ns
    Low_weaken [] l m w a = tt
    Low_weaken (n ∷ ns) l m w a = (omega (arith, w.0), Low_weaken ns l m w.1 a)

pub reaches-place :
    (ns : List StrNode) (key : Str) (val : Indexer) (h i : ℕ)
    → lookup ns key ≡ none
    → reaches i (place ns key val h) ≡ (ltb i h || reaches i ns)
unfolding place lookup
reaches-place [] key val h i e = refl
reaches-place (n ∷ ns) key val h i e = ground (arith, reaches-place ns key val h i)

pub reaches-place_same :
    (ns : List StrNode) (key : Str) (val : Indexer) (h i : ℕ)
    → lookup ns key ≢ none
    → IsOrdered ns
    → reaches i (place ns key val h) ≡ reaches i ns
unfolding place lookup
reaches-place_same [] key val h i e o = ground arith
reaches-place_same (n ∷ ns) key val h i e o = ground (
  arith,
  reaches-place_same ns key val h i,
  str_eq_iff n.key key,
  str_lt_irrefl key,
  lookup-Below ns n.key key o.2,
)

pub length-place :
    (ns : List StrNode) (key : Str) (val : Indexer) (h : ℕ)
    → IsOrdered ns
    → length (place ns key val h)
      ≡ elim (lookup ns key) [ none ↦ length ns + 1 | some v ↦ length ns ]
unfolding place lookup
length-place [] key val h o = refl
length-place (n ∷ ns) key val h o = ground (
  arith,
  length-place ns key val h o.3,
  str_eq_iff n.key key,
  str_lt_irrefl key,
  lookup-Below ns n.key key o.2,
)

pub get-put :
    (s : StrSkiplist) (key j : Str) (val : Indexer) (lv : ℕ)
    → IsSkiplist s
    → IsSkiplist (put s key val lv)
    → key ≢ []
    → j ≢ []
    → get (put s key val lv) j ≡ (if str_eq key j then some val else get s j)
get-put s key j val lv w w' k h =
    get-lookup (put s key val lv) j w' h
    ∙ ap (λ ns. lookup ns j) (put-place s key val lv w k)
    ∙ lookup-place s.nodes key j val (capped s.level lv) w.ordered
    ∙ ap (λ o. if str_eq key j then some val else o) (sym (get-lookup s j w h))
