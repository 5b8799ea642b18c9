-- ===== src/Ds/Strings/Put.antt =====
-- ds/str/ds_strlist.h: `put` keeps the list in order.
use lightdb.Common.{
  ℕ, zero, suc, ◌≤◌, ◌<◌, ltb, if◌then◌else◌, true, false, Bool-cases, Option-cases, inl, inr, Str,
  str_eq, str_eq_iff, ◌≡◌, refl, arith, [], ◌∷◌, ◌∙◌, List, none, some, ◌≢◌,
}
use lightdb.Storage.Indexer.{Indexer}
use lightdb.Ds.Strings.{
  StrNode, StrSkiplist, put, key_at, reaches, shrink, capped, raised, max_level,
}
use lightdb.Ds.Strings.Order.{IsOrdered, str_lt_irrefl}
use lightdb.Ds.Strings.Search.{beyond, IsSkiplist, find-beyond}
use lightdb.Ds.Strings.Laws.{
  lookup, place, lookup-beyond, put_parts, put-place, place-IsOrdered, Low-place, reaches-place,
  reaches-place_same, length-place, lookup-Below,
}

-- Whether `put` finds the key.
found_as :
    (s : StrSkiplist) (key : Str)
    → IsSkiplist s
    → key ≢ []
    → str_eq (key_at (beyond key s.nodes)) key
      ≡ elim (lookup s.nodes key) [ none ↦ false | some v ↦ true ]
found_as s key w k = go (beyond key s.nodes) (lookup-beyond s.nodes key w.ordered)
  where
    go :
        (p : List StrNode)
        → lookup s.nodes key
          ≡ elim p [ [] ↦ none | n ∷ rest ↦ if str_eq n.key key then some n.val else none ]
        → str_eq (key_at p) key ≡ elim (lookup s.nodes key) [ none ↦ false | some v ↦ true ]
    go [] e = ground (arith, str_eq_iff [] key)
    go (n ∷ rest) e = ground arith

shrink_tight : (l : ℕ) (ns : List StrNode) → reaches l ns ≡ true → shrink (suc l) ns ≡ suc l
unfolding shrink
shrink_tight l ns e = ground arith

pub shrink_low : (l : ℕ) (ns : List StrNode) → shrink l ns ≤ l
unfolding shrink
shrink_low zero ns = omega arith
shrink_low (suc l) ns = ground (arith, shrink_low l ns)

tight_reaches : (l : ℕ) (ns : List StrNode) → shrink (suc l) ns ≡ suc l → reaches l ns ≡ true
unfolding shrink
tight_reaches l ns e = ground (arith, shrink_low l ns)

-- A list that reaches as many levels keeps its level.
tight_kept :
    (l : ℕ) (ns ms : List StrNode)
    → ((i : ℕ) → reaches i ns ≡ true → reaches i ms ≡ true)
    → shrink l ns ≡ l
    → shrink l ms ≡ l
unfolding shrink
tight_kept zero ns ms f e = refl
tight_kept (suc l) ns ms f e = shrink_tight l ms (f l (tight_reaches l ns e))

place_found :
    (ns : List StrNode) (key : Str) (val : Indexer) (h : ℕ)
    → lookup ns key ≢ none
    → IsOrdered ns
    → place ns key val h ≡ place ns key val 0
unfolding place lookup
place_found [] key val h e o = ground arith
place_found (n ∷ ns) key val h e o = ground (
  arith,
  place_found ns key val h,
  str_eq_iff n.key key,
  str_lt_irrefl key,
  lookup-Below ns n.key key o.2,
)

module _ (s : StrSkiplist) (key : Str) (val : Indexer) (lv : ℕ) (w : IsSkiplist s)
    (k : key ≢ []) where
  put_there : (v : Indexer) → lookup s.nodes key ≡ some v → 0 < lv → IsSkiplist (put s key val lv)
  put_there v e t =
      let parts = put_parts s key val lv (beyond key s.nodes) (find-beyond s key w) k in
      let found = found_as s key w k in
      let h = capped s.level lv in
      let same = put-place s key val lv w k in
      let level : (put s key val lv).level ≡ s.level = ground (arith, parts.1, found, e) in
      let there : lookup s.nodes key ≢ none = ground (arith, e) in
      record {
        ordered = rw same (place-IsOrdered s.nodes key val h (ground arith) k w.ordered);
        low =
            rw (level, same, place_found s.nodes key val h there w.ordered)
              (Low-place s.nodes key val 0 s.level s.level w.low (omega arith) (omega arith));
        tight =
            rw (level, same)
              (tight_kept s.level s.nodes (place s.nodes key val h)
                (λ i r. reaches-place_same s.nodes key val h i there w.ordered ∙ r) w.tight);
        bounded = rw level w.bounded;
        counted =
            ground
              (arith, parts.2, found, e, same, length-place s.nodes key val h w.ordered, w.counted);
      }

  tight_new :
      lookup s.nodes key ≡ none
      → shrink (raised s.level lv) (place s.nodes key val (capped s.level lv)) ≡ raised s.level lv
  tight_new e = elim (Bool-cases (ltb s.level lv)) [
    | inl g ↦ rw g (
        shrink_tight s.level (place s.nodes key val (suc s.level))
          (ground (arith, reaches-place s.nodes key val (suc s.level) s.level e)))
    | inr g ↦ rw g (
        tight_kept s.level s.nodes (place s.nodes key val lv)
          (λ i r. ground (arith, reaches-place s.nodes key val lv i e)) w.tight)
  ]

  put_new : lookup s.nodes key ≡ none → 0 < lv → lv ≤ max_level → IsSkiplist (put s key val lv)
  put_new e t b =
      let parts = put_parts s key val lv (beyond key s.nodes) (find-beyond s key w) k in
      let found = found_as s key w k in
      let h = capped s.level lv in
      let m = raised s.level lv in
      let same = put-place s key val lv w k in
      let level : (put s key val lv).level ≡ m = ground (arith, parts.1, found, e) in
      record {
        ordered = rw same (place-IsOrdered s.nodes key val h (ground arith) k w.ordered);
        low =
            rw (level, same)
              (Low-place s.nodes key val h s.level m w.low (ground arith) (ground arith));
        tight = rw (level, same) (tight_new e);
        bounded = rw level (ground (arith, w.bounded));
        counted =
            ground
              (arith, parts.2, found, e, same, length-place s.nodes key val h w.ordered, w.counted);
      }

pub put-IsSkiplist :
    (s : StrSkiplist) (key : Str) (val : Indexer) (lv : ℕ)
    → IsSkiplist s
    → key ≢ []
    → 0 < lv
    → lv ≤ max_level
    → IsSkiplist (put s key val lv)
put-IsSkiplist s key val lv w k t b = elim (Option-cases (lookup s.nodes key)) [
  | inl e ↦ put_new s key val lv w k e t b
  | inr (v, e) ↦ put_there s key val lv w k v e t
]
