-- ===== src/Ds/Strings/Runs.antt =====
-- ds/str/ds_strlist.h: runs of `put` and `erase` against a map, and what the empty key does.
use lightdb.Ds.Strings.{erased, tail_deleted}
use lightdb.Common.{
  ℕ, zero, suc, ◌+◌, ◌≤◌, ◌<◌, if◌then◌else◌, Bool, true, false, Bool-cases, Option-cases, inl, inr,
  Str, str_eq, str_eq_iff, ◌≡◌, refl, arith, [], ◌∷◌, ◌∙◌, List, Option, none, some, ◌≢◌, ap, sym,
}
use lightdb.Common.Map.{Map, find, assign, erase, find-erase, find-assign}
use lightdb.Storage.Indexer.{Indexer}
use lightdb.Ds.Strings
use lightdb.Ds.Strings.{
  StrNode, StrSkiplist, max_level, random_level, level_loop, get, put, new_skiplist, shrink,
  put_drawn,
}
use lightdb.Ds.Strings.Search.{IsSkiplist}
use lightdb.Ds.Strings.Laws.{get-put}
use lightdb.Ds.Strings.Erase.{dropped, erase-dropped, get-dropped, dropped-IsSkiplist}
use lightdb.Ds.Strings.Put.{put-IsSkiplist}

level_loop_bounds :
    (rand : ℕ → ℕ) (n lv t : ℕ)
    → (lv ≤ (level_loop rand n lv t).0) × ((level_loop rand n lv t).0 ≤ lv + n)
unfolding level_loop
level_loop_bounds rand zero lv t = (omega arith, omega arith)
level_loop_bounds rand (suc n) lv t = ground (arith, level_loop_bounds rand n (lv + 1) (t + 1))

-- The level that randomLevel draws is between 1 and 32, whatever numbers it is given.
random_level_bounds :
    (rand : ℕ → ℕ) (t : ℕ) → (0 < (random_level rand t).0) × ((random_level rand t).0 ≤ max_level)
unfolding random_level
random_level_bounds rand t =
    let (low, high) = level_loop_bounds rand 31 1 t in (omega (arith, low), omega (arith, high))

-- A change of the list.
pub data StrOp : Type 0 where
  put_op : Str → Indexer → StrOp
  erase_op : Str → StrOp

-- The changes of a run in turn; `t` numbers have been drawn before.
unfoldable pub run_ops : (ℕ → ℕ) → List StrOp → StrSkiplist → ℕ → Option StrSkiplist
unfolding put_drawn Strings.erase
run_ops rand [] s t = some s
run_ops rand (put_op key val ∷ ops) s t =
    let (s1, t1) = put_drawn rand s key val t in run_ops rand ops s1 t1
run_ops rand (erase_op key ∷ ops) s t = elim (Strings.erase s key) [
  | tail_deleted ↦ none
  | erased s1 found ↦ run_ops rand ops s1 t
]

-- The same changes of a map.
unfoldable pub map_ops : List StrOp → Map Indexer → Map Indexer
unfolding assign erase
map_ops [] m = m
map_ops (put_op key val ∷ ops) m = map_ops ops (assign m key val)
map_ops (erase_op key ∷ ops) m = map_ops ops (erase m key)

abbrev pub HasKeys : List StrOp → Type 0
HasKeys [] = Unit
HasKeys (put_op key val ∷ ops) = (key ≢ []) × HasKeys ops
HasKeys (erase_op key ∷ ops) = (key ≢ []) × HasKeys ops

-- The list is in order and reads as the map does, at every key but the empty one.
pub record Reads (s : StrSkiplist) (m : Map Indexer) : Type 0 where
  pub whole : IsSkiplist s
  pub same : (j : Str) → j ≢ [] → get s j ≡ find m j

-- `put_drawn` is `put` at a level within bounds.
put_drawn-put :
    (rand : ℕ → ℕ) (s : StrSkiplist) (key : Str) (val : Indexer) (t : ℕ)
    → (lv : ℕ) × ((put_drawn rand s key val t).0 ≡ put s key val lv) × (0 < lv) × (lv ≤ max_level)
unfolding put_drawn
put_drawn-put rand s key val t =
    let (lv, t1) = random_level rand t in
    let (low, high) = random_level_bounds rand t in
    let drawn : Bool → StrSkiplist =
      λ b. (if◌then◌else◌ {A = StrSkiplist × ℕ} b (put s key val 1, t) (put s key val lv, t1)).0 in
    elim (Bool-cases (str_eq (Strings.key_at (Strings.find s key)) key)) [
      | inl e ↦ (1, ap drawn e, omega arith, omega arith)
      | inr e ↦ (lv, ap drawn e, low, high)
    ]

pub put_drawn-IsSkiplist :
    (rand : ℕ → ℕ) (s : StrSkiplist) (key : Str) (val : Indexer) (t : ℕ)
    → IsSkiplist s
    → key ≢ []
    → IsSkiplist (put_drawn rand s key val t).0
put_drawn-IsSkiplist rand s key val t w k =
    let (lv, e, low, high) = put_drawn-put rand s key val t in
    rw e (put-IsSkiplist s key val lv w k low high)

pub get-put_drawn :
    (rand : ℕ → ℕ) (s : StrSkiplist) (key j : Str) (val : Indexer) (t : ℕ)
    → IsSkiplist s
    → key ≢ []
    → j ≢ []
    → get (put_drawn rand s key val t).0 j ≡ (if str_eq key j then some val else get s j)
get-put_drawn rand s key j val t w k h =
    let (lv, e, low, high) = put_drawn-put rand s key val t in
    rw e (get-put s key j val lv w (put-IsSkiplist s key val lv w k low high) k h)

erase_step :
    (rand : ℕ → ℕ) (key : Str) (ops : List StrOp) (s s1 : StrSkiplist) (found : Bool) (t : ℕ)
    → Strings.erase s key ≡ erased s1 found
    → run_ops rand (erase_op key ∷ ops) s t ≡ run_ops rand ops s1 t
unfolding run_ops
erase_step rand key ops s s1 found t e =
    ap (λ o. elim o [ tail_deleted ↦ none | erased s2 b ↦ run_ops rand ops s2 t ]) e

-- Any sequence of put and erase of keys that are not empty, on a skip list in order that reads
-- as a map, is defined for whatever levels are drawn, and ends with a skip list in order, with
-- no empty level and at most 32 levels, whose get reads what the map reads after the same
-- changes.
pub run_ops-map_ops :
    (rand : ℕ → ℕ) (ops : List StrOp) (s : StrSkiplist) (m : Map Indexer) (t : ℕ)
    → Reads s m
    → HasKeys ops
    → (s' : StrSkiplist) × (run_ops rand ops s t ≡ some s') × Reads s' (map_ops ops m)
unfolding run_ops map_ops
run_ops-map_ops rand [] s m t r h = (s, refl, r)
run_ops-map_ops rand (put_op key val ∷ ops) s m t r h =
    run_ops-map_ops rand ops (put_drawn rand s key val t).0 (assign m key val)
      (put_drawn rand s key val t).1
      (record {
        whole = put_drawn-IsSkiplist rand s key val t r.whole h.0;
        same = λ j g.
            get-put_drawn rand s key j val t r.whole h.0 g
            ∙ ap (λ o. if str_eq key j then some val else o) (r.same j g)
            ∙ sym (find-assign m key j val);
      })
      h.1
run_ops-map_ops rand (erase_op key ∷ ops) s m t r h = elim (Option-cases (get s key)) [
  | inl e ↦
      let (s', eq, r') = run_ops-map_ops rand ops s (erase m key) t (absent e) h.1 in
      (s', erase_step rand key ops s s false t (step none e) ∙ eq, r')
  | inr (v, e) ↦
      let (s', eq, r') =
        run_ops-map_ops rand ops (dropped s key) (erase m key) t (present v e) h.1 in
      (s', erase_step rand key ops s (dropped s key) true t (step (some v) e) ∙ eq, r')
]
  where
    step :
        (o : Option Indexer)
        → get s key ≡ o
        → Strings.erase s key
          ≡ elim o [ none ↦ erased s false | some v ↦ erased (dropped s key) true ]
    step o e =
        erase-dropped s key r.whole h.0
        ∙ ap (λ q. elim q [ none ↦ erased s false | some v ↦ erased (dropped s key) true ]) e

    absent : get s key ≡ none → Reads s (erase m key)
    absent e = record {
      whole = r.whole;
      same = λ j g. ground (arith, r.same j g, find-erase m key j, str_eq_iff key j, e);
    }

    present : (v : Indexer) → get s key ≡ some v → Reads (dropped s key) (erase m key)
    present v e = record {
      whole = dropped-IsSkiplist s key v r.whole h.0 e;
      same = λ j g.
          get-dropped s key j v r.whole h.0 g e
          ∙ ap (λ o. if str_eq key j then none else o) (r.same j g)
          ∙ sym (find-erase m key j);
    }

new_get : (j : Str) → j ≢ [] → get new_skiplist j ≡ find {V = Indexer} [] j
unfolding get find str_eq Strings.find Strings.descend
new_get [] h = ground arith
new_get (c ∷ j) h = refl

pub new-Reads : Reads new_skiplist []
unfolding shrink
new-Reads = record {
  whole = record { ordered = tt; low = tt; tight = refl; bounded = omega arith; counted = refl };
  same = λ j h. new_get j h;
}
