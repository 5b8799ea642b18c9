-- ===== src/Cache/Gets.antt =====
-- cache/lru.h: the cache against a list of pairs, most recent first, and `get`.
use lightdb.Common.{
  ℕ, ◌<◌, ◌≤◌, Str, List, [], ◌∷◌, ◌++◌, Option, none, some, ◌≡◌, refl, sym, ◌∙◌, arith, length,
}
use mathlib.Core.Path.{subst}
use lightdb.Common.Map.{Map, find, erase, IsDistinct}
use lightdb.Cache.{LruCache, get, ◌>>=◌}
use lightdb.Cache.Steps.{Linked, move_to_head_lem, headed, unlinked}
use lightdb.Cache.Contents.{
  spot, contents, find-contents, spot_split, erase-contents, spot-join, IsDistinct-join,
  length-join,
}

abbrev pub AllBelow : ℕ → List ℕ → Type 0
AllBelow n [] = Unit
AllBelow n (x ∷ xs) = (x < n) × AllBelow n xs

pub below-join : (n p : ℕ) (ys zs : List ℕ) → AllBelow n (ys ++ p ∷ zs) → AllBelow n (p ∷ ys ++ zs)
below-join n p [] zs w = w
below-join n p (y ∷ ys) zs w = let (a, b) = below-join n p ys zs w.1 in (a, (w.0, b))

-- The nodes of the chain are those of the map, and as many as the size says.
pub record Holds (c : LruCache) (xs : List ℕ) : Type 0 where
  pub linked : Linked c xs
  pub room : 2 < c.fresh
  pub below : AllBelow c.fresh xs
  pub found : (k : Str) → find c.cache k ≡ spot c.key k xs
  pub distinct : IsDistinct (contents c.key c.value xs)
  pub counted : c.size ≡ length xs

-- The pairs of the cache.
pub record Caches (c : LruCache) (m : Map Str) : Type 0 where
  pub nodes : List ℕ
  pub holds : Holds c nodes
  pub pairs : contents c.key c.value nodes ≡ m
  pub bounded : length nodes ≤ c.capacity

-- A node moved to the front.
pub fronted :
    (c : LruCache) (p : ℕ) (ys zs : List ℕ)
    → Holds c (ys ++ p ∷ zs)
    → Holds (headed (unlinked c p) p) (p ∷ ys ++ zs)
unfolding contents spot
fronted c p ys zs h =
    let (d, n) = IsDistinct-join c.key c.value p ys zs h.distinct in
    record {
      linked = (move_to_head_lem c p ys zs h.linked).1;
      room = h.room;
      below = below-join c.fresh p ys zs h.below;
      found = λ k. h.found k ∙ spot-join c.key c.value k p ys zs h.distinct;
      distinct = (n, d);
      counted = h.counted ∙ length-join p ys zs;
    }

-- `get` on a list of pairs: the pair found comes first.
abbrev pub touched : Str → Map Str → Map Str
touched k m = elim (find m k) [ none ↦ m | some v ↦ (k, v) ∷ erase m k ]

-- The result of `get`.
abbrev pub Gets : Str → LruCache → Map Str → Type 0
Gets k c m =
    (c1 : LruCache) × (get k c ≡ some (find m k, c1))
    × (c1.capacity ≡ c.capacity)
    × Caches c1 (touched k m)

get_absent :
    (k : Str) (c : LruCache) (m : Map Str)
    → Caches c m
    → find c.cache k ≡ none
    → find m k ≡ none
    → Gets k c m
unfolding get
get_absent k c m w e f = (c, rw (get, e, f) refl, refl, rw (touched, f) w)

get_front :
    (k : Str) (c : LruCache) (p : ℕ) (ys zs : List ℕ)
    → Holds c (ys ++ p ∷ zs)
    → length (ys ++ p ∷ zs) ≤ c.capacity
    → c.key p ≡ k
    → find c.cache k ≡ some p
    → find (contents c.key c.value (ys ++ p ∷ zs)) k ≡ some (c.value p)
    → Gets k c (contents c.key c.value (ys ++ p ∷ zs))
unfolding get contents
get_front k c p ys zs h b i e f = (
  headed (unlinked c p) p,
  rw (get, e, f) (rw (◌>>=◌, (move_to_head_lem c p ys zs h.linked).0) refl),
  refl,
  rw (touched, f)
      (record {
        nodes = p ∷ ys ++ zs;
        holds = fronted c p ys zs h;
        pairs = rw (sym i, erase-contents c.key c.value p ys zs h.distinct) refl;
        bounded = omega (arith, b, length-join p ys zs);
      }),
)

get_at :
    (k : Str) (c : LruCache) (xs : List ℕ)
    → Holds c xs
    → length xs ≤ c.capacity
    → (o : Option ℕ) → spot c.key k xs ≡ o
    → Gets k c (contents c.key c.value xs)
get_at k c xs h b none e =
    get_absent k c (contents c.key c.value xs)
      (record { nodes = xs; holds = h; pairs = refl; bounded = b }) (h.found k ∙ e)
      (find-contents c.key c.value k xs ∙ rw e refl)
get_at k c xs h b (some p) e =
    let (ys, zs, q, i) = spot_split c.key c.value k p xs e in
    subst
      (λ l.
        Holds c l
        → length l ≤ c.capacity
        → spot c.key k l ≡ some p
        → Gets k c (contents c.key c.value l))
      (sym q)
      (λ h1 b1 e1.
        get_front k c p ys zs h1 b1 i (h1.found k ∙ e1)
          (find-contents c.key c.value k (ys ++ p ∷ zs) ∙ rw e1 refl))
      h b e

-- `get` finds what the list has, and moves that pair to the front.
pub get-touched :
    (k : Str) (c : LruCache) (m : Map Str)
    → Caches c m
    → (c1 : LruCache) × (get k c ≡ some (find m k, c1))
      × (c1.capacity ≡ c.capacity)
      × Caches c1 (touched k m)
get-touched k c m w =
    subst (Gets k c) w.pairs (get_at k c w.nodes w.holds w.bounded (spot c.key k w.nodes) refl)
