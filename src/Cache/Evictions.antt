-- ===== src/Cache/Evictions.antt =====
-- cache/lru.h: `put` of a new key, which drops the oldest pair of a full cache.
use lightdb.Common.{
  ℕ, suc, ◌+◌, ◌-◌, ◌≤◌, ltb, Str, str_eq_iff, false, if◌then◌else◌, List, [], ◌∷◌, ◌++◌, Option,
  none, some, ◌≡◌, refl, sym, ap, ◌∙◌, arith, length, Bool-cases, inl, inr,
}
use mathlib.Core.Path.{subst}
use lightdb.Common.Map.{Map, find, erase, assign, has, find-erase}
use lightdb.Cache.{LruCache, head, tail, update, put, put_new, evict, new_node, ◌>>=◌, add_to_head}
use lightdb.Cache.Chain.{Off-append}
use lightdb.Cache.Steps.{remove_tail_lem, unlinked, NoDup-join, headed}
use lightdb.Cache.Contents.{
  spot, contents, find-contents, length-contents, spot_split, spot-join, IsDistinct-join,
  length-join,
}
use lightdb.Cache.Gets.{Holds, Caches, below-join}
use lightdb.Cache.Puts.{drop_last, stored_pair, Puts, put_front, grown, grown-Holds, live-update}

-- The last node of a chain that has one.
last_split : (x : ℕ) (xs : List ℕ) → (ys : List ℕ) × (p : ℕ) × (x ∷ xs ≡ ys ++ p ∷ [])
last_split x [] = ([], x, refl)
last_split x (y ∷ xs) = let (ys, p, e) = last_split y xs in (x ∷ ys, p, ap (λ l. x ∷ l) e)

-- The cache without its last node.
abbrev pub evicted : LruCache → ℕ → LruCache
evicted c p =
    let c1 = unlinked c p in
    record c1 { cache = erase c.cache (c.key p); live = update c.live p false; size = c.size - 1 }

drop_last-contents :
    (key value : ℕ → Str) (p : ℕ) (ys : List ℕ)
    → drop_last (contents key value (ys ++ p ∷ [])) ≡ contents key value (ys ++ [])
unfolding contents
drop_last-contents key value p [] = refl
drop_last-contents key value p (y ∷ []) = refl
drop_last-contents key value p (y ∷ z ∷ ys) =
    ap (λ m. (key y, value y) ∷ m) (drop_last-contents key value p (z ∷ ys))

spot_gone :
    (key value : ℕ → Str) (k : Str) (xs : List ℕ)
    → find (contents key value xs) k ≡ none
    → spot key k xs ≡ none
spot_gone key value k xs e = ground (arith, find-contents key value k xs, e)

evict-Holds :
    (c : LruCache) (p : ℕ) (ys : List ℕ)
    → Holds c (ys ++ p ∷ [])
    → (evict c ≡ some (evicted c p)) × Holds (evicted c p) (ys ++ [])
unfolding evict
evict-Holds c p ys h =
    let (run, l) = remove_tail_lem c p ys h.linked in
    let (d, n) = IsDistinct-join c.key c.value p ys [] h.distinct in
    let off = (NoDup-join p ys [] h.linked.plain.distinct).1 in
    (
      rw (◌>>=◌, run) refl,
      record {
        linked = record {
          plain = l.plain;
          chain = l.chain;
          live = live-update c.live p false (ys ++ []) off l.live;
          ends = (
            ground (arith, (Off-append head p ys [] h.linked.plain.start).1, l.ends.0),
            ground (arith, (Off-append tail p ys [] h.linked.plain.stop).1, l.ends.1),
          );
        };
        room = h.room;
        below = (below-join c.fresh p ys [] h.below).1;
        found = λ j.
            find-erase c.cache (c.key p) j
            ∙ ground (
              arith,
              h.found j,
              spot-join c.key c.value j p ys [] h.distinct,
              spot_gone c.key c.value (c.key p) (ys ++ []) n,
              str_eq_iff (c.key p) j,
            );
        distinct = d;
        counted = ground (arith, h.counted, length-join p ys []);
      },
    )

-- What is left after the oldest of some pairs is dropped.
pub record Evicts (c : LruCache) (xs : List ℕ) : Type 0 where
  pub end : LruCache
  pub run : evict c ≡ some end
  pub capacity : end.capacity ≡ c.capacity
  pub nodes : List ℕ
  pub holds : Holds end nodes
  pub pairs : contents end.key end.value nodes ≡ drop_last (contents c.key c.value xs)
  pub shorter : suc (length nodes) ≡ length xs

evict-Evicts : (c : LruCache) (x : ℕ) (xs : List ℕ) → Holds c (x ∷ xs) → Evicts c (x ∷ xs)
evict-Evicts c x xs h =
    let (ys, p, e) = last_split x xs in
    subst (λ l. Holds c l → Evicts c l) (sym e)
      (λ h1.
        let (run, left) = evict-Holds c p ys h1 in
        record {
          end = evicted c p;
          run = run;
          capacity = refl;
          nodes = ys ++ [];
          holds = left;
          pairs = sym (drop_last-contents c.key c.value p ys);
          shorter = sym (length-join p ys []);
        })
      h

put_run : (k v : Str) (c : LruCache) → find c.cache k ≡ none → put k v c ≡ put_new k v c
unfolding put
put_run k v c e = rw (put, e) refl

put_new_run :
    (k v : Str) (c : LruCache)
    → add_to_head c.fresh (record (new_node k v c) { cache = assign c.cache k c.fresh })
      ≡ some (headed (record (new_node k v c) { cache = assign c.cache k c.fresh }) c.fresh)
    → put_new k v c
      ≡ (if ltb c.capacity (c.size + 1) then evict (grown k v c) else some (grown k v c))
unfolding put_new
put_new_run k v c e = rw (◌>>=◌, e) refl

-- A new pair.
put_fresh :
    (k v : Str) (c : LruCache) (xs : List ℕ)
    → Holds c xs
    → length xs ≤ c.capacity
    → find c.cache k ≡ none
    → find (contents c.key c.value xs) k ≡ none
    → Puts k v c (contents c.key c.value xs)
put_fresh k v c xs h b e f =
    let (g, pairs, run) = grown-Holds k v c xs h e in
    let new = put_run k v c e ∙ put_new_run k v c run in
    let count : suc (length (contents c.key c.value xs)) ≡ c.size + 1 =
      ground (arith, h.counted, length-contents c.key c.value xs) in
    elim (Bool-cases (ltb c.capacity (c.size + 1))) [
      | inr fits ↦ (
        grown k v c,
        new ∙ rw fits refl,
        refl,
        rw (stored_pair, has, f, ap (ltb c.capacity) count ∙ fits)
            (record {
              nodes = c.fresh ∷ xs;
              holds = g;
              pairs = pairs;
              bounded = ground (arith, fits, h.counted);
            }),
      )
      | inl full ↦
          let gone = evict-Evicts (grown k v c) c.fresh xs g in
          (
            gone.end,
            new ∙ rw full gone.run,
            gone.capacity,
            rw (stored_pair, has, f, ap (ltb c.capacity) count ∙ full)
                (record {
                  nodes = gone.nodes;
                  holds = gone.holds;
                  pairs = gone.pairs ∙ ap drop_last pairs;
                  bounded = rw gone.capacity (omega (arith, b, gone.shorter));
                }),
          )
    ]

put_at :
    (k v : Str) (c : LruCache) (xs : List ℕ)
    → Holds c xs
    → length xs ≤ c.capacity
    → (o : Option ℕ) → spot c.key k xs ≡ o
    → Puts k v c (contents c.key c.value xs)
put_at k v c xs h b none e =
    put_fresh k v c xs h b (h.found k ∙ e) (find-contents c.key c.value k xs ∙ rw e refl)
put_at k v c xs h b (some p) e =
    let (ys, zs, q, i) = spot_split c.key c.value k p xs e in
    subst
      (λ l.
        Holds c l
        → length l ≤ c.capacity
        → spot c.key k l ≡ some p
        → Puts k v c (contents c.key c.value l))
      (sym q)
      (λ h1 b1 e1.
        put_front k v c p ys zs h1 b1 i (h1.found k ∙ e1)
          (find-contents c.key c.value k (ys ++ p ∷ zs) ∙ rw e1 refl))
      h b e

-- `put` writes the pair to the front, and drops the last one beyond the capacity.
pub put-stored_pair :
    (k v : Str) (c : LruCache) (m : Map Str)
    → Caches c m
    → (c1 : LruCache) × (put k v c ≡ some c1)
      × (c1.capacity ≡ c.capacity)
      × Caches c1 (stored_pair c.capacity k v m)
put-stored_pair k v c m w =
    subst (Puts k v c) w.pairs (put_at k v c w.nodes w.holds w.bounded (spot c.key k w.nodes) refl)
