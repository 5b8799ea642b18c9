-- ===== src/Cache/Runs.antt =====
-- cache/lru.h: runs of `get` and `put`, and what `remove` leaves behind.
use lightdb.Common.{
  ℕ, suc, ◌<◌, Str, str_eq_self, List, [], ◌∷◌, ◌++◌, Option, none, some, ◌≡◌, refl, sym, ap, ◌∙◌,
  arith, length, true,
}
use mathlib.Core.Path.{subst}
use lightdb.Common.Map.{Map, find, has}
use lightdb.Cache.{LruCache, new_cache, get, put, remove, ◌>>=◌}
use lightdb.Cache.Steps.{Linked, remove_node_lem, unlinked}
use lightdb.Cache.Contents.{spot, contents, find-contents, spot_split, length-join}
use lightdb.Cache.Gets.{Holds, Caches, touched, get-touched}
use lightdb.Cache.Puts.{stored_pair}
use lightdb.Cache.Evictions.{put-stored_pair}

pub data CacheOp : Type 0 where
  get_op : Str → CacheOp
  put_op : Str → Str → CacheOp

-- What the `get`s of a run find.
abbrev pub run_cache : List CacheOp → LruCache → Option (List (Option Str) × LruCache)
run_cache [] c = some ([], c)
run_cache (get_op k ∷ ops) c = do (v, c1) ← get k c; (vs, c2) ← run_cache ops c1; some (v ∷ vs, c2)
run_cache (put_op k v ∷ ops) c = do c1 ← put k v c; run_cache ops c1

-- The same run on a list of pairs.
abbrev pub run_pairs : ℕ → List CacheOp → Map Str → List (Option Str) × Map Str
run_pairs capacity [] m = ([], m)
run_pairs capacity (get_op k ∷ ops) m =
    let (vs, m1) = run_pairs capacity ops (touched k m) in (find m k ∷ vs, m1)
run_pairs capacity (put_op k v ∷ ops) m = run_pairs capacity ops (stored_pair capacity k v m)

-- Any sequence of get and put on a cache that holds the pairs of a list, most recent first and
-- within its capacity, follows no bad pointer, finds what the same sequence on the list finds,
-- where a put of a new key beyond the capacity drops the last pair, and ends with the pairs of
-- that list within the capacity.
pub run_cache-run_pairs :
    (ops : List CacheOp) (c : LruCache) (m : Map Str)
    → Caches c m
    → (c1 : LruCache) × (run_cache ops c ≡ some ((run_pairs c.capacity ops m).0, c1))
      × (c1.capacity ≡ c.capacity)
      × Caches c1 (run_pairs c.capacity ops m).1
run_cache-run_pairs [] c m w = (c, refl, refl, w)
run_cache-run_pairs (get_op k ∷ ops) c m w =
    let (c1, run, same, w1) = get-touched k c m w in
    let rest = run_cache-run_pairs ops c1 (touched k m) w1 in
    let (c2, run2, same2, w2) = rw same at rest in
    (c2, rw (◌>>=◌, run) (rw (◌>>=◌, run2) refl), same2, w2)
run_cache-run_pairs (put_op k v ∷ ops) c m w =
    let (c1, run, same, w1) = put-stored_pair k v c m w in
    let rest = run_cache-run_pairs ops c1 (stored_pair c.capacity k v m) w1 in
    let (c2, run2, same2, w2) = rw same at rest in (c2, rw (◌>>=◌, run) run2, same2, w2)

pub new_cache-Caches : (capacity : ℕ) → Caches (new_cache capacity) []
unfolding contents spot find
new_cache-Caches capacity = record {
  nodes = [];
  holds = record {
    linked = record {
      plain = record { distinct = tt; start = tt; stop = tt; apart = λ e. omega (arith, e) };
      chain = (refl, refl);
      live = tt;
      ends = (refl, refl);
    };
    room = omega arith;
    below = tt;
    found = λ k. refl;
    distinct = tt;
    counted = refl;
  };
  pairs = refl;
  bounded = omega arith;
}

-- The pair just stored is there.
pub find-stored_pair :
    (capacity : ℕ) (k v : Str) (m : Map Str)
    → 0 < capacity
    → find (stored_pair capacity k v m) k ≡ some v
unfolding find
find-stored_pair capacity k v [] h = ground (arith, str_eq_self k)
find-stored_pair capacity k v (x ∷ m) h = ground (arith, str_eq_self k)

-- A cache that counts a node which its chain no longer has.
abbrev pub Leaks : Str → LruCache → Type 0
Leaks k c =
    (c1 : LruCache) × (remove k c ≡ some c1)
    × (has c1.cache k ≡ true)
    × (c1.size ≡ c.size)
    × ((xs : List ℕ) × Linked c1 xs × (suc (length xs) ≡ c1.size))

remove_at :
    (k : Str) (c : LruCache) (p : ℕ) (ys zs : List ℕ)
    → Holds c (ys ++ p ∷ zs)
    → find c.cache k ≡ some p
    → Leaks k c
unfolding remove
remove_at k c p ys zs h e =
    let (run, linked) = remove_node_lem c p ys zs h.linked in
    (
      unlinked c p,
      rw (remove, e) run,
      rw (has, e) refl,
      refl,
      (ys ++ zs, linked, sym (length-join p ys zs) ∙ sym h.counted),
    )

remove_from :
    (k : Str) (c : LruCache) (xs : List ℕ) (o : Option ℕ)
    → Holds c xs
    → spot c.key k xs ≡ o
    → has (contents c.key c.value xs) k ≡ true
    → Leaks k c
remove_from k c xs none h e t = absurd (ground (arith, e, t, find-contents c.key c.value k xs))
remove_from k c xs (some p) h e t =
    let (ys, zs, q, i) = spot_split c.key c.value k p xs e in
    remove_at k c p ys zs (subst (Holds c) q h) (h.found k ∙ e)

-- After remove of a key that the cache holds, the map still has the key and the size is as
-- before, one more than the nodes in the chain.
pub remove_leaks :
    (k : Str) (c : LruCache) (m : Map Str)
    → Caches c m
    → has m k ≡ true
    → (c1 : LruCache) × (remove k c ≡ some c1)
      × (has c1.cache k ≡ true)
      × (c1.size ≡ c.size)
      × ((xs : List ℕ) × Linked c1 xs × (suc (length xs) ≡ c1.size))
remove_leaks k c m w t =
    remove_from k c w.nodes (spot c.key k w.nodes) w.holds refl (ap (λ l. has l k) w.pairs ∙ t)
