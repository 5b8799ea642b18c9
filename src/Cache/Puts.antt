-- ===== src/Cache/Puts.antt =====
-- cache/lru.h: `put` against a list of pairs, most recent first.
use lightdb.Common.{
  ℕ, suc, ◌+◌, ◌≤◌, ltb, Bool, Str, true, if◌then◌else◌, List, [], ◌∷◌, ◌++◌, none, some, ◌≡◌, refl,
  sym, ap, ◌∙◌, arith, length,
}
use lightdb.Common.Map.{Map, find, erase, assign, has, find-assign}
use lightdb.Cache.{LruCache, head, tail, update, put, new_node, add_to_head}
use lightdb.Cache.Chain.{Off, Chain-next, Chain-prev}
use lightdb.Cache.Steps.{
  Linked, AllLive, move_to_head_lem, add_to_head_lem, headed, unlinked, NoDup-join,
}
use lightdb.Cache.Contents.{
  spot, contents, find-contents, erase-contents, length-join, contents-update_value,
  contents-update_key, spot-update_key,
}
use lightdb.Cache.Gets.{Holds, Caches, AllBelow, fronted}

-- The pairs without the oldest.
abbrev pub drop_last : Map Str → Map Str
drop_last [] = []
drop_last (x ∷ []) = []
drop_last (x ∷ y ∷ m) = x ∷ drop_last (y ∷ m)

-- `put` on a list of pairs, within a capacity.
abbrev pub stored_pair : ℕ → Str → Str → Map Str → Map Str
stored_pair capacity k v m =
    let m1 = (k, v) ∷ m in
    if has m k then (k, v) ∷ erase m k else if ltb capacity (length m1) then drop_last m1 else m1

-- What `put` gives.
abbrev pub Puts : Str → Str → LruCache → Map Str → Type 0
Puts k v c m =
    (c1 : LruCache) × (put k v c ≡ some c1)
    × (c1.capacity ≡ c.capacity)
    × Caches c1 (stored_pair c.capacity k v m)

fresh-Off : (n : ℕ) (xs : List ℕ) → AllBelow n xs → Off n xs
fresh-Off n [] w = tt
fresh-Off n (x ∷ xs) w = ((λ e. omega (arith, w.0, e)), fresh-Off n xs w.1)

below_suc : (n : ℕ) (xs : List ℕ) → AllBelow n xs → AllBelow (suc n) xs
below_suc n [] w = tt
below_suc n (x ∷ xs) w = (omega (arith, w.0), below_suc n xs w.1)

pub live-update :
    (live : ℕ → Bool) (p : ℕ) (b : Bool) (xs : List ℕ)
    → Off p xs
    → AllLive live xs
    → AllLive (update live p b) xs
live-update live p b [] o w = tt
live-update live p b (x ∷ xs) o w = (ground (arith, o.0, w.0), live-update live p b xs o.1 w.1)

-- A new value for the node of a key, which then comes first.
pub put_front :
    (k v : Str) (c : LruCache) (p : ℕ) (ys zs : List ℕ)
    → Holds c (ys ++ p ∷ zs)
    → length (ys ++ p ∷ zs) ≤ c.capacity
    → c.key p ≡ k
    → find c.cache k ≡ some p
    → find (contents c.key c.value (ys ++ p ∷ zs)) k ≡ some (c.value p)
    → Puts k v c (contents c.key c.value (ys ++ p ∷ zs))
unfolding put contents
put_front k v c p ys zs h b i e f =
    let c0 = record c { value = update c.value p v } in
    let w : Linked c0 (ys ++ p ∷ zs) = record {
      plain = h.linked.plain;
      chain = h.linked.chain;
      live = h.linked.live;
      ends = h.linked.ends;
    } in
    let l = move_to_head_lem c0 p ys zs w in
    let off = (NoDup-join p ys zs h.linked.plain.distinct).1 in
    let same = contents-update_value c.key c.value p v (ys ++ zs) off in
    let old = fronted c p ys zs h in
    let erased =
      ap (erase (contents c.key c.value (ys ++ p ∷ zs))) (sym i)
      ∙ erase-contents c.key c.value p ys zs h.distinct in
    let value_p : c0.value p ≡ v = ground arith in
    (
      headed (unlinked c0 p) p,
      rw (put, e) l.0,
      refl,
      rw (stored_pair, has, f)
          (record {
            nodes = p ∷ ys ++ zs;
            holds = record {
              linked = l.1;
              room = h.room;
              below = old.below;
              found = old.found;
              distinct = rw same old.distinct;
              counted = old.counted;
            };
            pairs = rw (same, i, erased, value_p) refl;
            bounded = omega (arith, b, length-join p ys zs);
          }),
    )

-- The new node, before it is linked.
made-Linked : (c : LruCache) (k v : Str) (xs : List ℕ) → Holds c xs → Linked (new_node k v c) xs
made-Linked c k v xs h =
    let off = fresh-Off c.fresh xs h.below in
    let l = h.linked in
    record {
      plain = l.plain;
      chain =
          Chain-prev (update c.next c.fresh 0) c.prev head tail c.fresh 0 xs
            (λ e. omega (arith, h.room, e)) off
            (Chain-next c.next c.prev head tail c.fresh 0 xs (λ e. omega (arith, h.room, e)) off
              l.chain);
      live = live-update c.live c.fresh true xs off l.live;
      ends = (ground (arith, l.ends.0), ground (arith, l.ends.1));
    }

-- A new node at the front, its key in the map and the size one more.
abbrev pub grown : Str → Str → LruCache → LruCache
grown k v c =
    let c0 = record (new_node k v c) { cache = assign c.cache k c.fresh } in
    let c1 = headed c0 c.fresh in record c1 { size = c1.size + 1 }

pub grown-Holds :
    (k v : Str) (c : LruCache) (xs : List ℕ)
    → Holds c xs
    → find c.cache k ≡ none
    → Holds (grown k v c) (c.fresh ∷ xs)
      × (contents (grown k v c).key (grown k v c).value (c.fresh ∷ xs)
          ≡ (k, v) ∷ contents c.key c.value xs)
      × (add_to_head c.fresh (record (new_node k v c) { cache = assign c.cache k c.fresh })
          ≡ some (headed (record (new_node k v c) { cache = assign c.cache k c.fresh }) c.fresh))
unfolding contents spot
grown-Holds k v c xs h e =
    let p = c.fresh in
    let c0 = record (new_node k v c) { cache = assign c.cache k p } in
    let off = fresh-Off p xs h.below in
    let made = made-Linked c k v xs h in
    let w : Linked c0 xs = record {
      plain = made.plain;
      chain = made.chain;
      live = made.live;
      ends = made.ends;
    } in
    let (run, l) =
      add_to_head_lem c0 p xs w off (λ q. omega (arith, h.room, q)) (λ q. omega (arith, h.room, q))
        (ground arith) in
    let same : contents c0.key c0.value xs ≡ contents c.key c.value xs =
      contents-update_key c.key c0.value p k xs off
      ∙ contents-update_value c.key c.value p v xs off in
    let none_k : find (contents c.key c.value xs) k ≡ none =
      find-contents c.key c.value k xs ∙ rw (sym (h.found k) ∙ e) refl in
    let key_p : c0.key p ≡ k = ground arith in
    let value_p : c0.value p ≡ v = ground arith in
    (
      record {
        linked = record { plain = l.plain; chain = l.chain; live = l.live; ends = l.ends };
        room = omega (arith, h.room);
        below = (omega arith, below_suc p xs h.below);
        found = λ j.
            find-assign c.cache k j p
            ∙ ground (arith, h.found j, key_p, spot-update_key c.key p k j xs off);
        distinct = (rw (same, key_p) none_k, rw same h.distinct);
        counted = ground (arith, h.counted);
      },
      rw (key_p, value_p, same) refl,
      run,
    )
