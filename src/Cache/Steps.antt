-- ===== src/Cache/Steps.antt =====
-- cache/lru.h: the nodes of the cache in order, and what `moveToHead` and `removeTail` do to them.
use lightdb.Common.{ℕ, Bool, true, List, [], ◌∷◌, ◌++◌, some, ◌≡◌, ◌≢◌, sym, ap, ◌∙◌, arith}
use mathlib.Core.Path.{subst}
use lightdb.Cache.{
  LruCache, head, tail, update, ◌>>=◌, set_next, set_prev, remove_node, add_to_head, move_to_head,
  remove_tail,
}
use lightdb.Cache.Chain.{
  Chain, Off, IsNoDup, IsPlain, last_of, first_of, Chain-last, Chain-first, Chain-append,
  Chain-remove, Chain-add, Off-append,
}

abbrev pub AllLive : (ℕ → Bool) → List ℕ → Type 0
AllLive live [] = Unit
AllLive live (x ∷ xs) = (live x ≡ true) × AllLive live xs

-- The nodes between the head and the tail.
pub record Linked (c : LruCache) (xs : List ℕ) : Type 0 where
  pub plain : IsPlain head tail xs
  pub chain : Chain c.next c.prev head xs tail
  pub live : AllLive c.live xs
  pub ends : (c.live head ≡ true) × (c.live tail ≡ true)

last-live :
    (live : ℕ → Bool) (a : ℕ) (xs ys : List ℕ)
    → live a ≡ true
    → AllLive live (xs ++ ys)
    → live (last_of a xs) ≡ true
last-live live a [] ys h w = h
last-live live a (x ∷ xs) ys h w = last-live live x xs ys w.0 w.1

split-live :
    (live : ℕ → Bool) (p : ℕ) (xs ys : List ℕ)
    → AllLive live (xs ++ p ∷ ys)
    → (live p ≡ true) × AllLive live ys
split-live live p [] ys w = w
split-live live p (x ∷ xs) ys w = split-live live p xs ys w.1

first-live :
    (live : ℕ → Bool) (b : ℕ) (ys : List ℕ)
    → live b ≡ true
    → AllLive live ys
    → live (first_of ys b) ≡ true
first-live live b [] h w = h
first-live live b (y ∷ ys) h w = w.0

join-live :
    (live : ℕ → Bool) (p : ℕ) (xs ys : List ℕ)
    → AllLive live (xs ++ p ∷ ys)
    → AllLive live (xs ++ ys)
join-live live p [] ys w = w.1
join-live live p (x ∷ xs) ys w = (w.0, join-live live p xs ys w.1)

Off-join : (q p : ℕ) (xs ys : List ℕ) → Off q (xs ++ p ∷ ys) → Off q (xs ++ ys)
Off-join q p [] ys w = w.1
Off-join q p (x ∷ xs) ys w = (w.0, Off-join q p xs ys w.1)

pub NoDup-join :
    (p : ℕ) (xs ys : List ℕ) → IsNoDup (xs ++ p ∷ ys) → IsNoDup (xs ++ ys) × Off p (xs ++ ys)
NoDup-join p [] ys d = (d.1, d.0)
NoDup-join p (x ∷ xs) ys d =
    let (l, o) = NoDup-join p xs ys d.1 in
    let (_, n, _) = Off-append x p xs ys d.0 in ((Off-join x p xs ys d.0, l), ((λ e. n (sym e)), o))

IsPlain-join : (a b p : ℕ) (xs ys : List ℕ) → IsPlain a b (xs ++ p ∷ ys) → IsPlain a b (xs ++ ys)
IsPlain-join a b p xs ys d = record {
  distinct = (NoDup-join p xs ys d.distinct).0;
  start = Off-join a p xs ys d.start;
  stop = Off-join b p xs ys d.stop;
  apart = d.apart;
}

-- The cache with a node taken out of its chain.
abbrev pub unlinked : LruCache → ℕ → LruCache
unlinked c p = record c {
  next = update c.next (c.prev p) (c.next p);
  prev = update c.prev (c.next p) (c.prev p);
}

pub remove_node_lem :
    (c : LruCache) (p : ℕ) (xs ys : List ℕ)
    → Linked c (xs ++ p ∷ ys)
    → (remove_node p c ≡ some (unlinked c p)) × Linked (unlinked c p) (xs ++ ys)
unfolding remove_node set_next set_prev
remove_node_lem c p xs ys k =
    let (l, r) = Chain-append c.next c.prev head tail p xs ys k.chain in
    let before = Chain-last c.next c.prev head p xs l in
    let after = Chain-first c.next c.prev p tail ys r in
    let (live, rest) = split-live c.live p xs ys k.live in
    let live_before = last-live c.live head xs (p ∷ ys) k.ends.0 k.live in
    let live_after = first-live c.live tail ys k.ends.1 rest in
    (
      ground (arith, before, after, live, live_before, live_after),
      record {
        plain = IsPlain-join head tail p xs ys k.plain;
        chain = rw (before, after) (Chain-remove c.next c.prev head tail p xs ys k.plain k.chain);
        live = join-live c.live p xs ys k.live;
        ends = k.ends;
      },
    )

-- A live node outside the chain becomes its first.
abbrev pub headed : LruCache → ℕ → LruCache
headed c p = record c {
  next = update (update c.next p (c.next head)) head p;
  prev = update (update c.prev p head) (c.next head) p;
}

pub add_to_head_lem :
    (c : LruCache) (p : ℕ) (xs : List ℕ)
    → Linked c xs
    → Off p xs
    → p ≢ head
    → p ≢ tail
    → c.live p ≡ true
    → (add_to_head p c ≡ some (headed c p)) × Linked (headed c p) (p ∷ xs)
unfolding add_to_head set_next set_prev
add_to_head_lem c p xs k o nh nt live =
    let after = Chain-first c.next c.prev head tail xs k.chain in
    let live_after = first-live c.live tail xs k.ends.1 k.live in
    let made = Chain-add c.next c.prev head tail p xs k.plain o nh nt k.chain in
    (
      ground (arith, after, live, live_after, k.ends.0, nh),
      record {
        plain = record {
          distinct = (o, k.plain.distinct);
          start = ((λ e. nh (sym e)), k.plain.start);
          stop = ((λ e. nt (sym e)), k.plain.stop);
          apart = k.plain.apart;
        };
        chain =
            subst
              (λ q.
                Chain (update (update c.next p q) head p) (update (update c.prev p head) q p) head
                  (p ∷ xs) tail)
              (sym after) made;
        live = (live, k.live);
        ends = k.ends;
      },
    )

pub move_to_head_lem :
    (c : LruCache) (p : ℕ) (xs ys : List ℕ)
    → Linked c (xs ++ p ∷ ys)
    → (move_to_head p c ≡ some (headed (unlinked c p) p))
      × Linked (headed (unlinked c p) p) (p ∷ xs ++ ys)
unfolding move_to_head
move_to_head_lem c p xs ys k =
    let (e, k1) = remove_node_lem c p xs ys k in
    let (_, nh, _) = Off-append head p xs ys k.plain.start in
    let (_, nt, _) = Off-append tail p xs ys k.plain.stop in
    let off = (NoDup-join p xs ys k.plain.distinct).1 in
    let live = (split-live c.live p xs ys k.live).0 in
    let (f, k2) =
      add_to_head_lem (unlinked c p) p (xs ++ ys) k1 off (λ q. nh (sym q)) (λ q. nt (sym q)) live in
    (rw (◌>>=◌, e) f, k2)

pub remove_tail_lem :
    (c : LruCache) (p : ℕ) (xs : List ℕ)
    → Linked c (xs ++ p ∷ [])
    → (remove_tail c ≡ some (p, unlinked c p)) × Linked (unlinked c p) (xs ++ [])
unfolding remove_tail
remove_tail_lem c p xs k =
    let (e, k1) = remove_node_lem c p xs [] k in
    let (l, r) = Chain-append c.next c.prev head tail p xs [] k.chain in
    let e1 = ap (λ q. remove_node q c) r.1 ∙ e in
    (rw (◌>>=◌, e1) (ap (λ q. some (q, unlinked c p)) r.1), k1)
