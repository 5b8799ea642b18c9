-- ===== src/Cache.antt =====
-- cache/lru.h: `LRUCache`, its nodes in a heap of one map for each field. `none` is what the code
-- leaves undefined: a null pointer, or one to a deleted node, is followed.
pub mod Chain
pub mod Steps
pub mod Contents
pub mod Gets
pub mod Puts
pub mod Evictions
pub mod Runs
use lightdb.Common.Map.{Map, find, has, assign, erase}
use lightdb.Common.{
  ℕ, suc, ◌+◌, ◌-◌, ◌==◌, ltb, Str, Bool, true, false, Option, none, some, [], if◌then◌else◌, ◌||◌,
}

-- `head` and `tail` are the nodes at 1 and 2, and 0 is the null pointer; `live` tells the nodes
-- that exist. `fresh` is what the next `new` returns.
pub record LruCache : Type 0 where
  pub cache : Map ℕ
  pub next : ℕ → ℕ
  pub prev : ℕ → ℕ
  pub key : ℕ → Str
  pub value : ℕ → Str
  pub live : ℕ → Bool
  pub fresh : ℕ
  pub size : ℕ
  pub capacity : ℕ

abbrev pub head : ℕ
head = 1

abbrev pub tail : ℕ
tail = 2

abbrev pub update {ℓ} : {A : Type ℓ} → (ℕ → A) → ℕ → A → ℕ → A
update f p a q = if q == p then a else f q

abbrev pub new_cache : ℕ → LruCache
new_cache capacity = record {
  cache = [];
  next = update (λ p. 0) head tail;
  prev = update (λ p. 0) tail head;
  key = λ p. [];
  value = λ p. [];
  live = λ p. p == head || p == tail;
  fresh = 3;
  size = 0;
  capacity = capacity;
}

infixl 5 ◌>>=◌
abbrev pub ◌>>=◌ {ℓ κ} : {A : Type ℓ} {B : Type κ} → Option A → (A → Option B) → Option B
m >>= f = elim m [ none ↦ none | some a ↦ f a ]

-- `p->next = q` and `p->prev = q`
unfoldable pub set_next : ℕ → ℕ → LruCache → Option LruCache
set_next p q c = if c.live p then some (record c { next = update c.next p q }) else none

unfoldable pub set_prev : ℕ → ℕ → LruCache → Option LruCache
set_prev p q c = if c.live p then some (record c { prev = update c.prev p q }) else none

unfoldable pub remove_node : ℕ → LruCache → Option LruCache
remove_node p c =
    if c.live p
    then (do c1 ← set_next (c.prev p) (c.next p) c; set_prev (c1.next p) (c1.prev p) c1)
    else none

unfoldable pub add_to_head : ℕ → LruCache → Option LruCache
add_to_head p c = do
  c1 ← set_prev p head c
  c2 ← set_next p (c1.next head) c1
  c3 ← set_prev (c2.next head) p c2
  set_next head p c3

unfoldable pub move_to_head : ℕ → LruCache → Option LruCache
move_to_head p c = do c1 ← remove_node p c; add_to_head p c1

unfoldable pub remove_tail : LruCache → Option (ℕ × LruCache)
remove_tail c = do c1 ← remove_node (c.prev tail) c; some (c.prev tail, c1)

-- The entry of the map and the size stay.
unfoldable pub remove : Str → LruCache → Option LruCache
remove key c = elim (find c.cache key) [ none ↦ some c | some p ↦ remove_node p c ]

unfoldable pub get : Str → LruCache → Option (Option Str × LruCache)
get key c = elim (find c.cache key) [
  | none ↦ some (none, c)
  | some p ↦ do c1 ← move_to_head p c; some (some (c1.value p), c1)
]

-- `new DLinkedNode(key, value)`
abbrev pub new_node : Str → Str → LruCache → LruCache
new_node key value c = record c {
  next = update c.next c.fresh 0;
  prev = update c.prev c.fresh 0;
  key = update c.key c.fresh key;
  value = update c.value c.fresh value;
  live = update c.live c.fresh true;
  fresh = suc c.fresh;
}

-- The last node goes, with its entry.
unfoldable pub evict : LruCache → Option LruCache
evict c = do
  (p, c1) ← remove_tail c
  some (record c1 {
    cache = erase c1.cache (c1.key p);
    live = update c1.live p false;
    size = c1.size - 1;
  })

unfoldable pub put_new : Str → Str → LruCache → Option LruCache
put_new key value c = do
  let c0 = new_node key value c
  c1 ← add_to_head c.fresh (record c0 { cache = assign c.cache key c.fresh })
  let c2 = record c1 { size = c1.size + 1 }
  if ltb c2.capacity c2.size then evict c2 else some c2

unfoldable pub put : Str → Str → LruCache → Option LruCache
put key value c = elim (find c.cache key) [
  | none ↦ put_new key value c
  | some p ↦ move_to_head p (record c { value = update c.value p value })
]
