-- ===== src/Tests/Strings.antt =====
-- Runs of the skip list of strings, of the cache and of the string operations.
use lightdb.Server.Strings.{set_command, get_command}
use lightdb.Server.Strings.Replies.{shown, set_command-get_command}
use lightdb.Common.{
  if◌then◌else◌, str_lt, ℕ, Str, codes, List, [], ◌∷◌, some, none, true, ◌≡◌, refl, arith, ◌%◌, ◌*◌,
  ap, str_eq, suc, false, ◌∙◌, length,
}
use lightdb.Common.Map.{find, has}
use lightdb.Storage.Entry.{string, string_set, new_entry_no_extra}
use lightdb.Storage.Status.{Code, k_ok, ok}
use lightdb.Storage.Indexer.{Indexer}
use lightdb.Ds.Strings
use lightdb.Ds.Strings.{StrSkiplist, new_skiplist}
use lightdb.Ds.Strings.Search.{IsSkiplist, beyond, find-beyond}
use lightdb.Ds.Strings.Put.{put-IsSkiplist}
use lightdb.Ds.Strings.Runs.{
  StrOp, put_op, erase_op, run_ops, map_ops, Reads, new-Reads, run_ops-map_ops,
}
use lightdb.Cache
use lightdb.Cache.{LruCache, new_cache}
use lightdb.Cache.Steps.{Linked}
use lightdb.Cache.Gets.{Caches, touched}
use lightdb.Cache.Puts.{stored_pair}
use lightdb.Cache.Evictions.{put-stored_pair}
use lightdb.Cache.Runs.{
  CacheOp, run_cache, run_pairs, run_cache-run_pairs, new_cache-Caches, remove_leaks,
}
use lightdb.Engine.State.{LightDb, new_file, store, current_time_stamp, check_key_value}
use lightdb.Engine.Strings.Steps.{StrDb, key_value_mem_mode, key_only_mem_mode}
use lightdb.Engine.Strings.Access.{db_str_set, db_str_set_nx, db_get}
use lightdb.Engine.Strings.Updates.{build_string_index}
use lightdb.Engine.Journal.{Filed}
use lightdb.Engine.Strings.Text.{store_text, IsText, text_of}
use lightdb.Engine.Strings.Text.Refinement.{
  TextOp, perform_texts, text_replies, perform_texts-text_replies,
}
use lightdb.Engine.Strings.Cached.{db_get-db_str_set_cached}
use lightdb.Engine.Strings.Defects.{expired_str_exist, deadline_returns}

abbrev k : Str
k = codes "user"

abbrev j : Str
j = codes "city"

abbrev v : Str
v = codes "ann"

abbrev w : Str
w = codes "oslo"

abbrev idx : Indexer
idx = record { key = k; value = v; file_id = 0; offset = 0 }

-- Numbers of which two in three raise a level.
abbrev rand : ℕ → ℕ
rand n = n % 3 * 10000

abbrev one_node : StrSkiplist
one_node = Strings.put new_skiplist k idx 2

abbrev two_nodes : StrSkiplist
two_nodes = Strings.put one_node j idx 3

one_node-IsSkiplist : IsSkiplist one_node
one_node-IsSkiplist =
    put-IsSkiplist new_skiplist k idx 2 new-Reads.whole (λ e. cc) (omega arith) (omega arith)

two_nodes-IsSkiplist : IsSkiplist two_nodes
two_nodes-IsSkiplist =
    put-IsSkiplist one_node j idx 3 one_node-IsSkiplist (λ e. cc) (omega arith) (omega arith)

find-beyond_example : Strings.find two_nodes j ≡ beyond j two_nodes.nodes
find-beyond_example = find-beyond two_nodes j two_nodes-IsSkiplist

abbrev changes : List StrOp
changes = put_op k idx ∷ put_op j idx ∷ erase_op k ∷ put_op j idx ∷ []

run_ops-map_ops_example :
    (s : StrSkiplist) × (run_ops rand changes new_skiplist 0 ≡ some s)
    × Reads s (map_ops changes [])
run_ops-map_ops_example =
    run_ops-map_ops rand changes new_skiplist [] 0 new-Reads
      ((λ e. cc), ((λ e. cc), ((λ e. cc), ((λ e. cc), tt))))

abbrev accesses : List CacheOp
accesses =
    CacheOp.put_op k v
    ∷ CacheOp.put_op j w
    ∷ CacheOp.get_op k
    ∷ CacheOp.put_op v w
    ∷ CacheOp.get_op j
    ∷ []

run_cache-run_pairs_example :
    (c : LruCache) × (run_cache accesses (new_cache 2) ≡ some ((run_pairs 2 accesses []).0, c))
    × (c.capacity ≡ 2)
    × Caches c (run_pairs 2 accesses []).1
run_cache-run_pairs_example = run_cache-run_pairs accesses (new_cache 2) [] (new_cache-Caches 2)

-- A cache of two places with one pair in it.
filled :
    (c : LruCache) × (Cache.put k v (new_cache 2) ≡ some c)
    × (c.capacity ≡ 2)
    × Caches c (stored_pair 2 k v [])
filled = put-stored_pair k v (new_cache 2) [] (new_cache-Caches 2)

remove_leaks_example :
    (c : LruCache) × (Cache.remove k filled.0 ≡ some c)
    × (has c.cache k ≡ true)
    × (c.size ≡ filled.0.size)
    × ((xs : List ℕ) × Linked c xs × (suc (length xs) ≡ c.size))
unfolding find str_eq
remove_leaks_example = remove_leaks k filled.0 (stored_pair 2 k v []) filled.3 refl

abbrev base : LightDb
base = record {
  config = record { max_key_size = 100; max_value_size = 100; block_size = 1000 };
  hash_idx = [];
  list_idx = [];
  set_idx = [];
  archived = λ t. [];
  active = λ t. new_file 0;
  expires = λ t. [];
  clock = λ n. 7;
  ticks = 0;
  outcomes = [];
}

abbrev strings : StrDb
strings = record {
  db = base;
  str_idx = new_skiplist;
  mode = key_value_mem_mode;
  cache = new_cache 2;
  rand = rand;
  drawn = 0;
}

empty_file : Filed string base []
empty_file = record {
  logged = record {
    older = [];
    last = [];
    older_held = tt;
    last_held = (refl, refl);
    ids = tt;
    older_within = tt;
    last_within = tt;
    older_loadable = tt;
    last_loadable = tt;
    whole = refl;
  };
  succeeds = tt;
  keys = omega arith;
  values = omega arith;
  times = λ n. omega arith;
}

strings-IsText : IsText strings []
unfolding find
strings-IsText = record {
  mode = refl;
  whole = new-Reads.whole;
  same = λ i h. ap text_of (new-Reads.same i h) ∙ refl;
  timeless = λ i. refl;
  log = [];
  filed = empty_file;
}

abbrev texts : List TextOp
texts =
    TextOp.set_op k v
    ∷ TextOp.append_op k w
    ∷ TextOp.set_nx_op k w
    ∷ TextOp.get_op k
    ∷ TextOp.get_set_op j w
    ∷ TextOp.remove_op k
    ∷ TextOp.get_op k
    ∷ []

perform_texts-text_replies_example :
    (s : StrDb) × (perform_texts texts strings ≡ some ((text_replies base.config texts []).0, s))
    × (s.db.config ≡ base.config)
    × IsText s (text_replies base.config texts []).1
perform_texts-text_replies_example = perform_texts-text_replies texts strings [] strings-IsText

-- Replies that leave out the code and the text of an error.
abbrev plain : Code → Str → Str
plain status text = text

abbrev silent : Code → List Str → Str
silent status args = []

set_command-get_command_example :
    (s : StrDb) × (set_command plain silent (k ∷ v ∷ []) [] strings ≡ some (codes "OK", s))
    × ((i begun : Str)
        → ok (check_key_value base.config i []) ≡ true
        → get_command plain silent (i ∷ []) begun s
          ≡ some (shown begun (if str_eq k i then some v else find [] i), s))
unfolding check_key_value
set_command-get_command_example =
    set_command-get_command plain silent k v [] strings [] strings-IsText refl

abbrev files_only : StrDb
files_only = record strings { mode = key_only_mem_mode }

-- The store of the string in the examples.
stored_well :
    (store (new_entry_no_extra 7 k v string string_set) (record base { ticks = 1 })).0 ≡ k_ok
unfolding check_key_value current_time_stamp
stored_well = (store_text base [] k v string_set empty_file refl).0

db_get-db_str_set_cached_example :
    (s1 : StrDb) × (s2 : StrDb) × (db_str_set k v files_only ≡ some (k_ok, s1))
    × (db_get k s1 ≡ some ((k_ok, some true, some v), s2))
    × (s2.db.outcomes ≡ s1.db.outcomes)
    × IsSkiplist s2.str_idx
    × Caches s2.cache (touched k (stored_pair 2 k v []))
unfolding check_key_value current_time_stamp
db_get-db_str_set_cached_example =
    db_get-db_str_set_cached k v files_only [] refl new-Reads.whole (new_cache-Caches 2)
      (omega arith) refl stored_well

deadline_returns_example :
    ((s1 : StrDb) × (db_str_set k v strings ≡ some (k_ok, s1))
      × (find (s1.db.expires string) k ≡ none))
    × ((file_id offset : ℕ) (r : StrDb)
        → (r1 : StrDb) × (build_string_index file_id offset
              (new_entry_no_extra 7 k v string string_set)
              r
            ≡ some (tt, r1))
          × (r1.db.expires ≡ r.db.expires))
unfolding check_key_value current_time_stamp
deadline_returns_example = deadline_returns k v strings refl refl stored_well

-- A database whose deadlines are over, with one string.
abbrev late : Str → StrDb
late key = record strings { db = record base { expires = λ t. (key, 3) ∷ [] }; str_idx = one_node }

expired_str_exist_example :
    (db_str_set_nx k w (late k) ≡ some ((k_ok, some false), late k))
    × ((s1 : StrDb) × (db_get k (late k) ≡ some ((k_ok, some false, none), s1))
        × (Strings.get s1.str_idx k ≡ none))
unfolding check_key_value find str_eq Strings.get Strings.find Strings.put Strings.walk
    Strings.descend str_lt
expired_str_exist_example =
    expired_str_exist k w idx (late k) one_node-IsSkiplist refl refl (refl, refl)
