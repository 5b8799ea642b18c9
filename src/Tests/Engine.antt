-- ===== src/Tests/Engine.antt =====
-- Runs of the engine and of a command on a database with two entries in its hash file and two in its set file.
use lightdb.Common.Map.{find, insert, assign, IsDistinct}
use lightdb.Common.{
  none, length-append, ℕ, ◌≤◌, Str, str_eq, codes, length, true, List, [], ◌∷◌, ◌++◌, ◌≡◌, refl, ap,
  ◌∙◌, sym, arith,
}
use lightdb.Engine.Hashes.{db_h_del}
use lightdb.Engine.Hashes.Deletion.{db_h_del-nothing}
use lightdb.Engine.Journal.Boundary.{boundary_entry_lost}
use lightdb.Storage.Entry.RoundTrip.{length-encode}
use lightdb.Storage.Status.{Code}
use lightdb.Server.Hashes.{h_del_command}
use lightdb.Server.Hashes.Deletion.{h_del_command-none}
use lightdb.Storage.Entry.{
  encode, hash, set, hash_h_set, set_s_add, set_s_expire, Entry, new_entry_now,
  new_entry_with_expire, get_mark, size,
}
use lightdb.Storage.Entry.RoundTrip.{get_type-new_entry_now}
use lightdb.Storage.File.{DbFile}
use lightdb.Storage.Status.{k_ok}
use lightdb.Storage.File.Entries.{encode_all, flatten}
use lightdb.Ds.Hash.{h_set}
use lightdb.Ds.Sets.{s_add}
use lightdb.Engine.State.{LightDb, new_file, store, check_expired, current_time_stamp, deadline_of}
use lightdb.Engine.Store.{Stored, store-Stored}
use lightdb.Engine.Logged.{Logged}
use lightdb.Engine.Index.{files_of, build_hash_index, load_files, load_hashes, load_sets, reopened}
use lightdb.Engine.Index.Indexed.{replay}
use lightdb.Engine.Index.Files.{load_files-replay}
use lightdb.Engine.Index.Replay.{Opens}
use lightdb.Engine.Journal.{Good, new_entry_now-Good, new_entry_with_expire-Good}
use lightdb.Engine.Journal.Recovery.{indexed}
use lightdb.Engine.Hashes.Journal.{HashJournaled, hash_part, apply_entry, apply_entry-now}
use lightdb.Engine.Hashes.Reads.{HashOp, Leaves, perform_all, perform_all-HashJournaled}
use lightdb.Engine.Sets.{db_s_mark}
use lightdb.Engine.Sets.Journal
use lightdb.Engine.Sets.Runs
use lightdb.Engine.Sets.Journal.{SetJournaled, set_part, set_rebuilds}
use lightdb.Engine.Sets.Runs.{SetOp, perform_all-SetJournaled, reopened-SetJournaled}
use lightdb.Engine.Sets.Expiry.{db_s_mark-expired}
use lightdb.Engine.Dump.{Dumper, dump_hash}
use lightdb.Engine.Dump.Hashes.{Succeeded, Dumped, Dumpable, dump_hash-Dumped}
use lightdb.Engine.Hashes.Recovery.{hash_rebuilds, reopened-HashJournaled}

abbrev k : Str
k = codes "user"

abbrev f : Str
f = codes "name"

abbrev g : Str
g = codes "town"

abbrev v : Str
v = codes "ann"

abbrev w : Str
w = codes "oslo"

abbrev now : ℕ → ℕ
now n = 7

abbrev first : Entry
first = new_entry_now 5 k v f hash hash_h_set

abbrev second : Entry
second = new_entry_now 6 k w g hash hash_h_set

abbrev two : List Entry
two = first ∷ second ∷ []

abbrev file : List Entry → DbFile
file es = record {
  id = 0;
  bytes = encode_all es;
  offset = 0;
  write_offset = length (encode_all es);
}

abbrev db : LightDb
db = record {
  config = record { max_key_size = 100; max_value_size = 100; block_size = 1000 };
  hash_idx = (h_set (h_set [] k f v).0 k g w).0;
  list_idx = [];
  set_idx = [];
  archived = λ t. [];
  active = λ t. file two;
  expires = λ t. [];
  clock = now;
  ticks = 0;
  outcomes = [];
}

first-Good : Good hash first
first-Good =
    new_entry_now-Good hash hash_h_set 5 k v f (omega arith) (omega arith) (omega arith)
      (omega arith) (omega arith)

second-Good : Good hash second
second-Good =
    new_entry_now-Good hash hash_h_set 6 k w g (omega arith) (omega arith) (omega arith)
      (omega arith) (omega arith)

abbrev held : Logged 1000 [] (file two) two
unfolding size new_entry_now
held = record {
  older = [];
  last = two;
  older_held = tt;
  last_held = (refl, refl);
  ids = tt;
  older_within = tt;
  last_within = (omega arith, (omega arith, tt));
  older_loadable = tt;
  last_loadable = (first-Good.loadable, (second-Good.loadable, tt));
  whole = refl;
}

replayed : db.hash_idx ≡ replay apply_entry [] two
unfolding replay new_entry_now
replayed = sym (
    ap (λ h. apply_entry h second) (apply_entry-now [] hash_h_set 5 k v f)
    ∙ apply_entry-now (h_set [] k f v).0 hash_h_set 6 k w g)

abbrev journal : HashJournaled db
journal = record {
  log = two;
  filed = record {
    logged = held;
    succeeds = tt;
    keys = omega arith;
    values = omega arith;
    times = λ n. omega arith;
  };
  index = replayed;
}

abbrev ops : List HashOp
ops =
    HashOp.set k f w
    ∷ HashOp.m_set k (f ∷ v ∷ g ∷ w ∷ [])
    ∷ HashOp.del k g
    ∷ HashOp.expire k 1
    ∷ HashOp.get k f
    ∷ HashOp.clear k
    ∷ []

perform_all-HashJournaled_example : Leaves (perform_all ops db)
perform_all-HashJournaled_example =
    perform_all-HashJournaled ops db journal
      (tt, (tt, (tt, (tt, (tt, ((omega arith, omega arith), tt))))))

alive_first : get_mark first ≡ 17 → (n : ℕ) → now n ≤ first.time_stamp
alive_first h n = absurd (omega (arith, h, (get_type-new_entry_now 5 k v f hash hash_h_set).1))

alive_second : get_mark second ≡ 17 → (n : ℕ) → now n ≤ second.time_stamp
alive_second h n = absurd (omega (arith, h, (get_type-new_entry_now 6 k w g hash hash_h_set).1))

reopened-HashJournaled_example :
    Opens
      (indexed hash_part hash_rebuilds)
      db.config
      now
      (load_hashes (reopened db now []))
      db.hash_idx
unfolding held size new_entry_now
reopened-HashJournaled_example =
    reopened-HashJournaled db now [] journal ((omega arith, (omega arith, tt)), tt)
      (alive_first, (alive_second, tt)) tt

load_files-replay_example :
    Opens
      (indexed hash_part hash_rebuilds)
      db.config
      now
      (load_files build_hash_index (file two ∷ []) (reopened db now []))
      (replay apply_entry [] (flatten (two ∷ [])))
unfolding size new_entry_now
load_files-replay_example =
    load_files-replay (indexed hash_part hash_rebuilds) db.config now (file two ∷ []) (two ∷ [])
      (reopened db now []) ((refl, refl), tt)
      ((first-Good.loadable, (second-Good.loadable, tt)), tt)
      ((alive_first, (alive_second, tt)), tt) ((omega arith, (omega arith, tt)), tt) refl refl tt

store-Stored_example : Stored hash (store first db) (two ++ first ∷ [])
store-Stored_example =
    store-Stored hash first db two first-Good.type first-Good.writable first-Good.loadable tt held

abbrev dumper : Dumper
dumper = record {
  block_size = 1000;
  files = [];
  last = new_file 0;
  clock = now;
  ticks = 0;
  outcomes = [];
}

empty_dump : Dumped dumper []
unfolding replay
empty_dump = record {
  log = [];
  logged = record {
    older = [];
    last = [];
    older_held = tt;
    last_held = (refl, refl);
    ids = tt;
    older_within = tt;
    last_within = tt;
    older_loadable = tt;
    last_loadable = tt;
    whole = refl;
  };
  succeeds = tt;
  times = λ n. omega arith;
  index = refl;
}

distinct : IsDistinct db.hash_idx
unfolding h_set find str_eq insert assign
distinct = (refl, tt)

dumpable : Dumpable db.hash_idx
unfolding h_set find str_eq insert assign
dumpable = (
  (omega arith, omega arith),
  (omega arith, omega arith, (omega arith, omega arith, tt)),
  (refl, (refl, tt)),
  omega arith,
  tt,
)

dump_hash-Dumped_example : Succeeded (dump_hash db.hash_idx dumper) db.hash_idx
dump_hash-Dumped_example = dump_hash-Dumped db.hash_idx dumper distinct dumpable empty_dump

abbrev added : Entry
added = new_entry_now 5 k v [] set set_s_add

abbrev sets : LightDb
sets = record db { set_idx = (s_add [] k v).0; active = λ t. file (added ∷ []) }

added-Good : Good set added
added-Good =
    new_entry_now-Good set set_s_add 5 k v [] (omega arith) (omega arith) (omega arith)
      (omega arith) (omega arith)

abbrev set_held : Logged 1000 [] (file (added ∷ [])) (added ∷ [])
unfolding size new_entry_now
set_held = record {
  older = [];
  last = added ∷ [];
  older_held = tt;
  last_held = (refl, refl);
  ids = tt;
  older_within = tt;
  last_within = (omega arith, tt);
  older_loadable = tt;
  last_loadable = (added-Good.loadable, tt);
  whole = refl;
}

set_replayed : sets.set_idx ≡ replay Journal.apply_entry [] (added ∷ [])
unfolding replay new_entry_now
set_replayed = sym (Journal.apply_entry-now [] set_s_add 5 k v [])

abbrev set_journal : SetJournaled sets
set_journal = record {
  log = added ∷ [];
  filed = record {
    logged = set_held;
    succeeds = tt;
    keys = omega arith;
    values = omega arith;
    times = λ n. omega arith;
  };
  index = set_replayed;
}

abbrev set_ops : List SetOp
set_ops = SetOp.add k w ∷ SetOp.move k f v ∷ SetOp.expire k 1 ∷ SetOp.rem k w ∷ []

perform_all-SetJournaled_example : SetJournaled (Runs.perform_all set_ops sets)
perform_all-SetJournaled_example = perform_all-SetJournaled set_ops sets set_journal

alive_added : get_mark added ≡ 22 → (n : ℕ) → now n ≤ added.time_stamp
alive_added h n = absurd (omega (arith, h, (get_type-new_entry_now 5 k v [] set set_s_add).1))

reopened-SetJournaled_example :
    Opens
      (indexed set_part set_rebuilds)
      sets.config
      now
      (load_sets (reopened sets now []))
      sets.set_idx
unfolding set_held size new_entry_now
reopened-SetJournaled_example =
    reopened-SetJournaled sets now [] set_journal ((omega arith, tt), tt) (alive_added, tt) tt

marked : (db_s_mark k 10 sets).0.1 ≡ true
unfolding db_s_mark current_time_stamp
marked =
    let d1 = record sets { ticks = 1 } in
    let e = new_entry_with_expire k [] (deadline_of 7 10) set set_s_expire in
    let good =
      new_entry_with_expire-Good set set_s_expire (deadline_of 7 10) k (omega arith) (omega arith)
        (omega arith) in
    let status : (store e d1).0 ≡ k_ok =
      (store-Stored set e d1 (added ∷ []) good.type good.writable good.loadable tt
        set_held).status in
    rw status refl

db_s_mark-expired_example : (check_expired k set (db_s_mark k 10 sets).1).0 ≡ true
unfolding find
db_s_mark-expired_example = db_s_mark-expired k 10 sets refl (λ n. omega arith) marked

db_h_del-nothing_example : (db_h_del k f db).0 ≡ (k_ok, 0)
db_h_del-nothing_example = db_h_del-nothing k f db

-- The two entries fill a block.
abbrev full : LightDb
full = record db { config = record { max_key_size = 100; max_value_size = 100; block_size = 91 } }

abbrev full_held : Logged 91 [] (file two) two
unfolding size new_entry_now
full_held = record {
  older = [];
  last = two;
  older_held = tt;
  last_held = (refl, refl);
  ids = tt;
  older_within = tt;
  last_within = (omega arith, (omega arith, tt));
  older_loadable = tt;
  last_loadable = (first-Good.loadable, (second-Good.loadable, tt));
  whole = refl;
}

abbrev full_journal : HashJournaled full
full_journal = record {
  log = two;
  filed = record {
    logged = full_held;
    succeeds = tt;
    keys = omega arith;
    values = omega arith;
    times = λ n. omega arith;
  };
  index = replayed;
}

full_lem : length (encode_all two) ≡ 91
unfolding size new_entry_now
full_lem = omega (
  arith,
  length-append {0} (encode first) (encode second ++ []),
  length-append {0} (encode second) [],
  length-encode first first-Good.loadable.fits,
  length-encode second second-Good.loadable.fits,
)

boundary_entry_lost_example :
    ((store first full).0 ≡ k_ok)
    × Opens
        (indexed hash_part hash_rebuilds)
        full.config
        now
        (load_files build_hash_index
          (files_of hash (store first full).1)
          (reopened (store first full).1 now []))
        full.hash_idx
unfolding full_held size new_entry_now
boundary_entry_lost_example =
    boundary_entry_lost hash_part hash_rebuilds full first now [] full_journal full_lem first-Good
      ((omega arith, (omega arith, tt)), tt) (alive_first, (alive_second, tt)) tt

-- A reply that is only its text.
abbrev bare : Code → Str → Str
bare c text = text

abbrev unexplained : Code → List Str → Str
unexplained c args = []

h_del_command-none_example : h_del_command bare unexplained (k ∷ f ∷ []) [] db ≡ none
h_del_command-none_example = h_del_command-none bare unexplained k f [] [] db
