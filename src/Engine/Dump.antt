-- ===== src/Engine/Dump.antt =====
-- dump.cpp, and `dumpStore` of lightdb.cpp: the indexes of lists, hashes and sets, written as entries
-- to fresh files. `dumpZSet`, which ends without a result, and the renaming of the files are not
-- modelled.
pub mod Appended
pub mod Hashes
use lightdb.Common.Map.{Map}
use lightdb.Common.{ℕ, suc, ◌+◌, ltb, Str, List, [], ◌∷◌, ◌++◌, if◌then◌else◌}
use lightdb.Storage.Entry.{
  list, list_r_push, hash, hash_h_set, set, set_s_add, Entry, new_entry_now, new_entry_no_extra,
}
use lightdb.Storage.Status.{Code, k_ok, ok}
use lightdb.Storage.File.{DbFile, Outcome, write}
use lightdb.Ds.Hash.{Hash, bucket}
use lightdb.Ds.Lists.{Lists, items}
use lightdb.Ds.Sets.{Sets, members}
use lightdb.Engine.State.{new_file}

-- `mergeFiles`, the last one apart, with the block size, the clock and the kernel.
pub record Dumper : Type 0 where
  pub block_size : ℕ
  pub files : List DbFile
  pub last : DbFile
  pub clock : ℕ → ℕ
  pub ticks : ℕ
  pub outcomes : List Outcome

abbrev pub next_file : Dumper → Dumper
next_file d = record d { files = d.files ++ d.last ∷ []; last = new_file (d.last.id + 1) }

-- The file of the next entry.
unfoldable pub turn : Dumper → Dumper
turn d = if ltb d.block_size d.last.write_offset then next_file d else d

unfoldable pub dump_store : Entry → Dumper → Code × Dumper
unfolding turn write
dump_store e d =
    let d1 = turn d in
    let (status, io) = write (record { file = d1.last; outcomes = d1.outcomes }) e in
    (status, record d1 { last = io.file; outcomes = io.outcomes })

abbrev pub tick : Dumper → Dumper
tick d = record d { ticks = suc d.ticks }

-- The inner loops, over the values of one key.
unfoldable pub dump_items : Str → List Str → Dumper → Code × Dumper
unfolding dump_store new_entry_no_extra
dump_items key [] d = (k_ok, d)
dump_items key (value ∷ values) d =
    let e = new_entry_no_extra (d.clock d.ticks) key value list list_r_push in
    let (status, d1) = dump_store e (tick d) in
    let rest = dump_items key values d1 in if ok status then rest else (status, d1)

unfoldable pub dump_fields : Str → Map Str → Dumper → Code × Dumper
unfolding dump_store new_entry_now
dump_fields key [] d = (k_ok, d)
dump_fields key ((field, value) ∷ m) d =
    let e = new_entry_now (d.clock d.ticks) key value field hash hash_h_set in
    let (status, d1) = dump_store e (tick d) in
    let rest = dump_fields key m d1 in if ok status then rest else (status, d1)

unfoldable pub dump_members : Str → Map ℕ → Dumper → Code × Dumper
unfolding dump_store new_entry_no_extra
dump_members key [] d = (k_ok, d)
dump_members key ((member, v) ∷ m) d =
    let e = new_entry_no_extra (d.clock d.ticks) key member set set_s_add in
    let (status, d1) = dump_store e (tick d) in
    let rest = dump_members key m d1 in if ok status then rest else (status, d1)

-- The outer loops, over the keys; the values of a key are read from the whole index.
unfoldable pub dump_lists_loop : Lists → Lists → Dumper → Code × Dumper
unfolding dump_items
dump_lists_loop r [] d = (k_ok, d)
dump_lists_loop r ((key, v) ∷ s) d =
    let (status, d1) = dump_items key (items r key) d in
    let rest = dump_lists_loop r s d1 in if ok status then rest else (status, d1)

unfoldable pub dump_hash_loop : Hash → Hash → Dumper → Code × Dumper
unfolding dump_fields
dump_hash_loop h [] d = (k_ok, d)
dump_hash_loop h ((key, m) ∷ s) d =
    let (status, d1) = dump_fields key (bucket h key) d in
    let rest = dump_hash_loop h s d1 in if ok status then rest else (status, d1)

unfoldable pub dump_set_loop : Sets → Sets → Dumper → Code × Dumper
unfolding dump_members
dump_set_loop r [] d = (k_ok, d)
dump_set_loop r ((key, m) ∷ s) d =
    let (status, d1) = dump_members key (members r key) d in
    let rest = dump_set_loop r s d1 in if ok status then rest else (status, d1)

unfoldable pub dump_list : Lists → Dumper → Code × Dumper
unfolding dump_lists_loop
dump_list r d = dump_lists_loop r r d

unfoldable pub dump_hash : Hash → Dumper → Code × Dumper
unfolding dump_hash_loop
dump_hash h d = dump_hash_loop h h d

unfoldable pub dump_set : Sets → Dumper → Code × Dumper
unfolding dump_set_loop
dump_set r d = dump_set_loop r r d
