-- ===== src/Lib.antt =====
-- lightdb: a key-value database whose data structures live in memory, whose writes are logged as
-- entries of data files, and whose servers agree on the commands by a variant of Raft.
--
-- The program's parts and the files that model them:
--
-- - ds/hash/ds_hash.h, the class `Hash`: Ds/Hash.antt. One function per method; `record` is an
--   association list from keys to fields (Common/Map.antt). Ds/Hash/ holds the proofs.
-- - ds/list/ds_list.h, the class `List`: Ds/Lists.antt, with Ds/Lists/.
-- - ds/set/ds_set.h, the class `Set`: Ds/Sets.antt, with Ds/Sets/.
-- - ds/str/ds_strlist.h, the class `StrSkiplist`, and storage/indexer.h: Ds/Strings.antt and
--   Storage/Indexer.antt, with Ds/Strings/. The nodes stand in the order of the bottom level.
-- - cache/lru.h, the class `LRUCache`: Cache.antt, over a heap of nodes, with Cache/.
-- - util/coding.h and util/crc.h: Storage/Coding.antt and Storage/Crc.antt.
-- - storage/entry.h and include/types.h, the entry and its bytes: Storage/Entry.antt.
-- - include/status.h: Storage/Status.antt for the codes, Storage/Message.antt for the messages.
-- - storage/db_file.h and storage/db_file.cpp, `Read`, `ReadBuf` and `Write` of `DBFile`:
--   Storage/File.antt, over the codec of the entry.
-- - raft/raft.h and raft/raftDataStructures.h, one server: Raft/State.antt (state, log, messages),
--   Raft/Access.antt (shared variables), Raft/Start.antt (constructor and file), Raft/Vote.antt
--   (elections), Raft/Append.antt (a follower's `AppendEntries`), Raft/Commit.antt (a leader's
--   replies, `CheckCommit`, `AddLog`), Raft/Lead.antt (roles, broadcast, `RunServer`).
-- - lightdb.h and lightdb.cpp, the class `LightDB` as far as lists, hashes and sets use it:
--   Engine/State.antt (state, checks of keys, `store`, `CheckExpired`). db_hash.cpp, db_set.cpp and
--   db_list.cpp, one function per operation: Engine/Hashes.antt, Engine/Sets.antt,
--   Engine/Lists.antt. An operation tests its arguments, drops an expired key, changes the index of
--   its type and stores an entry in the active file of that type.
-- - db_str.cpp, the string operations, with `buildStringIndex` of idx.cpp: Engine/Strings/Steps.antt
--   (state, checks, index and cache), Engine/Strings/Access.antt and Engine/Strings/Updates.antt. They
--   act on the state of Engine/State.antt with the skip list, the cache and the index mode beside it.
--   Engine/Strings/Text/ compares them with a map from keys to values.
-- - idx.cpp, the reading of the files when a database is opened: Engine/Index.antt, with
--   `buildListIndex` in Engine/Index/Lists.antt. dump.cpp: Engine/Dump.antt.
--   Engine/Journal/ relates an index to the entries in the files of its type: a record `Part`
--   describes an index, and the proofs about `store`, expiry and recovery are shared.
-- - server/cmd/cmd_hash.cpp, cmd_set.cpp, cmd_list.cpp and cmd_str.cpp there, the commands of the
--   server: Server/Hashes.antt, Server/Sets.antt, Server/Lists.antt and Server/Strings.antt, with
--   Server/Reply.antt for what they share. The JSON of a reply and the text of an error are
--   parameters.
-- - sync/SafeQueue.h: Sync.antt. util/str.h, `splitStrBySpace` and `splitWithStl`:
--   Util.antt, with `stringToInt` in Util/Numbers.antt.
--
-- A method that changes its object takes the old state and returns the new one beside its result.
-- An `Option` result that is `none` stands for undefined behaviour (an access outside a container,
-- an iterator that was erased), or for a string that a method leaves unwritten. It also ends the
-- string operations that delete the tail of their index: they return, but what the index is from
-- then on is not followed. Strings are lists of bytes. The kernel is a list of outcomes, one for
-- each call. A method is one step, and what other threads do lies between the steps. For the queue
-- a mutex makes it so; the handlers of the raft server lock only where they read or write one
-- variable, so for them it is a simplification. `int` is unbounded here, since the program's values
-- stay far from its limits, but a number that is read from a text must be one; words of fixed width
-- that are encoded or shifted keep their wrap-around. The JSON text of the raft server's file is
-- taken to be read back as it was printed. The system clock is a sequence of readings. Nearly all
-- loops are structural recursions; where the source counts an index, the number of rounds is
-- computed from the bounds of the loop. The loop over the entries of one file has a fuel of the
-- block size and one: an entry takes at least a byte, and the loop ends behind the first block.
-- `to_string` has a fuel of the number and one.
--
-- Not modelled: the sorted sets (ds/zset) with their operations (db_zset.cpp), the iterator of the
-- string store, the scan of the directory in `Open`, the merge and the renaming of dumped files, the
-- loop over the files of lists and strings, the servers, the clients, the commands on
-- sorted sets, the reading of the configuration, timers, RPC, and the JSON text of the
-- messages and of the persistent state.
pub mod Common
pub mod Ds
pub mod Cache
pub mod Storage
pub mod Raft
pub mod Engine
pub mod Server
pub mod Sync
pub mod Util
pub mod Tests
