-- ===== src/Engine/Sets/Runs.antt =====
-- db_set.cpp and idx.cpp: sequences of set operations, and a database that is opened on their files.
use lightdb.Storage.Entry.{set}
use lightdb.Storage.Status.{ok}
use lightdb.Storage.File.{Outcome}
use lightdb.Storage.File.Transfer.{Succeeds}
use lightdb.Storage.File.Entries.{All, Within}
use lightdb.Engine.State.{LightDb, check_key_value, check_expired}
use lightdb.Engine.Index.{load_sets, reopened}
use lightdb.Engine.Index.Replay.{Opens}
use lightdb.Engine.Sets.{
  db_s_add, db_s_is_member, db_s_rem, db_s_move, db_s_card, db_s_members, valid_keys,
  keys_not_expired, db_s_union, db_s_key_exist, db_s_clear, db_s_expire, db_s_ttl,
}
use lightdb.Engine.Sets.Journal.{set_part, SetJournaled, set_rebuilds, Alive}
use lightdb.Engine.Sets.Commands.{
  db_s_add-Journaled, db_s_is_member-Journaled, db_s_rem-Journaled, db_s_move-Journaled,
  db_s_card-Journaled, db_s_members-Journaled, db_s_key_exist-Journaled, db_s_clear-Journaled,
  db_s_expire-Journaled, db_s_ttl-Journaled,
}
use lightdb.Engine.Journal.Part.{IsKey, check_expired-Journaled, passed, either}
use lightdb.Engine.Journal.Recovery.{indexed, entries_of, reopened-Journaled}
use lightdb.Common.{ℕ, Str, List, [], ◌∷◌, inl, inr, Bool-cases}

valid_keys-IsKey :
    (d : LightDb) (keys : List Str) → SetJournaled d → All IsKey (valid_keys d.config keys)
unfolding valid_keys
valid_keys-IsKey d [] j = tt
valid_keys-IsKey d (key ∷ keys) j = elim (Bool-cases (ok (check_key_value d.config key []))) [
  | inl good ↦ rw good ((passed set_part d key [] j good).0, valid_keys-IsKey d keys j)
  | inr bad ↦ rw bad (valid_keys-IsKey d keys j)
]

keys_not_expired-Journaled :
    (keys : List Str) (d : LightDb)
    → SetJournaled d
    → All IsKey keys
    → SetJournaled (keys_not_expired keys d).1
unfolding keys_not_expired
keys_not_expired-Journaled [] d j k = j
keys_not_expired-Journaled (key ∷ keys) d j (k, ks) =
    let c = check_expired-Journaled set_part d key j k in
    let rest = keys_not_expired-Journaled keys (check_expired key set d).1 c ks in
    either set_part _ _ _ (λ over. rest) (λ left. rest)

db_s_union-Journaled :
    (keys vals : List Str) (d : LightDb) → SetJournaled d → SetJournaled (db_s_union keys vals d).1
unfolding db_s_union
db_s_union-Journaled keys vals d j =
    keys_not_expired-Journaled (valid_keys d.config keys) d j (valid_keys-IsKey d keys j)

-- The operations of `LightDB` on sets, but `SPop` and `SDiff`.
pub data SetOp : Type 0 where
  add : Str → Str → SetOp
  is_member : Str → Str → SetOp
  rem : Str → Str → SetOp
  move : Str → Str → Str → SetOp
  card : Str → SetOp
  get_members : Str → List Str → SetOp
  union : List Str → List Str → SetOp
  key_exist : Str → SetOp
  clear : Str → SetOp
  expire : Str → ℕ → SetOp
  ttl : Str → SetOp

-- The state that a call leaves.
unfoldable pub perform : SetOp → LightDb → LightDb
unfolding db_s_add db_s_is_member db_s_rem db_s_move db_s_card db_s_members db_s_union
    db_s_key_exist db_s_clear db_s_expire db_s_ttl
perform (add key member) d = (db_s_add key member d).1
perform (is_member key member) d = (db_s_is_member key member d).1
perform (rem key member) d = (db_s_rem key member d).1
perform (move src dst member) d = (db_s_move src dst member d).1
perform (card key) d = (db_s_card key d).1
perform (get_members key ms) d = (db_s_members key ms d).1
perform (union keys vals) d = (db_s_union keys vals d).1
perform (key_exist key) d = (db_s_key_exist key d).1
perform (clear key) d = (db_s_clear key d).1
perform (expire key duration) d = (db_s_expire key duration d).1
perform (ttl key) d = (db_s_ttl key d).1

unfoldable pub perform_all : List SetOp → LightDb → LightDb
unfolding perform
perform_all [] d = d
perform_all (op ∷ ops) d = perform_all ops (perform op d)

perform-Journaled : (op : SetOp) (d : LightDb) → SetJournaled d → SetJournaled (perform op d)
unfolding perform
perform-Journaled (add key member) d j = db_s_add-Journaled key member d j
perform-Journaled (is_member key member) d j = db_s_is_member-Journaled key member d j
perform-Journaled (rem key member) d j = db_s_rem-Journaled key member d j
perform-Journaled (move src dst member) d j = db_s_move-Journaled src dst member d j
perform-Journaled (card key) d j = db_s_card-Journaled key d j
perform-Journaled (get_members key ms) d j = db_s_members-Journaled key ms d j
perform-Journaled (union keys vals) d j = db_s_union-Journaled keys vals d j
perform-Journaled (key_exist key) d j = db_s_key_exist-Journaled key d j
perform-Journaled (clear key) d j = db_s_clear-Journaled key d j
perform-Journaled (expire key duration) d j = db_s_expire-Journaled key duration d j
perform-Journaled (ttl key) d j = db_s_ttl-Journaled key d j

-- On a kernel that fails no call, with limits of keys and values below a gigabyte and a clock
-- below 2^64, any sequence of the set operations of LightDB other than SPop and SDiff keeps the
-- set index equal to the replay of the entries in the set files.
pub perform_all-SetJournaled :
    (ops : List SetOp) (d : LightDb) → SetJournaled d → SetJournaled (perform_all ops d)
unfolding perform_all
perform_all-SetJournaled [] d j = j
perform_all-SetJournaled (op ∷ ops) d j =
    perform_all-SetJournaled ops (perform op d) (perform-Journaled op d j)

-- A database whose set index is the replay of the entries in its set files: loadIdxFromFiles on
-- these files, on a kernel that may split or interrupt calls but not fail them, ends well and
-- gives the same set index, if every entry begins less than a block into its file and no deadline
-- that was stored is over.
pub reopened-SetJournaled :
    (d : LightDb) (clock : ℕ → ℕ) (outcomes : List Outcome) (j : SetJournaled d)
    → All (Within d.config.block_size 0) (entries_of set_part set_rebuilds j)
    → All (Alive clock) j.log
    → Succeeds outcomes
    → Opens
        (indexed set_part set_rebuilds)
        d.config
        clock
        (load_sets (reopened d clock outcomes))
        d.set_idx
unfolding load_sets
reopened-SetJournaled d clock outcomes j w a s =
    reopened-Journaled set_part set_rebuilds d clock outcomes j w a s
