-- ===== src/Engine/Hashes/Recovery.antt =====
-- db_hash.cpp with idx.cpp: a database that is opened on the files of another one.
use lightdb.Storage.Entry.{hash, hash_h_expire, Entry, get_mark, mark_code}
use lightdb.Storage.File.{Outcome}
use lightdb.Storage.File.ReadBack.{read_back}
use lightdb.Storage.File.Transfer.{Succeeds}
use lightdb.Storage.File.Entries.{All, Within}
use lightdb.Ds.Hash.{Hash}
use lightdb.Engine.State.{LightDb, current_time_stamp}
use lightdb.Engine.Index.{build_hash_index, load_expiry, load_hashes, reopened}
use lightdb.Engine.Index.Indexed.{Same}
use lightdb.Engine.Index.Replay.{Opens}
use lightdb.Engine.Hashes.Journal.{apply_entry, hash_part, HashJournaled}
use lightdb.Engine.Journal.Recovery.{Rebuilds, indexed, entries_of, reopened-Journaled}
use lightdb.Common.{ℕ, ◌≤◌, ◌==◌, ltb, false, List, ◌≡◌, refl, arith, inl, inr, Bool-cases}

-- An expiry entry whose deadline is not over at any reading of the clock.
abbrev pub Alive : (ℕ → ℕ) → Entry → Type 0
Alive clock e = get_mark e ≡ mark_code hash_h_expire → (n : ℕ) → clock n ≤ e.time_stamp

-- The build of the index took the entry to be what it does to the index.
abbrev Built : Entry → LightDb → LightDb → Hash → Type 0
Built e d d' h = Same d d' × (d'.hash_idx ≡ h)

kept : {d : LightDb} → Same d d
kept = record { config = refl; clock = refl; outcomes = refl }

load_expiry-Alive :
    (e : Entry) (d : LightDb)
    → d.clock d.ticks ≤ e.time_stamp
    → Built e d (load_expiry hash e d) d.hash_idx
unfolding load_expiry current_time_stamp
load_expiry-Alive e d h =
    let later : ltb e.time_stamp (d.clock d.ticks) ≡ false = ground (arith, h) in
    rw later (record { config = refl; clock = refl; outcomes = refl }, refl)

pub build_hash_index-Built :
    (e : Entry) (d : LightDb)
    → Alive d.clock e
    → Built e d (build_hash_index e d) (apply_entry d.hash_idx e)
unfolding build_hash_index apply_entry
build_hash_index-Built e d alive = elim (Bool-cases (get_mark e == 14)) [
  | inl set ↦ rw set (record { config = refl; clock = refl; outcomes = refl }, refl)
  | inr n14 ↦ elim (Bool-cases (get_mark e == 15)) [
    | inl del ↦ rw (n14, del) (record { config = refl; clock = refl; outcomes = refl }, refl)
    | inr n15 ↦ elim (Bool-cases (get_mark e == 16)) [
      | inl clear ↦
          rw (n14, n15, clear) (record { config = refl; clock = refl; outcomes = refl }, refl)
      | inr n16 ↦ elim (Bool-cases (get_mark e == 17)) [
        | inl expire ↦
            rw (n14, n15, n16, expire)
              (load_expiry-Alive e d (alive (ground (arith, expire)) d.ticks))
        | inr n17 ↦
            rw (n14, n15, n16, n17) (record { config = refl; clock = refl; outcomes = refl }, refl)
      ]
    ]
  ]
]

pub apply_entry-read_back : (h : Hash) (e : Entry) → apply_entry h (read_back e) ≡ apply_entry h e
unfolding apply_entry get_mark
apply_entry-read_back h e = refl

pub Alive-read_back : (clock : ℕ → ℕ) (e : Entry) → Alive clock e → Alive clock (read_back e)
unfolding get_mark
Alive-read_back clock e h = h

abbrev pub hash_rebuilds : Rebuilds hash_part
hash_rebuilds = record {
  build = build_hash_index;
  Alive = Alive;
  build_lem = build_hash_index-Built;
  apply-read_back = apply_entry-read_back;
  Alive-read_back = Alive-read_back;
  idx-outcomes = λ d os. refl;
  idx-reopened = λ d clock os. refl;
}

-- A database whose hash index is the replay of the entries in its hash files: loadIdxFromFiles on
-- these files, on a kernel that may split or interrupt calls but not fail them, ends well and
-- gives the same hash index, if every entry begins less than a block into its file and no deadline
-- that was stored is over.
pub reopened-HashJournaled :
    (d : LightDb) (clock : ℕ → ℕ) (outcomes : List Outcome) (j : HashJournaled d)
    → All (Within d.config.block_size 0) (entries_of hash_part hash_rebuilds j)
    → All (Alive clock) j.log
    → Succeeds outcomes
    → Opens
        (indexed hash_part hash_rebuilds)
        d.config
        clock
        (load_hashes (reopened d clock outcomes))
        d.hash_idx
unfolding load_hashes
reopened-HashJournaled d clock outcomes j w a s =
    reopened-Journaled hash_part hash_rebuilds d clock outcomes j w a s
