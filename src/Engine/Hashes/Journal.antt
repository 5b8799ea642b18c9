-- ===== src/Engine/Hashes/Journal.antt =====
-- db_hash.cpp and lightdb.cpp: every hash operation keeps the hash index equal to the replay of the
-- entries in the hash files.
use lightdb.Storage.Entry.{
  hash, OperationType, hash_h_set, hash_h_clear, Entry, get_mark, mark_code, new_entry_now,
}
use lightdb.Storage.Entry.RoundTrip.{get_type-new_entry_now}
use lightdb.Ds.Hash.{Hash, h_set, h_del, h_clear}
use lightdb.Engine.State.{LightDb, current_time_stamp, clear_index}
use lightdb.Engine.Hashes.{db_h_get, db_h_write, db_h_set, with_hash}
use lightdb.Common.{ℕ, suc, ◌^◌, ◌<◌, ◌==◌, Str, length, [], ◌≡◌, refl, sym, ap, if◌then◌else◌}
use lightdb.Engine.Journal.{new_entry_now-Good}
use lightdb.Engine.Journal.Part.{
  Part, Journaled, IsKey, commit, ticked, check_expired-Journaled, passed, either,
}

-- What an entry with a mark does to the index.
abbrev pub apply_mark : Hash → Entry → ℕ → Hash
apply_mark h e mark =
    if mark == 14
    then (h_set h e.key e.extra e.value).0
    else if mark == 15
    then (h_del h e.key e.extra).0
    else if mark == 16
    then (h_clear h e.key).0
    else h

unfoldable pub apply_entry : Hash → Entry → Hash
unfolding get_mark
apply_entry h e = apply_mark h e (get_mark e)

pub apply_entry-now :
    (h : Hash) (mark : OperationType) (now : ℕ) (key value extra : Str)
    → apply_entry h (new_entry_now now key value extra hash mark)
      ≡ apply_mark h (new_entry_now now key value extra hash mark) (mark_code mark)
unfolding apply_entry
apply_entry-now h mark now key value extra =
    ap (apply_mark h (new_entry_now now key value extra hash mark))
      (get_type-new_entry_now now key value extra hash mark).1

pub clear_index-apply :
    (now : ℕ) (key : Str) (d : LightDb)
    → clear_index hash key d
      ≡ with_hash d (apply_entry d.hash_idx (new_entry_now now key [] [] hash hash_h_clear))
unfolding clear_index new_entry_now
clear_index-apply now key d =
    ap (with_hash d) (sym (apply_entry-now d.hash_idx hash_h_clear now key [] []))

-- The hash index among the indexes of the database.
abbrev pub hash_part : Part Hash
hash_part = record {
  type = hash;
  start = [];
  idx = λ d. d.hash_idx;
  put = with_hash;
  apply = apply_entry;
  idx-put = λ d x. refl;
  idx-OnlyFiles = λ d d' o. o.hash_idx;
  idx-ticked = λ d n. refl;
  idx-dated = λ d m. refl;
  put-Filed = λ d x log f. record {
    logged = f.logged;
    succeeds = f.succeeds;
    keys = f.keys;
    values = f.values;
    times = f.times;
  };
  clear_index_lem = clear_index-apply;
}

-- The hash index of the database is what the entries in its hash files replay to.
abbrev pub HashJournaled : LightDb → Type 0
HashJournaled = Journaled hash_part

pub db_h_get-Journaled :
    (key field : Str) (d : LightDb) → HashJournaled d → HashJournaled (db_h_get key field d).1
unfolding db_h_get
db_h_get-Journaled key field d j =
    either hash_part _ _ _
      (λ good.
        let c = check_expired-Journaled hash_part d key j (passed hash_part d key field j good).0 in
        either hash_part _ _ _ (λ over. c) (λ left. c))
      (λ bad. j)

pub db_h_write-Journaled :
    (key field value : Str) (d : LightDb)
    → HashJournaled d
    → IsKey key
    → length field < 2 ^ 30
    → length value < 2 ^ 30
    → HashJournaled (db_h_write key field value d).1
unfolding db_h_write current_time_stamp
db_h_write-Journaled key field value d j k f v =
    let now = d.clock d.ticks in
    (commit hash_part (record d { ticks = suc d.ticks })
      (new_entry_now now key value field hash hash_h_set) (h_set d.hash_idx key field value).0
      (ticked hash_part d (suc d.ticks) j)
      (new_entry_now-Good hash hash_h_set now key value field (j.filed.times d.ticks) k.0 k.1 v f)
      (sym (apply_entry-now d.hash_idx hash_h_set now key value field))).1

pub db_h_set-Journaled :
    (key field value : Str) (d : LightDb)
    → HashJournaled d
    → HashJournaled (db_h_set key field value d).1
unfolding db_h_set
db_h_set-Journaled key field value d j =
    either hash_part _ _ _
      (λ good.
        either hash_part _ _ _
          (λ fits.
            let (k, f) = passed hash_part d key field j good in
            let g = db_h_get-Journaled key field d j in
            either hash_part _ _ _ (λ same. g)
              (λ new.
                db_h_write-Journaled key field value (db_h_get key field d).1 g k f
                  (passed hash_part d key value j fits).1))
          (λ bad. j))
      (λ bad. j)
