-- ===== src/Engine/Hashes/Commands.antt =====
-- db_hash.cpp: the other operations keep the journal too, and so does every sequence of them.
use lightdb.Storage.Entry.{
  hash, hash_h_set, hash_h_del, hash_h_clear, hash_h_expire, new_entry_now, new_entry_no_extra,
  new_entry_with_expire,
}
use lightdb.Ds.Hash.{Hash, h_set, h_set_nx, h_del, h_clear}
use lightdb.Ds.Hash.View.{h_set_nx-h_set}
use lightdb.Engine.State.{LightDb, current_time_stamp, check_expired, deadline_of}
use lightdb.Engine.Hashes.{
  db_h_write_nx, db_h_set_nx, db_h_erase, db_h_del, db_h_drop, db_h_clear, db_h_key_exist,
  db_h_mark, db_h_expire, db_h_clear, db_h_drop, db_h_key_exist, new_entry_with_expire, db_h_mark,
  db_h_expire, new_entry_no_extra, deadline_of,
}
use lightdb.Engine.Hashes.Journal.{hash_part, HashJournaled, apply_entry, apply_entry-now}
use lightdb.Common.{ℕ, suc, ◌^◌, ◌<◌, Str, length, true, false, [], ◌≡◌, sym, ◌∙◌, arith, ℕ}
use lightdb.Engine.Journal.{new_entry_now-Good, new_entry_with_expire-Good}
use lightdb.Engine.Journal.Part.{
  IsKey, key_only-Good, commit, store_first, ticked, dated, unchanged, check_expired-Journaled,
  passed, either, stored_well,
}

h_set_nx-done :
    (h : Hash) (key field value : Str)
    → (h_set_nx h key field value).1 ≡ true
    → (h_set_nx h key field value).0 ≡ (h_set h key field value).0
h_set_nx-done h key field value e = ground (arith, h_set_nx-h_set h key field value, e)

h_set_nx-refused :
    (h : Hash) (key field value : Str)
    → (h_set_nx h key field value).1 ≡ false
    → (h_set_nx h key field value).0 ≡ h
h_set_nx-refused h key field value e = ground (arith, h_set_nx-h_set h key field value, e)

h_del-refused :
    (h : Hash) (key field : Str) → (h_del h key field).1 ≡ false → (h_del h key field).0 ≡ h
unfolding h_del
h_del-refused h key field e = ground (arith, e)

db_h_write_nx-Journaled :
    (key field value : Str) (d : LightDb)
    → HashJournaled d
    → IsKey key
    → length field < 2 ^ 30
    → length value < 2 ^ 30
    → HashJournaled (db_h_write_nx key field value d).1
unfolding db_h_write_nx current_time_stamp
db_h_write_nx-Journaled key field value d j k f v =
    let now = d.clock d.ticks in
    either hash_part _ _ _
      (λ done.
        (commit hash_part (record d { ticks = suc d.ticks })
          (new_entry_now now key value field hash hash_h_set)
          (h_set_nx d.hash_idx key field value).0 (ticked hash_part d (suc d.ticks) j)
          (new_entry_now-Good hash hash_h_set now key value field (j.filed.times d.ticks) k.0 k.1 v
            f)
          (h_set_nx-done d.hash_idx key field value done
            ∙ sym (apply_entry-now d.hash_idx hash_h_set now key value field))).1)
      (λ refused.
        unchanged hash_part d (h_set_nx d.hash_idx key field value).0 j
          (h_set_nx-refused d.hash_idx key field value refused))

pub db_h_set_nx-Journaled :
    (key field value : Str) (d : LightDb)
    → HashJournaled d
    → HashJournaled (db_h_set_nx key field value d).1
unfolding db_h_set_nx
db_h_set_nx-Journaled key field value d j =
    either hash_part _ _ _
      (λ good.
        either hash_part _ _ _
          (λ fits.
            let (k, f) = passed hash_part d key field j good in
            db_h_write_nx-Journaled key field value (check_expired key hash d).1
              (check_expired-Journaled hash_part d key j k) k f
              (passed hash_part d key value j fits).1)
          (λ bad. j))
      (λ bad. j)

db_h_erase-Journaled :
    (key field : Str) (d : LightDb)
    → HashJournaled d
    → IsKey key
    → length field < 2 ^ 30
    → HashJournaled (db_h_erase key field d).1
unfolding db_h_erase current_time_stamp
db_h_erase-Journaled key field d j k f =
    let now = d.clock d.ticks in
    either hash_part _ _ _
      (λ done.
        (commit hash_part (record d { ticks = suc d.ticks })
          (new_entry_now now key [] field hash hash_h_del) (h_del d.hash_idx key field).0
          (ticked hash_part d (suc d.ticks) j)
          (new_entry_now-Good hash hash_h_del now key [] field (j.filed.times d.ticks) k.0 k.1
            (omega arith) f)
          (sym (apply_entry-now d.hash_idx hash_h_del now key [] field))).1)
      (λ refused.
        unchanged hash_part d (h_del d.hash_idx key field).0 j
          (h_del-refused d.hash_idx key field refused))

pub db_h_del-Journaled :
    (key field : Str) (d : LightDb) → HashJournaled d → HashJournaled (db_h_del key field d).1
unfolding db_h_del
db_h_del-Journaled key field d j =
    either hash_part _ _ _
      (λ good.
        let (k, f) = passed hash_part d key field j good in
        let c = check_expired-Journaled hash_part d key j k in
        either hash_part _ _ _
          (λ over. db_h_erase-Journaled key field (check_expired key hash d).1 c k f) (λ left. c))
      (λ bad. j)

db_h_drop-Journaled :
    (key : Str) (d : LightDb) → HashJournaled d → IsKey key → HashJournaled (db_h_drop key d).1
unfolding db_h_drop current_time_stamp new_entry_no_extra
db_h_drop-Journaled key d j k =
    let now = d.clock d.ticks in
    let (status, stored) =
      store_first hash_part (record d { ticks = suc d.ticks })
        (new_entry_now now key [] [] hash hash_h_clear) (λ h. (h_clear h key).0)
        (ticked hash_part d (suc d.ticks) j) (key_only-Good hash_part d key hash_h_clear j k)
        (sym (apply_entry-now d.hash_idx hash_h_clear now key [] [])) in
    stored_well hash_part _ _ _ status stored

pub db_h_clear-Journaled :
    (key : Str) (d : LightDb) → HashJournaled d → IsKey key → HashJournaled (db_h_clear key d).1
unfolding db_h_clear
db_h_clear-Journaled key d j k =
    let c = check_expired-Journaled hash_part d key j k in
    either hash_part _ _ _ (λ over. c)
      (λ left. db_h_drop-Journaled key (check_expired key hash d).1 c k)

pub db_h_key_exist-Journaled :
    (key : Str) (d : LightDb) → HashJournaled d → HashJournaled (db_h_key_exist key d).1
unfolding db_h_key_exist
db_h_key_exist-Journaled key d j =
    either hash_part _ _ _
      (λ good.
        let c = check_expired-Journaled hash_part d key j (passed hash_part d key [] j good).0 in
        either hash_part _ _ _ (λ over. c) (λ left. c))
      (λ bad. j)

deadline_of-small : (now duration : ℕ) → deadline_of now duration < 2 ^ 64
deadline_of-small now duration = omega arith

-- A deadline leaves the index as it is.
apply_entry-expire :
    (h : Hash) (key : Str) (deadline : ℕ)
    → apply_entry h (new_entry_with_expire key [] deadline hash hash_h_expire) ≡ h
unfolding new_entry_with_expire new_entry_now
apply_entry-expire h key deadline = apply_entry-now h hash_h_expire deadline key [] []

db_h_mark-Journaled :
    (key : Str) (duration : ℕ) (d : LightDb)
    → HashJournaled d
    → IsKey key
    → HashJournaled (db_h_mark key duration d).1
unfolding db_h_mark current_time_stamp new_entry_with_expire
db_h_mark-Journaled key duration d j k =
    let deadline = deadline_of (d.clock d.ticks) duration in
    let (status, stored) =
      store_first hash_part (record d { ticks = suc d.ticks })
        (new_entry_with_expire key [] deadline hash hash_h_expire) (λ h. h)
        (ticked hash_part d (suc d.ticks) j)
        (new_entry_with_expire-Good hash hash_h_expire deadline key (deadline_of-small _ duration)
          k.0 k.1)
        (sym (apply_entry-expire d.hash_idx key deadline)) in
    stored_well hash_part _ _ _ status (dated hash_part _ _ stored)

pub db_h_expire-Journaled :
    (key : Str) (duration : ℕ) (d : LightDb)
    → HashJournaled d
    → HashJournaled (db_h_expire key duration d).1
unfolding db_h_expire
db_h_expire-Journaled key duration d j =
    either hash_part _ _ _
      (λ good.
        let c = db_h_key_exist-Journaled key d j in
        either hash_part _ _ _
          (λ there.
            db_h_mark-Journaled key duration (db_h_key_exist key d).1 c
              (passed hash_part d key [] j good).0)
          (λ missing. c))
      (λ bad. j)
