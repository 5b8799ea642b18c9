-- ===== src/Engine/Sets/Commands.antt =====
-- db_set.cpp: the operations on the set index, one by one.
use lightdb.Storage.Entry.{
  set, set_s_add, set_s_rem, set_s_move, set_s_clear, set_s_expire, new_entry_now,
  new_entry_no_extra, new_entry_with_expire,
}
use lightdb.Storage.Status.{k_ok, Code}
use lightdb.Ds.Sets.{Sets, s_add, s_rem, s_move, s_clear}
use lightdb.Engine.State.{
  LightDb, check_expired, current_time_stamp, store_now, store_extra, time_left, deadline_of,
}
use lightdb.Engine.Sets.{
  db_s_insert, db_s_add, db_s_is_member, db_s_rem, db_s_move, db_s_card, db_s_members,
  db_s_key_exist, db_s_drop, db_s_clear, db_s_mark, db_s_expire, db_s_ttl, touch_deadline,
}
use lightdb.Engine.Sets.Journal.{set_part, SetJournaled, apply_entry, apply_entry-now, s_add-member}
use lightdb.Engine.Journal.{Good, new_entry_now-Good, new_entry_with_expire-Good}
use lightdb.Engine.Journal.Part.{
  IsKey, key_only-Good, commit, store_first, store_only, ticked, dated, unchanged,
  check_expired-Journaled, passed, either, stored_well, read_lem, three,
}
use lightdb.Common.Int.{pos, negsuc}
use lightdb.Common.Map.{has, find_or}
use lightdb.Common.{
  Option, some, inl, inr, Bool-cases, ℕ, suc, ◌+◌, ◌-◌, ◌%◌, ◌/◌, ◌^◌, ◌<◌, Str, length, Bool,
  false, List, [], ◌≡◌, sym, arith, if◌then◌else◌,
}

member-Good :
    (d : LightDb) (key member : Str)
    → SetJournaled d
    → IsKey key
    → length member < 2 ^ 30
    → Good set (new_entry_now (d.clock d.ticks) key member [] set set_s_add)
member-Good d key member j k m =
    new_entry_now-Good set set_s_add (d.clock d.ticks) key member [] (j.filed.times d.ticks) k.0 k.1
      m (omega arith)

db_s_insert-Journaled :
    (key member : Str) (d : LightDb)
    → SetJournaled d
    → IsKey key
    → length member < 2 ^ 30
    → SetJournaled (db_s_insert key member d).1
unfolding db_s_insert store_now current_time_stamp new_entry_no_extra
db_s_insert-Journaled key member d j k m =
    either set_part _ _ _
      (λ old.
        unchanged set_part d (s_add d.set_idx key member).0 j
          (s_add-member d.set_idx key member old))
      (λ new.
        (commit set_part (record d { ticks = suc d.ticks })
          (new_entry_now (d.clock d.ticks) key member [] set set_s_add)
          (s_add d.set_idx key member).0 (ticked set_part d (suc d.ticks) j)
          (member-Good d key member j k m)
          (sym (apply_entry-now d.set_idx set_s_add (d.clock d.ticks) key member []))).1)

pub db_s_add-Journaled :
    (key member : Str) (d : LightDb) → SetJournaled d → SetJournaled (db_s_add key member d).1
unfolding db_s_add
db_s_add-Journaled key member d j =
    either set_part _ _ _
      (λ good.
        let (k, m) = passed set_part d key member j good in
        db_s_insert-Journaled key member (check_expired key set d).1
          (check_expired-Journaled set_part d key j k) k m)
      (λ bad. j)

pub db_s_is_member-Journaled :
    (key member : Str) (d : LightDb) → SetJournaled d → SetJournaled (db_s_is_member key member d).1
unfolding db_s_is_member
db_s_is_member-Journaled key member d j = read_lem set_part key member d _ _ _ j

pub db_s_rem-Journaled :
    (key member : Str) (d : LightDb) → SetJournaled d → SetJournaled (db_s_rem key member d).1
unfolding db_s_rem store_now current_time_stamp new_entry_no_extra
db_s_rem-Journaled key member d j =
    either set_part _ _ _
      (λ good.
        let (k, m) = passed set_part d key member j good in
        let d1 = (check_expired key set d).1 in
        let c = check_expired-Journaled set_part d key j k in
        either set_part _ _ _ (λ over. c)
          (λ left.
            (commit set_part (record d1 { ticks = suc d1.ticks })
              (new_entry_now (d1.clock d1.ticks) key member [] set set_s_rem)
              (s_rem d1.set_idx key member).0 (ticked set_part d1 (suc d1.ticks) c)
              (new_entry_now-Good set set_s_rem (d1.clock d1.ticks) key member []
                (c.filed.times d1.ticks) k.0 k.1 m (omega arith))
              (sym (apply_entry-now d1.set_idx set_s_rem (d1.clock d1.ticks) key member []))).1))
      (λ bad. j)

pub db_s_move-Journaled :
    (src dst member : Str) (d : LightDb)
    → SetJournaled d
    → SetJournaled (db_s_move src dst member d).1
unfolding db_s_move store_extra current_time_stamp
db_s_move-Journaled src dst member d j =
    either set_part _ _ _
      (λ good.
        either set_part _ _ _
          (λ fits.
            let k = (passed set_part d src [] j good).0 in
            let (l, m) = passed set_part d dst member j fits in
            let c = check_expired-Journaled set_part d src j k in
            let c2 = check_expired-Journaled set_part (check_expired src set d).1 dst c l in
            let d2 = (check_expired dst set (check_expired src set d).1).1 in
            either set_part _ _ _ (λ over. c)
              (λ left.
                (commit set_part (record d2 { ticks = suc d2.ticks })
                  (new_entry_now (d2.clock d2.ticks) src member dst set set_s_move)
                  (s_move d2.set_idx src dst member).0 (ticked set_part d2 (suc d2.ticks) c2)
                  (new_entry_now-Good set set_s_move (d2.clock d2.ticks) src member dst
                    (c2.filed.times d2.ticks) k.0 k.1 m l.1)
                  (sym
                    (apply_entry-now d2.set_idx set_s_move (d2.clock d2.ticks) src member dst))).1))
          (λ bad. j))
      (λ bad. j)

pub db_s_card-Journaled :
    (key : Str) (d : LightDb) → SetJournaled d → SetJournaled (db_s_card key d).1
unfolding db_s_card
db_s_card-Journaled key d j = read_lem set_part key [] d _ _ _ j

pub db_s_members-Journaled :
    (key : Str) (members : List Str) (d : LightDb)
    → SetJournaled d
    → SetJournaled (db_s_members key members d).1
unfolding db_s_members
db_s_members-Journaled key members d j = read_lem set_part key [] d _ _ _ j

pub db_s_key_exist-Journaled :
    (key : Str) (d : LightDb) → SetJournaled d → SetJournaled (db_s_key_exist key d).1
unfolding db_s_key_exist
db_s_key_exist-Journaled key d j = read_lem set_part key [] d _ _ _ j

db_s_drop-Journaled :
    (key : Str) (d : LightDb) → SetJournaled d → IsKey key → SetJournaled (db_s_drop key d).1
unfolding db_s_drop store_now current_time_stamp new_entry_no_extra
db_s_drop-Journaled key d j k =
    let now = d.clock d.ticks in
    let (status, stored) =
      store_first set_part (record d { ticks = suc d.ticks })
        (new_entry_now now key [] [] set set_s_clear) (λ r. (s_clear r key).0)
        (ticked set_part d (suc d.ticks) j) (key_only-Good set_part d key set_s_clear j k)
        (sym (apply_entry-now d.set_idx set_s_clear now key [] [])) in
    stored_well set_part _ _ _ status stored

pub db_s_clear-Journaled :
    (key : Str) (d : LightDb) → SetJournaled d → SetJournaled (db_s_clear key d).1
unfolding db_s_clear
db_s_clear-Journaled key d j =
    either set_part _ _ _
      (λ good.
        let k = (passed set_part d key [] j good).0 in
        let e = db_s_key_exist-Journaled key d j in
        let (exist, d1) = db_s_key_exist key d in
        let (expired, d2) = check_expired key set d1 in
        let c = check_expired-Journaled set_part d1 key e k in
        let gone : (Code × Option ℕ) × LightDb = ((k_ok, some 0), d2) in
        either set_part exist (if expired then gone else db_s_drop key d2) ((k_ok, some 0), d1)
          (λ there.
            either set_part expired gone (db_s_drop key d2) (λ over. c)
              (λ left. db_s_drop-Journaled key d2 c k))
          (λ missing. e))
      (λ bad. j)

-- A deadline leaves the index as it is.
apply_entry-expire :
    (r : Sets) (key : Str) (deadline : ℕ)
    → apply_entry r (new_entry_with_expire key [] deadline set set_s_expire) ≡ r
unfolding new_entry_with_expire new_entry_now
apply_entry-expire r key deadline = apply_entry-now r set_s_expire deadline key [] []

touch_deadline-Journaled :
    (key : Str) (d : LightDb) → SetJournaled d → SetJournaled (touch_deadline key d)
touch_deadline-Journaled key d j = elim (Bool-cases (has (d.expires set) key)) [
  | inl timed ↦ rw timed j
  | inr never ↦ rw never (dated set_part d _ j)
]

db_s_mark-Journaled :
    (key : Str) (duration : ℕ) (d : LightDb)
    → SetJournaled d
    → IsKey key
    → SetJournaled (db_s_mark key duration d).1
unfolding db_s_mark current_time_stamp new_entry_with_expire
db_s_mark-Journaled key duration d j k =
    let deadline = deadline_of (d.clock d.ticks) duration in
    let (status, stored) =
      store_only set_part (record d { ticks = suc d.ticks })
        (new_entry_with_expire key [] deadline set set_s_expire) (ticked set_part d (suc d.ticks) j)
        (new_entry_with_expire-Good set set_s_expire deadline key (omega arith) k.0 k.1)
        (sym (apply_entry-expire d.set_idx key deadline)) in
    stored_well set_part _ _ _ status (touch_deadline-Journaled key _ stored)

pub db_s_expire-Journaled :
    (key : Str) (duration : ℕ) (d : LightDb)
    → SetJournaled d
    → SetJournaled (db_s_expire key duration d).1
unfolding db_s_expire
db_s_expire-Journaled key duration d j =
    either set_part _ _ _
      (λ good.
        let k = (passed set_part d key [] j good).0 in
        let c = check_expired-Journaled set_part d key j k in
        let d1 = (check_expired key set d).1 in
        let e = db_s_key_exist-Journaled key d1 c in
        let (exist, d2) = db_s_key_exist key d1 in
        let gone : (Code × Bool) × LightDb = ((k_ok, false), d1) in
        let missing : (Code × Bool) × LightDb = ((k_ok, false), d2) in
        let marked : (Code × Bool) × LightDb = db_s_mark key duration d2 in
        either set_part (check_expired key set d).0 gone (if exist then marked else missing)
          (λ over. c)
          (λ left.
            either set_part exist marked missing (λ there. db_s_mark-Journaled key duration d2 e k)
              (λ no. e)))
      (λ bad. j)

pub db_s_ttl-Journaled :
    (key : Str) (d : LightDb) → SetJournaled d → SetJournaled (db_s_ttl key d).1
unfolding db_s_ttl time_left current_time_stamp
db_s_ttl-Journaled key d j =
    either set_part _ _ _
      (λ good.
        let c = check_expired-Journaled set_part d key j (passed set_part d key [] j good).0 in
        let (expired, d1) = check_expired key set d in
        three set_part expired (has (d1.expires set) key) (negsuc 1, d1)
          (
            pos ((find_or (d1.expires set) key 0 + 2 ^ 64 - d1.clock d1.ticks) % 2 ^ 64 / 1000),
            record d1 { ticks = suc d1.ticks },
          )
          (negsuc 1, d1) c (ticked set_part d1 (suc d1.ticks) c) c)
      (λ bad. j)
