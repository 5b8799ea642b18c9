-- ===== src/Engine/Sets/Expiry.antt =====
-- db_set.cpp, `SExpire`: the deadline is compared where it should be written.
use lightdb.Common.Map.{has, find_or, assign, find-assign}
use lightdb.Storage.Entry.{set, set_s_expire, new_entry_with_expire}
use lightdb.Storage.Status.{ok}
use lightdb.Engine.State.{LightDb, check_expired, current_time_stamp, store, deadline_of}
use lightdb.Engine.Store.{store-OnlyFiles}
use lightdb.Engine.Sets.{db_s_mark, touch_deadline}
use mathlib.Core.Path.{subst}
use lightdb.Common.{
  ℕ, ◌<◌, suc, [], ltb, sym, Str, str_eq_self, true, false, ◌≡◌, refl, arith, inl, inr, Bool-cases,
}

-- A key whose absent deadline became 0 is expired at once.
touch_deadline-expired :
    (key : Str) (d : LightDb)
    → has (d.expires set) key ≡ false
    → 0 < d.clock d.ticks
    → (check_expired key set (touch_deadline key d)).0 ≡ true
unfolding check_expired current_time_stamp
touch_deadline-expired key d h t =
    let m = d.expires set in
    let there : has (assign m key 0) key ≡ true =
      ground (arith, find-assign m key key 0, str_eq_self key) in
    let none_left : find_or (assign m key 0) key 0 ≡ 0 =
      ground (arith, find-assign m key key 0, str_eq_self key) in
    let over : ltb 0 (d.clock d.ticks) ≡ true = ground (arith, t) in
    rw (h, there, none_left, over) refl

-- After an SExpire that reports success on a key without a deadline, the next test for an expired
-- key says that the key is expired, whatever the duration, as soon as the clock is not 0.
pub db_s_mark-expired :
    (key : Str) (duration : ℕ) (d : LightDb)
    → has (d.expires set) key ≡ false
    → ((n : ℕ) → 0 < d.clock n)
    → (db_s_mark key duration d).0.1 ≡ true
    → (check_expired key set (db_s_mark key duration d).1).0 ≡ true
unfolding db_s_mark current_time_stamp
db_s_mark-expired key duration d h t done =
    let d1 = record d { ticks = suc d.ticks } in
    let e =
      new_entry_with_expire key [] (deadline_of (d.clock d.ticks) duration) set set_s_expire in
    let o = store-OnlyFiles e d1 in
    let d2 = (store e d1).1 in
    elim (Bool-cases (ok (store e d1).0)) [
      | inl good ↦ rw good (
          touch_deadline-expired key d2 (rw o.expires h)
            (subst (λ (c : ℕ → ℕ). 0 < c d2.ticks) (sym o.clock) (t d2.ticks)))
      | inr bad ↦ absurd (ground (arith, bad, done))
    ]
