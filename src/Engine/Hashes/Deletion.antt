-- ===== src/Engine/Hashes/Deletion.antt =====
-- db_hash.cpp, `HDel`: its test for an expired key is the wrong way round.
use lightdb.Common.Map.{has, find_or, find-erase}
use lightdb.Storage.Entry.{hash, hash_h_clear, new_entry_no_extra}
use lightdb.Storage.Status.{k_ok, ok}
use lightdb.Ds.Hash.{Hash, h_clear, h_del, h_key_exist}
use lightdb.Engine.State.{
  LightDb, current_time_stamp, clear_index, check_key_value, check_expired, expire_key,
}
use lightdb.Engine.Store.{store-OnlyFiles}
use lightdb.Engine.Hashes.{db_h_erase, db_h_del}
use lightdb.Common.{
  suc, ltb, Str, str_eq_self, true, false, [], ◌≡◌, refl, ap, ◌∙◌, arith, inl, inr, Bool-cases,
}

-- A key whose deadline is over has no fields afterwards.
check_expired-cleared :
    (key : Str) (d : LightDb)
    → (check_expired key hash d).0 ≡ true
    → (check_expired key hash d).1.hash_idx ≡ (h_clear d.hash_idx key).0
unfolding check_expired expire_key current_time_stamp clear_index
check_expired-cleared key d h =
    let e = new_entry_no_extra (d.clock (suc d.ticks)) key [] hash hash_h_clear in
    let d2 = record d { ticks = suc (suc d.ticks) } in
    elim (Bool-cases (has (d.expires hash) key)) [
      | inl timed ↦ elim (Bool-cases (ltb (find_or (d.expires hash) key 0) (d.clock d.ticks))) [
        | inl over ↦ rw (timed, over) ((store-OnlyFiles e (clear_index hash key d2)).hash_idx)
        | inr left ↦ absurd (ground (arith, h, timed, left))
      ]
      | inr never ↦ absurd (ground (arith, h, never))
    ]

h_del-cleared : (h : Hash) (key field : Str) → (h_del (h_clear h key).0 key field).1 ≡ false
unfolding h_del h_clear h_key_exist
h_del-cleared h key field = ground (arith, find-erase h key key, str_eq_self key)

-- HDel of LightDB returns kOk and 0 in every state, for every key and field.
pub db_h_del-nothing : (key field : Str) (d : LightDb) → (db_h_del key field d).0 ≡ (k_ok, 0)
unfolding db_h_del db_h_erase
db_h_del-nothing key field d = elim (Bool-cases (ok (check_key_value d.config key field))) [
  | inl good ↦ elim (Bool-cases (check_expired key hash d).0) [
    | inl over ↦
        let gone : (h_del (check_expired key hash d).1.hash_idx key field).1 ≡ false =
          ap (λ h. (h_del h key field).1) (check_expired-cleared key d over)
          ∙ h_del-cleared d.hash_idx key field in
        rw (good, over, gone) refl
    | inr left ↦ rw (good, left) refl
  ]
  | inr bad ↦ rw bad refl
]
