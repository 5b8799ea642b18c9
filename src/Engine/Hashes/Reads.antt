-- ===== src/Engine/Hashes/Reads.antt =====
-- db_hash.cpp: the operations that only read, the ones over several fields, and every sequence of
-- operations.
use lightdb.Common.Map.{has}
use lightdb.Ds.Hash.{h_keys, h_vals}
use lightdb.Storage.Entry.{hash}
use lightdb.Storage.Status.{ok}
use lightdb.Engine.State.{LightDb, check_key_values, check_expired, current_time_stamp, time_left}
use lightdb.Engine.Hashes.{
  db_h_get, db_h_set, db_h_set_nx, db_h_get_all, h_m_set_loop, db_h_m_set, db_h_del, h_m_get_loop,
  db_h_m_get, db_h_key_exist, db_h_exist, db_h_len, db_h_keys, db_h_vals, db_h_clear, db_h_expire,
  db_h_ttl, k_ok,
}
use lightdb.Engine.Hashes.Journal.{hash_part, HashJournaled, db_h_get-Journaled, db_h_set-Journaled}
use lightdb.Engine.Hashes.Commands.{
  db_h_set_nx-Journaled, db_h_del-Journaled, db_h_clear-Journaled, db_h_key_exist-Journaled,
  db_h_expire-Journaled,
}
use lightdb.Storage.Status.{k_ok}
use lightdb.Common.{
  ◌≡◌, refl, ap, ◌∙◌, ℕ, Str, Bool, true, false, Option, none, some, List, [], ◌∷◌, if◌then◌else◌,
  ◌≡◌, ap, ◌∙◌,
}
use lightdb.Engine.Journal.Part.{
  IsKey, ticked, check_expired-Journaled, passed, either, read_lem, three,
}

db_h_exist-Journaled :
    (key field : Str) (d : LightDb) → HashJournaled d → HashJournaled (db_h_exist key field d).1
unfolding db_h_exist
db_h_exist-Journaled key field d j = read_lem hash_part key field d _ _ _ j

db_h_len-Journaled : (key : Str) (d : LightDb) → HashJournaled d → HashJournaled (db_h_len key d).1
unfolding db_h_len
db_h_len-Journaled key d j = read_lem hash_part key [] d _ _ _ j

db_h_get_all-Journaled :
    (key : Str) (vals : List Str) (d : LightDb)
    → HashJournaled d
    → HashJournaled (db_h_get_all key vals d).1
unfolding db_h_get_all
db_h_get_all-Journaled key vals d j = read_lem hash_part key [] d _ _ _ j

db_h_keys-Journaled :
    (key : Str) (keys : List Str) (d : LightDb)
    → HashJournaled d
    → HashJournaled (db_h_keys key keys d).1
unfolding db_h_keys
db_h_keys-Journaled key keys d j =
    either hash_part _ _ _
      (λ good.
        let c = check_expired-Journaled hash_part d key j (passed hash_part d key [] j good).0 in
        let d1 = (check_expired key hash d).1 in
        let (exist, d2) = db_h_key_exist key d1 in
        let e = db_h_key_exist-Journaled key d1 c in
        three hash_part (check_expired key hash d).0 exist ((false, keys), d1)
          ((true, h_keys d2.hash_idx key keys), d2) ((false, keys), d2) c e e)
      (λ bad. j)

db_h_vals-Journaled :
    (key : Str) (vals : List Str) (d : LightDb)
    → HashJournaled d
    → HashJournaled (db_h_vals key vals d).1
unfolding db_h_vals
db_h_vals-Journaled key vals d j =
    either hash_part _ _ _
      (λ good.
        let e = db_h_key_exist-Journaled key d j in
        let (exist, d1) = db_h_key_exist key d in
        let (expired, d2) = check_expired key hash d1 in
        let c = check_expired-Journaled hash_part d1 key e (passed hash_part d key [] j good).0 in
        let over : (Bool × List Str) × LightDb = ((false, vals), d2) in
        let left : (Bool × List Str) × LightDb = ((true, h_vals d2.hash_idx key vals), d2) in
        either hash_part exist (if expired then over else left) ((false, vals), d1)
          (λ there. either hash_part expired over left (λ yes. c) (λ no. c)) (λ missing. e))
      (λ bad. j)

db_h_ttl-Journaled : (key : Str) (d : LightDb) → HashJournaled d → HashJournaled (db_h_ttl key d).1
unfolding db_h_ttl time_left current_time_stamp
db_h_ttl-Journaled key d j =
    either hash_part _ _ _
      (λ good.
        let c = check_expired-Journaled hash_part d key j (passed hash_part d key [] j good).0 in
        three hash_part (check_expired key hash d).0
          (has ((check_expired key hash d).1.expires hash) key) _ _ _ c
          (ticked hash_part (check_expired key hash d).1 _ c) c)
      (λ bad. j)

h_m_get_loop-Journaled :
    (key : Str) (fields vals : List Str) (sucs : List Bool) (d : LightDb)
    → HashJournaled d
    → HashJournaled (h_m_get_loop key fields vals sucs d).1
unfolding h_m_get_loop
h_m_get_loop-Journaled key [] vals sucs d j = j
h_m_get_loop-Journaled key (field ∷ fields) vals sucs d j =
    h_m_get_loop-Journaled key fields _ _ (db_h_get key field d).1
      (db_h_get-Journaled key field d j)

db_h_m_get-Journaled :
    (key : Str) (fields vals : List Str) (sucs : List Bool) (d : LightDb)
    → HashJournaled d
    → HashJournaled (db_h_m_get key fields vals sucs d).1
unfolding db_h_m_get
db_h_m_get-Journaled key fields vals sucs d j =
    either hash_part _ _ _ (λ good. h_m_get_loop-Journaled key fields vals sucs d j) (λ bad. j)

-- The call returns, with a journal in its state.
abbrev Ends {ℓ} : {A : Type ℓ} → Option (A × LightDb) → Type ℓ
Ends {A = A} run = (a : A) × (d : LightDb) × (run ≡ some (a, d)) × HashJournaled d

Ends-either {ℓ} :
    {A : Type ℓ} (b : Bool) (x y : Option (A × LightDb))
    → Ends x
    → Ends y
    → Ends (if b then x else y)
Ends-either true x y h k = h
Ends-either false x y h k = k

-- A value for each field.
abbrev pub IsPaired : List Str → Type 0
IsPaired [] = Unit
IsPaired (field ∷ []) = ⊥
IsPaired (field ∷ value ∷ vals) = IsPaired vals

h_m_set_loop-Journaled :
    (key : Str) (vals : List Str) (d : LightDb)
    → IsPaired vals
    → HashJournaled d
    → Ends (h_m_set_loop key vals d)
unfolding h_m_set_loop
h_m_set_loop-Journaled key [] d p j = (k_ok, d, refl, j)
h_m_set_loop-Journaled key (field ∷ []) d p j = absurd p
h_m_set_loop-Journaled key (field ∷ value ∷ vals) d p j =
    let one = db_h_set-Journaled key field value d j in
    let ((status, res), d1) = db_h_set key field value d in
    Ends-either (ok status) (h_m_set_loop key vals d1) (some (status, d1))
      (h_m_set_loop-Journaled key vals d1 p one) (status, d1, refl, one)

db_h_m_set-Journaled :
    (key : Str) (vals : List Str) (d : LightDb)
    → IsPaired vals
    → HashJournaled d
    → Ends (db_h_m_set key vals d)
unfolding db_h_m_set
db_h_m_set-Journaled key vals d p j =
    let c = check_key_values d.config key vals in
    Ends-either (ok c) (h_m_set_loop key vals d) (some (c, d))
      (h_m_set_loop-Journaled key vals d p j) (c, d, refl, j)

-- The operations of `LightDB` on hashes.
pub data HashOp : Type 0 where
  get : Str → Str → HashOp
  set : Str → Str → Str → HashOp
  set_nx : Str → Str → Str → HashOp
  get_all : Str → List Str → HashOp
  m_set : Str → List Str → HashOp
  m_get : Str → List Str → HashOp
  del : Str → Str → HashOp
  key_exist : Str → HashOp
  exist : Str → Str → HashOp
  len : Str → HashOp
  keys : Str → List Str → HashOp
  vals : Str → List Str → HashOp
  clear : Str → HashOp
  expire : Str → ℕ → HashOp
  ttl : Str → HashOp

-- The state that a call leaves; `none` is an `HMSet` that reads behind its last field.
unfoldable pub perform : HashOp → LightDb → Option LightDb
unfolding db_h_get db_h_set db_h_set_nx db_h_get_all db_h_m_set db_h_m_get db_h_del db_h_key_exist
    db_h_exist db_h_len db_h_keys db_h_vals db_h_clear db_h_expire db_h_ttl
perform (get key field) d = some ((db_h_get key field d).1)
perform (set key field value) d = some ((db_h_set key field value d).1)
perform (set_nx key field value) d = some ((db_h_set_nx key field value d).1)
perform (get_all key vs) d = some ((db_h_get_all key vs d).1)
perform (m_set key vs) d = elim (db_h_m_set key vs d) [ none ↦ none | some (status, d1) ↦ some d1 ]
perform (m_get key fields) d = some ((db_h_m_get key fields [] [] d).1)
perform (del key field) d = some ((db_h_del key field d).1)
perform (key_exist key) d = some ((db_h_key_exist key d).1)
perform (exist key field) d = some ((db_h_exist key field d).1)
perform (len key) d = some ((db_h_len key d).1)
perform (keys key ks) d = some ((db_h_keys key ks d).1)
perform (vals key vs) d = some ((db_h_vals key vs d).1)
perform (clear key) d = some ((db_h_clear key d).1)
perform (expire key duration) d = some ((db_h_expire key duration d).1)
perform (ttl key) d = some ((db_h_ttl key d).1)

unfoldable pub perform_all : List HashOp → LightDb → Option LightDb
unfolding perform
perform_all [] d = some d
perform_all (op ∷ ops) d = elim (perform op d) [ none ↦ none | some d1 ↦ perform_all ops d1 ]

-- `HClear` does not check its key, so its caller has to; nor does `HMSet` check that each field has
-- a value.
abbrev pub Admissible : HashOp → Type 0
Admissible (clear key) = IsKey key
Admissible (m_set key vs) = IsPaired vs
Admissible op = Unit

abbrev pub AllAdmissible : List HashOp → Type 0
AllAdmissible [] = Unit
AllAdmissible (op ∷ ops) = Admissible op × AllAdmissible ops

-- A defined state with a journal.
abbrev pub Leaves : Option LightDb → Type 0
Leaves run = (d : LightDb) × (run ≡ some d) × HashJournaled d

perform-Journaled :
    (op : HashOp) (d : LightDb) → HashJournaled d → Admissible op → Leaves (perform op d)
unfolding perform
perform-Journaled (get key field) d j a = (_, refl, db_h_get-Journaled key field d j)
perform-Journaled (set key field value) d j a = (_, refl, db_h_set-Journaled key field value d j)
perform-Journaled (set_nx key field value) d j a =
    (_, refl, db_h_set_nx-Journaled key field value d j)
perform-Journaled (get_all key vs) d j a = (_, refl, db_h_get_all-Journaled key vs d j)
perform-Journaled (m_set key vs) d j a =
    let (status, d1, run, j1) = db_h_m_set-Journaled key vs d a j in
    (d1, ap (λ o. elim o [ none ↦ none | some (status, d2) ↦ some d2 ]) run, j1)
perform-Journaled (m_get key fields) d j a = (_, refl, db_h_m_get-Journaled key fields [] [] d j)
perform-Journaled (del key field) d j a = (_, refl, db_h_del-Journaled key field d j)
perform-Journaled (key_exist key) d j a = (_, refl, db_h_key_exist-Journaled key d j)
perform-Journaled (exist key field) d j a = (_, refl, db_h_exist-Journaled key field d j)
perform-Journaled (len key) d j a = (_, refl, db_h_len-Journaled key d j)
perform-Journaled (keys key ks) d j a = (_, refl, db_h_keys-Journaled key ks d j)
perform-Journaled (vals key vs) d j a = (_, refl, db_h_vals-Journaled key vs d j)
perform-Journaled (clear key) d j a = (_, refl, db_h_clear-Journaled key d j a)
perform-Journaled (expire key duration) d j a = (_, refl, db_h_expire-Journaled key duration d j)
perform-Journaled (ttl key) d j a = (_, refl, db_h_ttl-Journaled key d j)

-- On a kernel that fails no call, with limits of keys and values below a gigabyte and a clock
-- below 2^64, any sequence of the hash operations of LightDB, where each HClear has a key of a
-- legal length and each HMSet a value for each field, is defined and keeps the hash index equal
-- to the replay of the entries in the hash files.
pub perform_all-HashJournaled :
    (ops : List HashOp) (d : LightDb)
    → HashJournaled d
    → AllAdmissible ops
    → Leaves (perform_all ops d)
unfolding perform_all
perform_all-HashJournaled [] d j a = (d, refl, j)
perform_all-HashJournaled (op ∷ ops) d j (a, as_) =
    let (d1, run, j1) = perform-Journaled op d j a in
    let (d2, rest, j2) = perform_all-HashJournaled ops d1 j1 as_ in
    (d2, ap (λ o. elim o [ none ↦ none | some d3 ↦ perform_all ops d3 ]) run ∙ rest, j2)
