-- ===== src/Engine/Journal/Part.antt =====
-- lightdb.cpp: one of the indexes of the database, with the files of its type, and the steps that
-- all its operations share.
use lightdb.Common.Map.{Map, has, find_or}
use lightdb.Storage.Entry.{DataType, OperationType, Entry, new_entry_now, new_entry_no_extra}
use lightdb.Storage.Status.{Code, k_ok, ok}
use lightdb.Engine.State.{
  LightDb, current_time_stamp, check_key_value, check_expired, expire_key, clear_index, clear_mark,
  store,
}
use lightdb.Engine.Store.{OnlyFiles, store-OnlyFiles}
use lightdb.Engine.Index.Indexed.{replay, replay-append}
use lightdb.Engine.Journal.{Good, Filed, store-Filed, new_entry_now-Good}
use mathlib.Core.Path.{subst}
use lightdb.Common.{
  ℕ, suc, ◌^◌, ◌<◌, ltb, Str, length, Bool, true, false, List, [], ◌∷◌, ◌++◌, ◌≡◌, refl, sym, ap,
  ◌∙◌, arith, inl, inr, Bool-cases, if◌then◌else◌,
}

-- An index, and what an entry of its type does to it. Every index has the type `X` of its data.
pub record Part (X : Type 0) : Type 0 where
  pub type : DataType
  pub start : X
  pub idx : LightDb → X
  pub put : LightDb → X → LightDb
  pub apply : X → Entry → X
  pub idx-put : (d : LightDb) (x : X) → idx (put d x) ≡ x
  pub idx-OnlyFiles : (d d' : LightDb) → OnlyFiles d d' → idx d' ≡ idx d
  pub idx-ticked : (d : LightDb) (n : ℕ) → idx (record d { ticks = n }) ≡ idx d
  pub idx-dated : (d : LightDb) (m : DataType → Map ℕ) → idx (record d { expires = m }) ≡ idx d
  pub put-Filed :
      (d : LightDb) (x : X) (log : List Entry) → Filed type d log → Filed type (put d x) log
  pub clear_index_lem :
      (now : ℕ) (key : Str) (d : LightDb)
      → clear_index type key d
        ≡ put d (apply (idx d) (new_entry_now now key [] [] type (clear_mark type)))

-- A key of a gigabyte at most.
abbrev pub IsKey : Str → Type 0
IsKey key = (0 < length key) × (length key < 2 ^ 30)

module _ {X : Type 0} (P : Part X) where
  -- The index of the database is what the entries in the files of its type replay to.
  pub record Journaled (d : LightDb) : Type 0 where
    pub log : List Entry
    pub filed : Filed P.type d log
    pub index : P.idx d ≡ replay P.apply P.start log

  -- One more stored entry, and the index that it makes.
  index-append :
      (x y : X) (log : List Entry) (e : Entry)
      → x ≡ replay P.apply P.start log
      → y ≡ P.apply x e
      → y ≡ replay P.apply P.start (log ++ e ∷ [])
  unfolding replay
  index-append x y log e h k =
      k ∙ ap (λ z. P.apply z e) h ∙ sym (replay-append P.apply P.start log (e ∷ []))

  -- An entry that is stored beside its effect on the index, made before it.
  pub commit :
      (d : LightDb) (e : Entry) (x : X)
      → Journaled d
      → Good P.type e
      → x ≡ P.apply (P.idx d) e
      → ((store e (P.put d x)).0 ≡ k_ok) × Journaled (store e (P.put d x)).1
  commit d e x j g k =
      let (status, filed) =
        store-Filed P.type e (P.put d x) j.log g (P.put-Filed d x j.log j.filed) in
      (
        status,
        record {
          log = j.log ++ e ∷ [];
          filed = filed;
          index =
              P.idx-OnlyFiles (P.put d x) (store e (P.put d x)).1 (store-OnlyFiles e (P.put d x))
              ∙ P.idx-put d x
              ∙ index-append (P.idx d) x j.log e j.index k;
        },
      )

  -- An entry that is stored before its effect on the index.
  pub store_first :
      (d : LightDb) (e : Entry) (f : X → X)
      → Journaled d
      → Good P.type e
      → f (P.idx d) ≡ P.apply (P.idx d) e
      → ((store e d).0 ≡ k_ok) × Journaled (P.put (store e d).1 (f (P.idx (store e d).1)))
  store_first d e f j g k =
      let d1 = (store e d).1 in
      let (status, filed) = store-Filed P.type e d j.log g j.filed in
      (
        status,
        record {
          log = j.log ++ e ∷ [];
          filed = P.put-Filed d1 (f (P.idx d1)) (j.log ++ e ∷ []) filed;
          index =
              P.idx-put d1 (f (P.idx d1))
              ∙ ap f (P.idx-OnlyFiles d d1 (store-OnlyFiles e d))
              ∙ index-append (P.idx d) (f (P.idx d)) j.log e j.index k;
        },
      )

  -- An entry that leaves the index as it is.
  pub store_only :
      (d : LightDb) (e : Entry)
      → Journaled d
      → Good P.type e
      → P.idx d ≡ P.apply (P.idx d) e
      → ((store e d).0 ≡ k_ok) × Journaled (store e d).1
  store_only d e j g k =
      let d1 = (store e d).1 in
      let (status, filed) = store-Filed P.type e d j.log g j.filed in
      (
        status,
        record {
          log = j.log ++ e ∷ [];
          filed = filed;
          index =
              P.idx-OnlyFiles d d1 (store-OnlyFiles e d)
              ∙ index-append (P.idx d) (P.idx d) j.log e j.index k;
        },
      )

  -- Readings of the clock and deadlines are not part of the journal.
  pub ticked : (d : LightDb) (n : ℕ) → Journaled d → Journaled (record d { ticks = n })
  ticked d n j = record {
    log = j.log;
    filed = record {
      logged = j.filed.logged;
      succeeds = j.filed.succeeds;
      keys = j.filed.keys;
      values = j.filed.values;
      times = j.filed.times;
    };
    index = P.idx-ticked d n ∙ j.index;
  }

  pub dated :
      (d : LightDb) (m : DataType → Map ℕ) → Journaled d → Journaled (record d { expires = m })
  dated d m j = record {
    log = j.log;
    filed = record {
      logged = j.filed.logged;
      succeeds = j.filed.succeeds;
      keys = j.filed.keys;
      values = j.filed.values;
      times = j.filed.times;
    };
    index = P.idx-dated d m ∙ j.index;
  }

  -- An index that is as it was.
  pub unchanged : (d : LightDb) (x : X) → Journaled d → x ≡ P.idx d → Journaled (P.put d x)
  unchanged d x j h = record {
    log = j.log;
    filed = P.put-Filed d x j.log j.filed;
    index = P.idx-put d x ∙ h ∙ j.index;
  }

  -- An entry of a key, made now.
  pub key_only-Good :
      (d : LightDb) (key : Str) (mark : OperationType)
      → Journaled d
      → IsKey key
      → Good P.type (new_entry_no_extra (d.clock d.ticks) key [] P.type mark)
  unfolding new_entry_no_extra
  key_only-Good d key mark j (p, k) =
      new_entry_now-Good P.type mark (d.clock d.ticks) key [] [] (j.filed.times d.ticks) p k
        (omega arith) (omega arith)

  pub expire_key-Journaled :
      (d : LightDb) (key : Str) → Journaled d → IsKey key → Journaled (expire_key P.type key d)
  unfolding expire_key current_time_stamp new_entry_no_extra
  expire_key-Journaled d key j k =
      let now = d.clock d.ticks in
      let e = new_entry_now now key [] [] P.type (clear_mark P.type) in
      let d1 = record d { ticks = suc d.ticks } in
      let (status, stored) =
        commit d1 e (P.apply (P.idx d1) e) (ticked d (suc d.ticks) j)
          (key_only-Good d key (clear_mark P.type) j k) refl in
      dated _ _ (subst (λ x. Journaled (store e x).1) (sym (P.clear_index_lem now key d1)) stored)

  pub check_expired-Journaled :
      (d : LightDb) (key : Str) → Journaled d → IsKey key → Journaled (check_expired key P.type d).1
  unfolding check_expired current_time_stamp
  check_expired-Journaled d key j k =
      let d1 = record d { ticks = suc d.ticks } in
      elim (Bool-cases (has (d.expires P.type) key)) [
        | inl timed ↦ elim (Bool-cases (ltb (find_or (d.expires P.type) key 0) (d.clock d.ticks))) [
          | inl over ↦ rw (timed, over) (expire_key-Journaled d1 key (ticked d (suc d.ticks) j) k)
          | inr left ↦ rw (timed, left) (ticked d (suc d.ticks) j)
        ]
        | inr never ↦ rw never j
      ]

  -- A check that passes gives a key, and a short text beside it.
  pub passed :
      (d : LightDb) (key value : Str)
      → Journaled d
      → ok (check_key_value d.config key value) ≡ true
      → IsKey key × (length value < 2 ^ 30)
  unfolding check_key_value
  passed d key value j h =
      ((ground (arith, h), ground (arith, h, j.filed.keys)), ground (arith, h, j.filed.values))

  -- A journal after both branches of a test.
  pub either {ℓ} :
      {A : Type ℓ} (b : Bool) (x y : A × LightDb)
      → (b ≡ true → Journaled x.1)
      → (b ≡ false → Journaled y.1)
      → Journaled (if b then x else y).1
  either true x y h k = h refl
  either false x y h k = k refl

  -- The branch of an entry that is stored.
  pub stored_well {ℓ} :
      {A : Type ℓ} (s : Code) (x y : A × LightDb)
      → s ≡ k_ok
      → Journaled x.1
      → Journaled (if ok s then x else y).1
  stored_well s x y h j = rw (ap ok h) j

  -- The shape of most reads: a check of the arguments, then the test for an expired key.
  pub read_lem {ℓ} :
      {A : Type ℓ} (key value : Str) (d : LightDb) (x y z : A)
      → Journaled d
      → Journaled
          (if◌then◌else◌ {A = A × LightDb}
            (ok (check_key_value d.config key value))
            (if (check_expired key P.type d).0
              then (x, (check_expired key P.type d).1)
              else (y, (check_expired key P.type d).1))
            (z, d)).1
  read_lem key value d x y z j =
      either _ _ _
        (λ good.
          let c = check_expired-Journaled d key j (passed d key value j good).0 in
          either _ _ _ (λ over. c) (λ left. c))
        (λ bad. j)

  -- Three ends that leave a journal.
  pub three {ℓ} :
      {A : Type ℓ} (b c : Bool) (x y z : A × LightDb)
      → Journaled x.1
      → Journaled y.1
      → Journaled z.1
      → Journaled (if◌then◌else◌ {A = A × LightDb} b x (if c then y else z)).1
  three b c x y z j k l = either b x _ (λ yes. j) (λ no. either c y z (λ yes. k) (λ no. l))
