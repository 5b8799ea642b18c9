-- ===== src/Engine/Store.antt =====
-- lightdb.cpp, `store`, on a kernel that fails no call.
use lightdb.Storage.Entry.{
  DataType, string, list, hash, set, z_set, all, Entry, encode, get_type, type_code,
}
use lightdb.Storage.Status.{Code, k_ok}
use lightdb.Storage.File.{DbFile, Io, write, appended}
use lightdb.Storage.File.Transfer.{Succeeds}
use lightdb.Storage.File.Written.{Writable, write-Succeeds}
use lightdb.Engine.State.{LightDb, set_at, type_of, new_file, archive, rotate, written, store}
use lightdb.Engine.Index.Indexed.{Loadable}
use lightdb.Engine.Logged.{Logged, rotated-Logged, appended-Logged}
use mathlib.Core.Path.{subst, transport}
use lightdb.Common.{
  ◌+◌, ◌≤◌, ltb, List, [], ◌∷◌, ◌++◌, ◌≡◌, refl, sym, ap, ◌∙◌, arith, inl, inr, Bool-cases, if-true,
  if-false, false,
}

type_of-type_code : (t : DataType) → type_of (type_code t) ≡ t
unfolding type_of
type_of-type_code string = refl
type_of-type_code list = refl
type_of-type_code hash = refl
type_of-type_code set = refl
type_of-type_code z_set = refl
type_of-type_code all = refl

set_at-same {ℓ} : {A : Type ℓ} (m : DataType → A) (t : DataType) (a : A) → set_at m t a t ≡ a
set_at-same m string a = refl
set_at-same m list a = refl
set_at-same m hash a = refl
set_at-same m set a = refl
set_at-same m z_set a = refl
set_at-same m all a = refl

-- The files of a type in a state, and the entries in them.
abbrev pub LoggedAt : DataType → LightDb → List Entry → Type 0
LoggedAt t d log = Logged d.config.block_size (d.archived t) (d.active t) log

abbrev moved : DataType → LightDb → LightDb
moved t d = record d {
  active = set_at d.active t (new_file ((d.active t).id + 1));
  archived = set_at d.archived t (archive (d.active t) (d.archived t));
}

-- What a rotation gives: the same entries, and room in the active file.
record Rotated (t : DataType) (d d' : LightDb) (log : List Entry) : Type 0 where
  logged : Logged d.config.block_size (d'.archived t) (d'.active t) log
  room : (d'.active t).write_offset ≤ d.config.block_size

rotate-Rotated :
    (t : DataType) (d : LightDb) (log : List Entry)
    → LoggedAt t d log
    → Rotated t d (rotate t d) log
unfolding rotate
rotate-Rotated t d log h = elim (Bool-cases (ltb d.config.block_size (d.active t).write_offset)) [
  | inl over ↦
      let f = new_file ((d.active t).id + 1) in
      let fs = archive (d.active t) (d.archived t) in
      let active : (moved t d).active t ≡ f = set_at-same d.active t f in
      subst (λ x. Rotated t d x log) (sym (if-true _ (moved t d) d over))
        (record {
          logged =
              transport
                (λ i.
                  Logged d.config.block_size (sym (set_at-same d.archived t fs) i) (sym active i)
                    log)
                (rotated-Logged d.config.block_size (d.archived t) (d.active t) log h);
          room =
              subst (λ (g : DbFile). g.write_offset ≤ d.config.block_size) (sym active)
                (omega arith);
        })
  | inr fits ↦
      subst (λ x. Rotated t d x log) (sym (if-false _ (moved t d) d fits))
        (record { logged = h; room = ground (arith, fits) })
]

-- What `store` changes: the files and the outcomes.
pub record OnlyFiles (d d' : LightDb) : Type 0 where
  pub config : d'.config ≡ d.config
  pub clock : d'.clock ≡ d.clock
  pub hash_idx : d'.hash_idx ≡ d.hash_idx
  pub list_idx : d'.list_idx ≡ d.list_idx
  pub set_idx : d'.set_idx ≡ d.set_idx
  pub expires : d'.expires ≡ d.expires

rotate-OnlyFiles : (t : DataType) (d : LightDb) → OnlyFiles d (rotate t d)
unfolding rotate
rotate-OnlyFiles t d = elim (Bool-cases (ltb d.config.block_size (d.active t).write_offset)) [
  | inl over ↦ subst (OnlyFiles d) (sym (if-true _ (moved t d) d over)) (record {
    config = refl;
    clock = refl;
    hash_idx = refl;
    list_idx = refl;
    set_idx = refl;
    expires = refl;
  })
  | inr fits ↦ subst (OnlyFiles d) (sym (if-false _ (moved t d) d fits)) (record {
    config = refl;
    clock = refl;
    hash_idx = refl;
    list_idx = refl;
    set_idx = refl;
    expires = refl;
  })
]

-- Whatever the kernel does, `store` touches nothing but the files and the outcomes.
pub store-OnlyFiles : (e : Entry) (d : LightDb) → OnlyFiles d (store e d).1
unfolding store
store-OnlyFiles e d =
    let r = rotate-OnlyFiles (type_of (get_type e)) d in
    record {
      config = r.config;
      clock = r.clock;
      hash_idx = r.hash_idx;
      list_idx = r.list_idx;
      set_idx = r.set_idx;
      expires = r.expires;
    }

pub record Stored (t : DataType) (r : Code × LightDb) (log : List Entry) : Type 0 where
  pub status : r.0 ≡ k_ok
  pub logged : LoggedAt t r.1 log
  pub succeeds : Succeeds r.1.outcomes

rotate-outcomes : (t : DataType) (d : LightDb) → (rotate t d).outcomes ≡ d.outcomes
unfolding rotate
rotate-outcomes t d = ground arith

abbrev store_at : Entry → LightDb → DataType → Code × LightDb
store_at e d t =
    let (status, io) =
      write (record { file = (rotate t d).active t; outcomes = (rotate t d).outcomes }) e in
    (status, written t (rotate t d) io)

store_as :
    (t : DataType) (e : Entry) (d : LightDb) (io : Io)
    → get_type e ≡ type_code t
    → write (record { file = (rotate t d).active t; outcomes = (rotate t d).outcomes }) e
      ≡ (k_ok, io)
    → store e d ≡ (k_ok, written t (rotate t d) io)
unfolding store
store_as t e d io h done =
    ap (store_at e d) (ap type_of h ∙ type_of-type_code t)
    ∙ ap (λ (r : Code × Io). (r.0, written t (rotate t d) r.1)) done

-- If the files of a type hold a log and the kernel fails no call, store of an entry of that type
-- that can be written and loaded returns kOk, and the files, after the rotation of a full active
-- file, hold the log with the entry behind it.
pub store-Stored :
    (t : DataType) (e : Entry) (d : LightDb) (log : List Entry)
    → get_type e ≡ type_code t
    → Writable e
    → Loadable e
    → Succeeds d.outcomes
    → LoggedAt t d log
    → Stored t (store e d) (log ++ e ∷ [])
store-Stored t e d log h w l s logged =
    let d1 = rotate t d in
    let r = rotate-Rotated t d log logged in
    let (io, done, file, left) =
      write-Succeeds (record { file = d1.active t; outcomes = d1.outcomes }) e w
        (subst Succeeds (sym (rotate-outcomes t d)) s) in
    let active : (written t d1 io).active t ≡ appended (d1.active t) (encode e) =
      set_at-same d1.active t io.file ∙ file in
    subst (λ x. Stored t x (log ++ e ∷ [])) (sym (store_as t e d io h done))
      (record {
        status = refl;
        logged =
            transport
              (λ i.
                Logged (sym (rotate-OnlyFiles t d).config i).block_size (d1.archived t)
                  (sym active i) (log ++ e ∷ []))
              (appended-Logged d.config.block_size (d1.archived t) (d1.active t) log e r.logged l
                r.room);
        succeeds = left;
      })

-- What `store` leaves when the active file is not longer than a block.
pub record Added (t : DataType) (e : Entry) (d : LightDb) (r : Code × LightDb) : Type 0 where
  pub status : r.0 ≡ k_ok
  pub active : r.1.active t ≡ appended (d.active t) (encode e)
  pub archived : r.1.archived t ≡ d.archived t

pub store-Added :
    (t : DataType) (e : Entry) (d : LightDb)
    → get_type e ≡ type_code t
    → Writable e
    → Succeeds d.outcomes
    → (d.active t).write_offset ≤ d.config.block_size
    → Added t e d (store e d)
unfolding rotate
store-Added t e d h w s room =
    let fits : ltb d.config.block_size (d.active t).write_offset ≡ false = ground (arith, room) in
    let stays : rotate t d ≡ d = if-false _ (moved t d) d fits in
    let d1 = rotate t d in
    let (io, done, file, left) =
      write-Succeeds (record { file = d1.active t; outcomes = d1.outcomes }) e w
        (subst Succeeds (sym (rotate-outcomes t d)) s) in
    subst (Added t e d) (sym (store_as t e d io h done)) (record {
      status = refl;
      active =
          set_at-same d1.active t io.file
          ∙ file
          ∙ ap (λ (x : LightDb). appended (x.active t) (encode e)) stays;
      archived = ap (λ (x : LightDb). x.archived t) stays;
    })
