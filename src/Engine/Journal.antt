-- ===== src/Engine/Journal.antt =====
-- lightdb.cpp: an index of the database is what its stored entries replay to.
pub mod Part
pub mod Recovery
pub mod Boundary
use lightdb.Storage.Entry.{
  DataType, OperationType, Entry, size, get_type, type_code, new_entry_now, new_entry_with_expire,
  encode,
}
use lightdb.Storage.Entry.RoundTrip.{length-encode, new_entry_now-Fits, get_type-new_entry_now}
use lightdb.Storage.Status.{k_ok}
use lightdb.Storage.File.Transfer.{Succeeds}
use lightdb.Storage.File.Written.{Writable}
use lightdb.Engine.State.{LightDb, store}
use lightdb.Engine.Index.{is_empty_key}
use lightdb.Engine.Index.Indexed.{Loadable, replay, replay-append}
use lightdb.Engine.Store.{LoggedAt, store-OnlyFiles, store-Stored}
use lightdb.Common.{
  ℕ, ◌^◌, ◌<◌, Str, length, false, List, [], ◌∷◌, ◌++◌, ◌≡◌, refl, sym, ap, ◌∙◌, arith,
}

-- An entry that `store` can write to the files of a type and a load brings back.
pub record Good (t : DataType) (e : Entry) : Type 0 where
  pub type : get_type e ≡ type_code t
  pub writable : Writable e
  pub loadable : Loadable e

has_key_lem : (key : Str) → 0 < length key → is_empty_key key ≡ false
has_key_lem [] h = absurd (omega arith)
has_key_lem (c ∷ key) h = refl

-- Strings of less than a gigabyte make a good entry.
pub new_entry_now-Good :
    (t : DataType) (mark : OperationType) (now : ℕ) (key value extra : Str)
    → now < 2 ^ 64
    → 0 < length key
    → length key < 2 ^ 30
    → length value < 2 ^ 30
    → length extra < 2 ^ 30
    → Good t (new_entry_now now key value extra t mark)
unfolding new_entry_now size
new_entry_now-Good t mark now key value extra h p k v x =
    let fits =
      new_entry_now-Fits now key value extra t mark h (omega arith) (omega arith) (omega arith) in
    let short : length (encode (new_entry_now now key value extra t mark)) < 2 ^ 32 =
      omega (arith, length-encode (new_entry_now now key value extra t mark) fits) in
    record {
      type = (get_type-new_entry_now now key value extra t mark).0;
      writable = (fits, short);
      loadable = record { fits = fits; sized = short; has_key = has_key_lem key p };
    }

pub new_entry_with_expire-Good :
    (t : DataType) (mark : OperationType) (deadline : ℕ) (key : Str)
    → deadline < 2 ^ 64
    → 0 < length key
    → length key < 2 ^ 30
    → Good t (new_entry_with_expire key [] deadline t mark)
unfolding new_entry_with_expire new_entry_now
new_entry_with_expire-Good t mark deadline key h p k =
    new_entry_now-Good t mark deadline key [] [] h p k (omega arith) (omega arith)

-- The files of a type hold a log, on a kernel that fails no call; keys and values are less than a
-- gigabyte long and the clock is a `uint64_t`.
pub record Filed (t : DataType) (d : LightDb) (log : List Entry) : Type 0 where
  pub logged : LoggedAt t d log
  pub succeeds : Succeeds d.outcomes
  pub keys : d.config.max_key_size < 2 ^ 30
  pub values : d.config.max_value_size < 2 ^ 30
  pub times : (n : ℕ) → d.clock n < 2 ^ 64

pub store-Filed :
    (t : DataType) (e : Entry) (d : LightDb) (log : List Entry)
    → Good t e
    → Filed t d log
    → ((store e d).0 ≡ k_ok) × Filed t (store e d).1 (log ++ e ∷ [])
store-Filed t e d log g f =
    let s = store-Stored t e d log g.type g.writable g.loadable f.succeeds f.logged in
    let o = store-OnlyFiles e d in
    (
      s.status,
      record {
        logged = s.logged;
        succeeds = s.succeeds;
        keys = rw o.config f.keys;
        values = rw o.config f.values;
        times = rw o.clock f.times;
      },
    )
