-- ===== src/Ds/Hash/Buckets.antt =====
-- The bucket of each key after a write of `Hash`.
use lightdb.Common.Map.{
  Map, find, insert, assign, erase, find-assign, find-insert, find-erase, erase_absent, has,
}
use lightdb.Common.{
  Str, ◌≡◌, Option, none, some, true, false, [], arith, if◌then◌else◌, str_eq, str_eq_self,
  str_eq_iff,
}
use lightdb.Ds.Hash.{Hash, bucket, with_bucket, h_set, h_get, h_del, h_clear}

-- `h_get` in one expression.
unfoldable pub lookup : Option (Map Str) → Str → Option Str
lookup none f = none
lookup (some b) f = find b f

pub h_get-lookup : (h : Hash) (k f : Str) → h_get h k f ≡ lookup (find h k) f
unfolding h_get lookup
h_get-lookup h k f = ground arith

pub lookup-find_or : (h : Hash) (k f : Str) → lookup (find h k) f ≡ find (bucket h k) f
unfolding lookup find
lookup-find_or h k f = ground arith

bucket-with_bucket : (h : Hash) (key : Str) → bucket (with_bucket h key) key ≡ bucket h key
bucket-with_bucket h key = ground (arith, find-insert h key key [], str_eq_self key)

find-with_bucket :
    (h : Hash) (key k : Str)
    → find (with_bucket h key) k ≡ (if str_eq key k then some (bucket h key) else find h k)
find-with_bucket h key k = ground (arith, find-insert h key k [], str_eq_iff key k)

module _ (h : Hash) (key field k : Str) where
  pub find-h_set :
      (value : Str)
      → find (h_set h key field value).0 k
        ≡ (if str_eq key k then some (assign (bucket h key) field value) else find h k)
  unfolding h_set insert
  find-h_set value =
      let h1 = with_bucket h key in
      ground (
        arith,
        bucket-with_bucket h key,
        find-with_bucket h key k,
        find-assign h1 key k (assign (bucket h1 key) field value),
      )

  pub find-h_del : find (h_del h key field).0 k ≡ (elim (find h key) [
    | none ↦ find h k
    | some b ↦ elim (find b field) [
      | none ↦ find h k
      | some v ↦ if str_eq key k then some (erase b field) else find h k
    ]
  ])
  unfolding h_del
  find-h_del = ground (arith, find-assign h key k (erase (bucket h key) field))

pub find-h_clear :
    (h : Hash) (key k : Str) → find (h_clear h key).0 k ≡ (if str_eq key k then none else find h k)
unfolding h_clear
find-h_clear h key k = ground (arith, find-erase h key k, str_eq_iff key k)

module _ (h : Hash) (key field : Str) where
  pub h_set_result :
      (value : Str) → (h_set h key field value).1 ≡ (if has (bucket h key) field then 0 else 1)
  unfolding h_set
  h_set_result value = ground (arith, bucket-with_bucket h key)

  pub h_del_result : (h_del h key field).1 ≡ (if has (bucket h key) field then true else false)
  unfolding h_del find
  h_del_result = ground arith

  pub bucket-h_set :
      (value k : Str)
      → bucket (h_set h key field value).0 k
        ≡ (if str_eq key k then assign (bucket h key) field value else bucket h k)
  bucket-h_set value k = ground (arith, find-h_set h key field k value)

  pub bucket-h_del :
      (k : Str)
      → bucket (h_del h key field).0 k
        ≡ (if str_eq key k then erase (bucket h key) field else bucket h k)
  unfolding erase
  bucket-h_del k =
      ground (arith, find-h_del h key field k, str_eq_iff key k, erase_absent (bucket h key) field)

pub bucket-h_clear :
    (h : Hash) (key k : Str)
    → bucket (h_clear h key).0 k ≡ (if str_eq key k then [] else bucket h k)
bucket-h_clear h key k = ground (arith, find-h_clear h key k)
