-- ===== src/Ds/Hash/View.antt =====
-- What a client reads after each operation of `Hash`.
use lightdb.Common.Map.{find, find-assign, find-insert, find-erase}
use lightdb.Common.{
  Str, ◌≡◌, true, false, none, some, [], arith, if◌then◌else◌, str_eq, str_eq_iff, str_eq_self,
}
use lightdb.Ds.Hash.{Hash, bucket, h_set, h_set_nx, h_get, h_del, h_exist, h_clear}
use lightdb.Ds.Hash.Buckets.{lookup, h_get-lookup, find-h_set, find-h_del, find-h_clear}

module _ (h : Hash) (key field k f : Str) where
  -- After `HSet` the field reads as the new value, and every other field of every key as before.
  pub h_get-h_set :
      (value : Str)
      → h_get (h_set h key field value).0 k f ≡ (
          if str_eq key k
          then (if str_eq field f then some value else h_get h k f)
          else h_get h k f)
  unfolding lookup find
  h_get-h_set value = ground (
    arith,
    h_get-lookup (h_set h key field value).0 k f,
    h_get-lookup h k f,
    find-h_set h key field k value,
    find-assign (bucket h key) field f value,
    str_eq_iff key k,
  )

  pub h_get-h_del :
      h_get (h_del h key field).0 k f
      ≡ (if str_eq key k then (if str_eq field f then none else h_get h k f) else h_get h k f)
  unfolding lookup
  h_get-h_del = ground (
    arith,
    h_get-lookup (h_del h key field).0 k f,
    h_get-lookup h k f,
    find-h_del h key field k,
    find-erase (bucket h key) field f,
    str_eq_iff key k,
    str_eq_iff field f,
  )

pub h_get-h_clear :
    (h : Hash) (key k f : Str)
    → h_get (h_clear h key).0 k f ≡ (if str_eq key k then none else h_get h k f)
unfolding lookup
h_get-h_clear h key k f =
    ground (arith, h_get-lookup (h_clear h key).0 k f, h_get-lookup h k f, find-h_clear h key k)

module _ (h : Hash) (key field : Str) where
  pub h_exist-h_get :
      h_exist h key field ≡ (elim (h_get h key field) [ none ↦ false | some v ↦ true ])
  unfolding h_exist h_get
  h_exist-h_get = ground arith

  -- `HSetNx` is `HSet` on a field that is not there, and nothing on one that is.
  pub h_set_nx-h_set :
      (value : Str)
      → h_set_nx h key field value
        ≡ (if h_exist h key field then (h, false) else ((h_set h key field value).0, true))
  unfolding h_set_nx h_exist h_set find
  h_set_nx-h_set value = ground (arith, find-insert h key key [], str_eq_self key)
