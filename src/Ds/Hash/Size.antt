-- ===== src/Ds/Hash/Size.antt =====
-- Counts: what `Hash` returns and what `HLen` and the listings say.
use lightdb.Common.Map.{
  Map, assign, erase, IsDistinct, length-assign, length-erase, assign-IsDistinct, erase-IsDistinct,
}
use lightdb.Common.{
  ◌+◌, ◌*◌, Str, ◌≡◌, true, false, List, [], ◌∷◌, ◌++◌, arith, length, length-append, if◌then◌else◌,
  str_eq, str_eq_self,
}
use lightdb.Ds.Hash.{Hash, bucket, h_key_exist, h_set, h_del, h_len, h_get_all, h_clear, push_all}
use lightdb.Ds.Hash.Buckets.{bucket-h_set, bucket-h_del, bucket-h_clear, h_set_result, h_del_result}

-- No key and no field twice, as in every `std::unordered_map`.
pub record IsValid (h : Hash) : Type 0 where
  pub buckets : (k : Str) → IsDistinct (bucket h k)

pub h_len-bucket : (h : Hash) (k : Str) → h_len h k ≡ length (bucket h k)
unfolding h_len h_key_exist
h_len-bucket h k = ground arith

module _ (h : Hash) (key field : Str) where
  -- `HSet` returns 1 exactly when the key gains a field.
  pub h_len-h_set :
      (value : Str)
      → h_len (h_set h key field value).0 key ≡ h_len h key + (h_set h key field value).1
  h_len-h_set value = ground (
    arith,
    h_len-bucket (h_set h key field value).0 key,
    h_len-bucket h key,
    bucket-h_set h key field value key,
    h_set_result h key field value,
    str_eq_self key,
    length-assign (bucket h key) field value,
  )

  pub h_set-IsValid : (value : Str) → IsValid h → IsValid (h_set h key field value).0
  h_set-IsValid value v = record {
    buckets = λ k.
        rw bucket-h_set
          (elim (str_eq key k)
            as (λ b. IsDistinct (if b then assign (bucket h key) field value else bucket h k)) [
              | true ↦ assign-IsDistinct (bucket h key) field value (v.buckets key)
              | false ↦ v.buckets k
            ]);
  }

  pub h_del-IsValid : IsValid h → IsValid (h_del h key field).0
  h_del-IsValid v = record {
    buckets = λ k.
        rw bucket-h_del
          (elim (str_eq key k)
            as (λ b. IsDistinct (if b then erase (bucket h key) field else bucket h k)) [
              | true ↦ erase-IsDistinct (bucket h key) field (v.buckets key)
              | false ↦ v.buckets k
            ]);
  }

  -- On a hash in which no key has a field twice, `HDel` reports true exactly when the key loses a
  -- field.
  pub h_len-h_del :
      IsValid h
      → h_len (h_del h key field).0 key + (if (h_del h key field).1 then 1 else 0) ≡ h_len h key
  h_len-h_del v = ground (
    arith,
    h_len-bucket (h_del h key field).0 key,
    h_len-bucket h key,
    bucket-h_del h key field key,
    h_del_result h key field,
    str_eq_self key,
    length-erase (bucket h key) field (v.buckets key),
  )

pub h_clear-IsValid : (h : Hash) (key : Str) → IsValid h → IsValid (h_clear h key).0
h_clear-IsValid h key v = record {
  buckets = λ k.
      rw bucket-h_clear (elim (str_eq key k) as (λ b. IsDistinct (if b then [] else bucket h k)) [
        | true ↦ tt
        | false ↦ v.buckets k
      ]);
}

-- `HClear` returns the number of fields that it drops.
pub h_clear_result : (h : Hash) (key : Str) → (h_clear h key).1 ≡ h_len h key
unfolding h_clear h_len
h_clear_result h key = ground arith

length-push_all :
    (m : Map Str) (res : List Str) → length (push_all m res) ≡ length res + 2 * length m
unfolding push_all
length-push_all [] res = omega arith
length-push_all ((f, v) ∷ m) res = omega (
  arith,
  length-push_all m ((res ++ f ∷ []) ++ v ∷ []),
  length-append {0} (res ++ f ∷ []) (v ∷ []),
  length-append {0} res (f ∷ []),
)

-- The reply of `HGetAll` is twice as long as the hash.
pub length-h_get_all : (h : Hash) (key : Str) → length (h_get_all h key []).1 ≡ 2 * h_len h key
unfolding h_get_all h_key_exist
length-h_get_all h key = ground (arith, length-push_all (bucket h key) [], h_len-bucket h key)
