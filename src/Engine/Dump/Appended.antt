-- ===== src/Engine/Dump/Appended.antt =====
-- dump.cpp: maps that grow at their end.
use lightdb.Common.Map.{Map, find, assign, insert, IsDistinct}
use lightdb.Ds.Hash.{Hash, with_bucket, bucket, h_set}
use lightdb.Common.{
  Str, str_eq, str_eq_self, str_eq_iff, false, Option, none, some, [], ◌∷◌, ◌++◌, ◌≡◌, refl, ap,
  ◌∙◌, arith,
}

module _ {ℓ} {V : Type ℓ} where
  pub assign_new : (m : Map V) (k : Str) (v : V) → find m k ≡ none → assign m k v ≡ m ++ (k, v) ∷ []
  unfolding assign find
  assign_new [] k v h = refl
  assign_new ((i, w) ∷ m) k v h = ground (arith, h, assign_new m k v)

  pub assign_last :
      (m : Map V) (k : Str) (v w : V)
      → find m k ≡ none
      → assign (m ++ (k, v) ∷ []) k w ≡ m ++ (k, w) ∷ []
  unfolding assign find
  assign_last [] k v w h = rw (str_eq_self k) refl
  assign_last ((i, u) ∷ m) k v w h = ground (arith, h, assign_last m k v w)

  pub find_last :
      (m r : Map V) (k : Str) (v : V) → find m k ≡ none → find (m ++ (k, v) ∷ r) k ≡ some v
  unfolding find
  find_last [] r k v h = rw (str_eq_self k) refl
  find_last ((i, u) ∷ m) r k v h = ground (arith, h, find_last m r k v)

  find_tail :
      (m r : Map V) (k : Str) (v : V) (i : Str)
      → find (m ++ (k, v) ∷ r) i ≡ none
      → str_eq k i ≡ false
  unfolding find
  find_tail [] r k v i h = ground (arith, h)
  find_tail ((j, u) ∷ m) r k v i h = ground (arith, h, find_tail m r k v i)

  -- The keys before a key of a map without double keys are others.
  pub find_before : (m r : Map V) (k : Str) (v : V) → IsDistinct (m ++ (k, v) ∷ r) → find m k ≡ none
  unfolding find
  find_before [] r k v d = refl
  find_before ((i, u) ∷ m) r k v (n, d) =
      ground (arith, find_tail m r k v i n, str_eq_iff k i, str_eq_iff i k, find_before m r k v d)

h_set-assign :
    (h : Hash) (key field value : Str)
    → (h_set h key field value).0
      ≡ assign (with_bucket h key) key (assign (bucket (with_bucket h key) key) field value)
unfolding h_set insert
h_set-assign h key field value = ground arith

-- A write under the last key.
h_set_last :
    (h done : Hash) (key field value : Str) (ms : Map Str)
    → find done key ≡ none
    → with_bucket h key ≡ done ++ (key, ms) ∷ []
    → find ms field ≡ none
    → (h_set h key field value).0 ≡ done ++ (key, ms ++ (field, value) ∷ []) ∷ []
h_set_last h done key field value ms fresh e new =
    let b : bucket (done ++ (key, ms) ∷ []) key ≡ ms =
      ap (λ (o : Option (Map Str)). elim o [ none ↦ [] | some v ↦ v ])
        (find_last done [] key ms fresh) in
    h_set-assign h key field value
    ∙ ap (λ r. assign r key (assign (bucket r key) field value)) e
    ∙ ap (λ m. assign (done ++ (key, ms) ∷ []) key (assign m field value)) b
    ∙ ap (assign (done ++ (key, ms) ∷ []) key) (assign_new ms field value new)
    ∙ assign_last done key ms (ms ++ (field, value) ∷ []) fresh

with_bucket_new : (h : Hash) (key : Str) → find h key ≡ none → with_bucket h key ≡ assign h key []
unfolding insert
with_bucket_new h key e = ground (arith, e)

with_bucket_old : (h : Hash) (key : Str) (m : Map Str) → find h key ≡ some m → with_bucket h key ≡ h
with_bucket_old h key m e = ground (arith, e)

module _ (done : Hash) (key field value : Str) (fresh : find done key ≡ none) where
  -- The first field of a key that is not there.
  pub h_set_first : (h_set done key field value).0 ≡ done ++ (key, (field, value) ∷ []) ∷ []
  unfolding find
  h_set_first =
      h_set_last done done key field value [] fresh
        (with_bucket_new done key fresh ∙ assign_new done key [] fresh) refl

  -- A further field of the last key.
  pub h_set_next :
      (ms : Map Str)
      → find ms field ≡ none
      → (h_set (done ++ (key, ms) ∷ []) key field value).0
        ≡ done ++ (key, ms ++ (field, value) ∷ []) ∷ []
  h_set_next ms new =
      h_set_last (done ++ (key, ms) ∷ []) done key field value ms fresh
        (with_bucket_old (done ++ (key, ms) ∷ []) key ms (find_last done [] key ms fresh)) new
