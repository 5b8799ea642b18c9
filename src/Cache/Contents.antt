-- ===== src/Cache/Contents.antt =====
-- cache/lru.h: the pairs of key and value that a chain of nodes holds, most recent first.
use lightdb.Common.{
  ℕ, suc, Str, str_eq, str_eq_iff, false, if◌then◌else◌, List, [], ◌∷◌, ◌++◌, Option, none, some,
  ◌≡◌, refl, ap, ◌∙◌, arith, length, Bool-cases, str_eq_self, inl, inr,
}
use lightdb.Common.Map.{Map, find, erase, erase_absent, IsDistinct, find-erase, erase-IsDistinct}
use lightdb.Cache.{update}
use lightdb.Cache.Chain.{Off}

-- The node of a key.
unfoldable pub spot : (ℕ → Str) → Str → List ℕ → Option ℕ
spot key k [] = none
spot key k (x ∷ xs) = if str_eq (key x) k then some x else spot key k xs

unfoldable pub contents : (ℕ → Str) → (ℕ → Str) → List ℕ → Map Str
contents key value [] = []
contents key value (x ∷ xs) = (key x, value x) ∷ contents key value xs

module _ (key value : ℕ → Str) where
  pub find-contents :
      (k : Str) (xs : List ℕ)
      → find (contents key value xs) k
        ≡ elim (spot key k xs) [ none ↦ none | some p ↦ some (value p) ]
  unfolding find contents spot
  find-contents k [] = refl
  find-contents k (x ∷ xs) = ground (arith, find-contents k xs)

  pub length-contents : (xs : List ℕ) → length (contents key value xs) ≡ length xs
  unfolding contents
  length-contents [] = refl
  length-contents (x ∷ xs) = ground (arith, length-contents xs)

  -- Where the node of a key stands.
  pub spot_split :
      (k : Str) (p : ℕ) (xs : List ℕ)
      → spot key k xs ≡ some p
      → (ys : List ℕ) × (zs : List ℕ) × (xs ≡ ys ++ p ∷ zs) × (key p ≡ k)
  unfolding spot
  spot_split k p [] e = absurd (ground (arith, e))
  spot_split k p (x ∷ xs) e =
      let rest = spot_split k p xs in
      elim (Bool-cases (str_eq (key x) k)) [
        | inl h ↦ ([], xs, ground (arith, e, h), ground (arith, e, h, str_eq_iff (key x) k))
        | inr h ↦
            let (ys, zs, q, i) = rest (ground (arith, e, h)) in (x ∷ ys, zs, ap (λ l. x ∷ l) q, i)
      ]

  absent_key :
      (k : Str) (p : ℕ) (ys zs : List ℕ)
      → find (contents key value (ys ++ p ∷ zs)) k ≡ none
      → str_eq (key p) k ≡ false
  unfolding find contents
  absent_key k p [] zs e = ground (arith, e)
  absent_key k p (y ∷ ys) zs e = ground (arith, e, absent_key k p ys zs)

  -- The chain without a node.
  pub erase-contents :
      (p : ℕ) (ys zs : List ℕ)
      → IsDistinct (contents key value (ys ++ p ∷ zs))
      → erase (contents key value (ys ++ p ∷ zs)) (key p) ≡ contents key value (ys ++ zs)
  unfolding contents erase
  erase-contents p [] zs d =
      rw (str_eq_self (key p)) (erase_absent (contents key value zs) (key p) d.0)
  erase-contents p (y ∷ ys) zs d = ground (
    arith,
    erase-contents p ys zs d.1,
    absent_key (key y) p ys zs d.0,
    str_eq_iff (key y) (key p),
    str_eq_iff (key p) (key y),
  )

  pub spot-join :
      (j : Str) (p : ℕ) (ys zs : List ℕ)
      → IsDistinct (contents key value (ys ++ p ∷ zs))
      → spot key j (ys ++ p ∷ zs) ≡ (if str_eq (key p) j then some p else spot key j (ys ++ zs))
  unfolding contents spot
  spot-join j p [] zs d = refl
  spot-join j p (y ∷ ys) zs d = ground (
    arith,
    spot-join j p ys zs d.1,
    absent_key (key y) p ys zs d.0,
    str_eq_iff (key y) j,
    str_eq_iff (key p) j,
    str_eq_iff (key p) (key y),
  )

  pub IsDistinct-join :
      (p : ℕ) (ys zs : List ℕ)
      → IsDistinct (contents key value (ys ++ p ∷ zs))
      → IsDistinct (contents key value (ys ++ zs))
        × (find (contents key value (ys ++ zs)) (key p) ≡ none)
  IsDistinct-join p ys zs d = rw (← erase-contents p ys zs d) (
    erase-IsDistinct (contents key value (ys ++ p ∷ zs)) (key p) d,
    find-erase (contents key value (ys ++ p ∷ zs)) (key p) (key p) ∙ rw (str_eq_self (key p)) refl,
  )

pub length-join : (p : ℕ) (ys zs : List ℕ) → length (ys ++ p ∷ zs) ≡ suc (length (ys ++ zs))
length-join p [] zs = refl
length-join p (y ∷ ys) zs = ground (arith, length-join p ys zs)

-- A change at a node off the chain.
pub contents-update_value :
    (key value : ℕ → Str) (p : ℕ) (v : Str) (xs : List ℕ)
    → Off p xs
    → contents key (update value p v) xs ≡ contents key value xs
unfolding contents
contents-update_value key value p v [] o = refl
contents-update_value key value p v (x ∷ xs) o =
    ground (arith, contents-update_value key value p v xs o.1, o.0)

pub contents-update_key :
    (key value : ℕ → Str) (p : ℕ) (k : Str) (xs : List ℕ)
    → Off p xs
    → contents (update key p k) value xs ≡ contents key value xs
unfolding contents
contents-update_key key value p k [] o = refl
contents-update_key key value p k (x ∷ xs) o =
    ground (arith, contents-update_key key value p k xs o.1, o.0)

pub spot-update_key :
    (key : ℕ → Str) (p : ℕ) (k j : Str) (xs : List ℕ)
    → Off p xs
    → spot (update key p k) j xs ≡ spot key j xs
unfolding spot
spot-update_key key p k j [] o = refl
spot-update_key key p k j (x ∷ xs) o = ground (arith, spot-update_key key p k j xs o.1, o.0)
