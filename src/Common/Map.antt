-- ===== src/Common/Map.antt =====
-- `std::unordered_map` with string keys, as an association list. The standard leaves the order of
-- iteration open; here it is the order of first insertion.
use lightdb.Common.Lists.{length}
use lightdb.Common.Tests.{if◌then◌else◌, Bool-cases}
use lightdb.Common.Text.{Str, str_eq, str_eq_iff}
use Prim.Native.Nat.{◌+◌}
use mathlib.Core.Bool.{Bool, true, false}
use mathlib.Core.List.{List, [], ◌∷◌}
use mathlib.Core.Logic.{inl, inr}
use mathlib.Core.Option.{Option, none, some}
use mathlib.Core.Path.{◌≡◌, refl}
use native.Mathlib.Omega.{arith}

abbrev pub Map {ℓ} : Type ℓ → Type ℓ
Map V = List (Str × V)

module _ {ℓ} {V : Type ℓ} where
  unfoldable pub find : Map V → Str → Option V
  find [] k = none
  find ((j, v) ∷ m) k = if str_eq j k then some v else find m k

  -- `m[k] = v`
  unfoldable pub assign : Map V → Str → V → Map V
  assign [] k v = (k, v) ∷ []
  assign ((j, w) ∷ m) k v = if str_eq j k then (j, v) ∷ m else (j, w) ∷ assign m k v

  -- `m.erase(k)`
  unfoldable pub erase : Map V → Str → Map V
  erase [] k = []
  erase ((j, v) ∷ m) k = let rest = erase m k in if str_eq j k then rest else (j, v) ∷ rest

  -- `m.find(k) != m.end()`
  abbrev pub has : Map V → Str → Bool
  has m k = elim (find m k) [ none ↦ false | some v ↦ true ]

  -- `m.insert({k, v})`, which leaves a present key alone
  unfoldable pub insert : Map V → Str → V → Map V
  insert m k v = if has m k then m else assign m k v

  -- `m[k]` as a value: a missing key is read as a default, which `touch` writes
  abbrev pub find_or : Map V → Str → V → V
  find_or m k d = elim (find m k) [ none ↦ d | some v ↦ v ]

  pub find-assign :
      (m : Map V) (k j : Str) (v : V)
      → find (assign m k v) j ≡ (if str_eq k j then some v else find m j)
  unfolding find assign
  find-assign [] k j v = refl
  find-assign ((i, w) ∷ m) k j v =
      ground (arith, find-assign m k j v, str_eq_iff i k, str_eq_iff i j, str_eq_iff k j)

  pub find-erase :
      (m : Map V) (k j : Str) → find (erase m k) j ≡ (if str_eq k j then none else find m j)
  unfolding find erase
  find-erase [] k j = ground arith
  find-erase ((i, w) ∷ m) k j =
      ground (arith, find-erase m k j, str_eq_iff i k, str_eq_iff i j, str_eq_iff k j)

  pub find-insert :
      (m : Map V) (k j : Str) (v : V)
      → find (insert m k v) j ≡ (if str_eq k j then some (find_or m k v) else find m j)
  unfolding insert
  find-insert m k j v = ground (arith, find-assign m k j v, str_eq_iff k j)

  -- No key twice, as in every `std::unordered_map`.
  abbrev pub IsDistinct : Map V → Type ℓ
  IsDistinct [] = Unit
  IsDistinct ((k, v) ∷ m) = (find m k ≡ none) × IsDistinct m

  pub assign-IsDistinct : (m : Map V) (k : Str) (v : V) → IsDistinct m → IsDistinct (assign m k v)
  unfolding assign find
  assign-IsDistinct [] k v h = (refl, tt)
  assign-IsDistinct ((i, w) ∷ m) k v h = elim (Bool-cases (str_eq i k)) [
    | inl e ↦ rw e h
    | inr e ↦ rw e (
      ground (arith, find-assign m k i v, str_eq_iff k i, str_eq_iff i k),
      assign-IsDistinct m k v h.1,
    )
  ]

  pub erase-IsDistinct : (m : Map V) (k : Str) → IsDistinct m → IsDistinct (erase m k)
  unfolding erase find
  erase-IsDistinct [] k h = tt
  erase-IsDistinct ((i, w) ∷ m) k h = elim (Bool-cases (str_eq i k)) [
    | inl e ↦ rw e (erase-IsDistinct m k h.1)
    | inr e ↦ rw e (ground (arith, find-erase m k i), erase-IsDistinct m k h.1)
  ]

  pub insert-IsDistinct : (m : Map V) (k : Str) (v : V) → IsDistinct m → IsDistinct (insert m k v)
  unfolding insert
  insert-IsDistinct m k v h = elim (Bool-cases (has m k)) [
    | inl e ↦ rw e h
    | inr e ↦ rw e (assign-IsDistinct m k v h)
  ]

  pub length-assign :
      (m : Map V) (k : Str) (v : V)
      → length (assign m k v) ≡ (if has m k then length m else length m + 1)
  unfolding assign find
  length-assign [] k v = omega arith
  length-assign ((i, w) ∷ m) k v = ground (arith, length-assign m k v)

  pub length-insert :
      (m : Map V) (k : Str) (v : V)
      → length (insert m k v) ≡ (if has m k then length m else length m + 1)
  unfolding insert
  length-insert m k v = ground (arith, length-assign m k v)

  pub erase_absent : (m : Map V) (k : Str) → find m k ≡ none → erase m k ≡ m
  unfolding erase find
  erase_absent [] k h = refl
  erase_absent ((i, w) ∷ m) k h = ground (arith, erase_absent m k)

  pub length-erase :
      (m : Map V) (k : Str)
      → IsDistinct m
      → length (erase m k) + (if has m k then 1 else 0) ≡ length m
  unfolding erase find
  length-erase [] k h = omega arith
  length-erase ((i, w) ∷ m) k h =
      ground (arith, length-erase m k h.1, erase_absent m k, str_eq_iff i k)

  assign_found : (m : Map V) (k : Str) (v : V) → find m k ≡ some v → assign m k v ≡ m
  unfolding assign find
  assign_found [] k v h = ground arith
  assign_found ((i, w) ∷ m) k v h = ground (arith, assign_found m k v)

  -- Writing back the value that is there.
  pub assign_same : (m : Map V) (k : Str) (d : V) → has m k ≡ true → assign m k (find_or m k d) ≡ m
  assign_same m k d h = same (find m k) refl
    where
      same : (o : Option V) → find m k ≡ o → assign m k (find_or m k d) ≡ m
      same none e = ground (arith, e, h)
      same (some v) e = rw (find_or, e) (assign_found m k v e)
