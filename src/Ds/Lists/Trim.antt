-- ===== src/Ds/Lists/Trim.antt =====
-- `LTrim`: what its two branches leave.
use lightdb.Common.Int.{ℤ, pos, ◌+ℤ◌, ◌-ℤ◌}
use lightdb.Common.Map.{insert, assign, erase, find-insert, find-erase}
use lightdb.Common.{
  ℕ, zero, suc, ◌+◌, ◌-◌, ◌/◌, ◌≤◌, ◌<◌, ◌==◌, Str, length, take, drop, ltb, leb, ◌≡◌, refl, ap,
  ◌∙◌, List, [], ◌∷◌, ◌++◌, arith, if◌then◌else◌, Bool-cases, inl, inr, str_eq, str_eq_self,
  str_eq_iff,
}
use mathlib.Core.List.{append-nil, append_assoc}
use lightdb.Ds.Lists.{Lists, items, l_key_exist, l_trim, trim_small, trim_large, trim_loop}
use lightdb.Ds.Lists.Ends.{items-assign}
use lightdb.Ds.Lists.Range.{start_of, stop_of, stop_of_le, slice, in_range-slice, bounds-slice}

trim_small_zero :
    (e : ℕ) (xs out : List Str) → trim_small (pos 0) (pos e) (pos 0) xs out ≡ out ++ xs
unfolding trim_small
trim_small_zero e [] out = rw append-nil refl
trim_small_zero e (x ∷ xs) out =
    ground (arith, trim_small_zero e xs (out ++ x ∷ []), append_assoc out (x ∷ []) xs)

trim_small-suc :
    (s : ℕ) (e : ℤ) (xs out : List Str) → trim_small (pos (suc s)) e (pos 0) xs out ≡ out
unfolding trim_small
trim_small-suc s e [] out = refl
trim_small-suc s e (x ∷ xs) out = ground (arith, trim_small-suc s e xs out)

trim_large-take :
    (s e i n : ℕ) (xs : List Str)
    → s ≤ i
    → n ≡ suc e - i
    → trim_large (pos s) (pos e) i xs ≡ take n xs
unfolding trim_large
trim_large-take s e i zero [] h k = refl
trim_large-take s e i (suc n) [] h k = refl
trim_large-take s e i zero (x ∷ xs) h k = ground (arith, trim_large-take s e (suc i) zero xs)
trim_large-take s e i (suc n) (x ∷ xs) h k = ground (arith, trim_large-take s e (suc i) n xs)

trim_large-drop :
    (s e i k : ℕ) (xs : List Str)
    → s ≡ i + k
    → trim_large (pos s) (pos e) i xs ≡ trim_large (pos s) (pos e) s (drop k xs)
unfolding trim_large
trim_large-drop s e i zero xs h =
    let j : i ≡ s = omega arith in ap (λ m. trim_large (pos s) (pos e) m xs) j
trim_large-drop s e i (suc k) [] h = refl
trim_large-drop s e i (suc k) (x ∷ xs) h = ground (arith, trim_large-drop s e (suc i) k xs)

trim_large-slice :
    (s t : ℕ) (xs : List Str) → s < t → trim_large (pos s) (pos (t - 1)) 0 xs ≡ slice s t xs
trim_large-slice s t xs h =
    trim_large-drop s (t - 1) 0 s xs (omega arith)
    ∙ trim_large-take s (t - 1) s (t - s) (drop s xs) (omega arith) (omega arith)

-- What the first branch keeps of a list: all of it from the first position, else nothing.
abbrev pub small_trim : ℕ → List Str → List Str
small_trim s xs = if s == 0 then xs else []

trim_small-start :
    (s t : ℕ) (xs : List Str) → trim_small (pos s) (pos t) (pos 0) xs [] ≡ small_trim s xs
trim_small-start zero t xs = trim_small_zero t xs []
trim_small-start (suc s) t xs = ground (arith, trim_small-suc s (pos t) xs [])

-- The list that `LTrim` leaves between the positions `s` and `t`.
abbrev pub trimmed : ℕ → ℕ → List Str → List Str
trimmed s t xs =
    if leb t s then [] else if ltb (t - s) (length xs / 2) then small_trim s xs else slice s t xs

items-replaced :
    (r : Lists) (key k : Str) (xs : List Str)
    → items (insert (erase r key) key xs) k ≡ (if str_eq key k then xs else items r k)
items-replaced r key k xs = ground (
  arith,
  find-insert (erase r key) key k xs,
  find-erase r key k,
  find-erase r key key,
  str_eq_self key,
  str_eq_iff key k,
)

span_eq : (s t : ℕ) → s < t → pos (t - 1) -ℤ pos s +ℤ pos 1 ≡ pos (t - s)
unfolding ◌+ℤ◌ ◌-ℤ◌
span_eq s t h = ground arith

trim_loop_lem :
    (r : Lists) (key : Str) (s t : ℕ)
    → s < t
    → trim_loop r key (pos s, pos (t - 1)) ≡ (
        if ltb (t - s) (length (items r key) / 2)
        then insert (erase r key) key (small_trim s (items r key))
        else assign r key (slice s t (items r key)))
trim_loop_lem r key s t h = ground (
  arith,
  span_eq s t h,
  trim_small-start s (t - 1) (items r key),
  trim_large-slice s t (items r key) h,
)

items-trim_loop :
    (r : Lists) (key k : Str) (s t : ℕ)
    → s < t
    → items (trim_loop r key (pos s, pos (t - 1))) k
      ≡ (if str_eq key k then trimmed s t (items r key) else items r k)
items-trim_loop r key k s t h =
    let xs = items r key in
    ground (
      arith,
      trim_loop_lem r key s t h,
      items-replaced r key k (small_trim s xs),
      items-assign r key k (slice s t xs),
    )

-- `LTrim` succeeds exactly on a key that exists and leaves the other lists. Of its own list it
-- leaves the elements between the two offsets where these are at least half of the list, or none;
-- for a shorter range it leaves the whole list if the range begins at its head, and else nothing.
pub l_trim-trimmed :
    (r : Lists) (key : Str) (start end : ℤ) (k : Str)
    → ((l_trim r key start end).1 ≡ l_key_exist r key)
      × (items (l_trim r key start end).0 k ≡ (
          if str_eq key k
          then trimmed
              (start_of (length (items r key)) start)
              (stop_of (length (items r key)) end)
              (items r key)
          else items r k))
unfolding l_trim l_key_exist
l_trim-trimmed r key start end k =
    let xs = items r key in
    let s = start_of (length xs) start in
    let t = stop_of (length xs) end in
    (
      ground arith,
      elim (Bool-cases (leb t s)) [
        | inl e ↦ ground (
          arith,
          in_range-slice (length xs) start end,
          find-erase r key k,
          str_eq_iff key k,
          stop_of_le (length xs) end,
        )
        | inr e ↦ ground (
          arith,
          in_range-slice (length xs) start end,
          bounds-slice (length xs) start end (ground arith),
          stop_of_le (length xs) end,
          items-trim_loop r key k s t,
        )
      ],
    )
