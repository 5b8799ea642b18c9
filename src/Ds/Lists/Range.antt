-- ===== src/Ds/Lists/Range.antt =====
-- `LRange`: the normalised bounds and the slice.
use lightdb.Common.Int.{ℤ, pos, ◌+ℤ◌, ltb_ℤ, ◌-ℤ◌, negsuc, pos_part}
use lightdb.Common.{
  ℕ, zero, suc, ◌+◌, ◌-◌, ◌≤◌, Str, length, take, drop, ◌≡◌, refl, ap, some, List, [], ◌∷◌, ◌++◌,
  arith, if◌then◌else◌, ltb, leb, ◌<◌, true, length-drop, false, Bool-cases, inl, inr,
}
use mathlib.Core.List.{append-nil, append_assoc}
use lightdb.Ds.Lists.{
  handle_index, skip, push_range, range_loop, out_of_range, Lists, l_range, items, l_key_exist,
}

-- The first and the last position that two offsets stand for: a negative one counts from the end.
abbrev pub start_of : ℕ → ℤ → ℕ
start_of len (pos n) = n
start_of len (negsuc n) = len - (n + 1)

-- The number of positions up to the end offset, its own included.
abbrev pub stop_of : ℕ → ℤ → ℕ
stop_of len (pos n) = if ltb n len then n + 1 else len
stop_of len (negsuc n) = len - n

-- `handleIndex` yields the start, and a last position that is one before the stop.
pub handle_index_lem :
    (len : ℕ) (start end : ℤ)
    → ((handle_index len start end).0 ≡ pos (start_of len start))
      × (ltb_ℤ (handle_index len start end).1 (pos (start_of len start))
          ≡ leb (stop_of len end) (start_of len start))
      × (start_of len start < stop_of len end
          → (handle_index len start end).1 ≡ pos (stop_of len end - 1))
unfolding handle_index ◌+ℤ◌ ◌-ℤ◌
handle_index_lem len start end = (ground arith, ground arith, (λ h. ground arith))

pub stop_of_le : (len : ℕ) (end : ℤ) → stop_of len end ≤ len
stop_of_le len (pos n) = ground arith
stop_of_le len (negsuc n) = omega arith

-- The positions from `s` up to but without `t`.
abbrev pub slice : ℕ → ℕ → List Str → List Str
slice s t xs = take (t - s) (drop s xs)

skip-drop : (n : ℕ) (xs : List Str) → n ≤ length xs → skip n xs ≡ some (drop n xs)
unfolding skip
skip-drop zero xs h = refl
skip-drop (suc n) [] h = absurd (omega arith)
skip-drop (suc n) (x ∷ xs) h = skip-drop n xs (omega arith)

push_range-take :
    (n : ℕ) (xs vals : List Str) → n ≤ length xs → push_range n xs vals ≡ some (vals ++ take n xs)
unfolding push_range
push_range-take zero xs vals h = rw append-nil refl
push_range-take (suc n) [] vals h = absurd (omega arith)
push_range-take (suc n) (x ∷ xs) vals h =
    rw (push_range-take n xs (vals ++ x ∷ []) (omega arith))
      (ap some (append_assoc vals (x ∷ []) (take n xs)))

pub span : (s t : ℕ) → s < t → pos_part (pos (t - 1) -ℤ pos s +ℤ pos 1) ≡ t - s
unfolding ◌+ℤ◌ ◌-ℤ◌
span s t h = ground arith

range_loop-slice :
    (s t : ℕ) (xs vals : List Str)
    → s < t
    → t ≤ length xs
    → range_loop xs vals (pos s, pos (t - 1)) ≡ some (true, vals ++ slice s t xs)
range_loop-slice s t xs vals h k = ground (
  arith,
  skip-drop s xs,
  span s t,
  push_range-take (t - s) (drop s xs) vals,
  length-drop {0} s xs,
)

-- The tests that follow `handleIndex`: there is something to return.
pub in_range-slice :
    (len : ℕ) (start end : ℤ)
    → out_of_range len (handle_index len start end) ≡ leb (stop_of len end) (start_of len start)
in_range-slice len start end = ground (arith, handle_index_lem len start end, stop_of_le len end)

pub bounds-slice :
    (len : ℕ) (start end : ℤ)
    → start_of len start < stop_of len end
    → handle_index len start end ≡ (pos (start_of len start), pos (stop_of len end - 1))
bounds-slice len start end h =
    ground (arith, handle_index_lem len start end, (handle_index_lem len start end).2 h)

-- `LRange` never steps outside the list. It returns the elements between the two offsets, both
-- included, and fails without a change where there are none.
pub l_range-slice :
    (r : Lists) (key : Str) (start end : ℤ) (vals : List Str)
    → l_range r key start end vals
      ≡ some (
          if leb (stop_of (length (items r key)) end) (start_of (length (items r key)) start)
          then (false, vals)
          else (
            true,
            vals
                ++ slice
                    (start_of (length (items r key)) start)
                    (stop_of (length (items r key)) end)
                    (items r key),
          ))
unfolding l_range l_key_exist
l_range-slice r key start end vals =
    let xs = items r key in
    let s = start_of (length xs) start in
    let t = stop_of (length xs) end in
    elim (Bool-cases (leb t s)) [
      | inl e ↦ rw e (ground (arith, in_range-slice (length xs) start end))
      | inr e ↦ ground (
        arith,
        in_range-slice (length xs) start end,
        bounds-slice (length xs) start end (ground arith),
        stop_of_le (length xs) end,
        range_loop-slice s t xs vals,
      )
    ]
