-- ===== src/Raft/Splice.antt =====
-- raft/raft.h: the truncation and the append in `AppendEntries`.
use lightdb.Common.Int.{ℤ, eq_ℤ, eq_ℤ_iff, pos, negsuc}
use lightdb.Common.{
  if-true, if-false, some, zero, suc, take, drop, List, [], ◌∷◌, ◌++◌, ◌≡◌, refl, Bool-cases, inl,
  inr, ℕ, ◌+◌, some, ◌≤◌, suc, length, arith, ap, leb, sym, ◌∙◌,
}
use mathlib.Core.Option.{some-injective}
use mathlib.Core.List.{append_assoc}
use lightdb.Raft.State.{LogEntry}
use lightdb.Raft.Append.{matching, spliced}

abbrev pub terms : List LogEntry → List ℤ
terms [] = []
terms (e ∷ es) = e.term ∷ terms es

-- The entries that the walk keeps have the terms of those that it skips.
matching-terms :
    (logs entries : List LogEntry)
    → terms (take (matching logs entries) logs ++ drop (matching logs entries) entries)
      ≡ terms entries
unfolding matching
matching-terms [] entries = refl
matching-terms (e ∷ es) [] = refl
matching-terms (e ∷ es) (f ∷ fs) = elim (Bool-cases (eq_ℤ e.term f.term)) [
  | inl same ↦ rw same (λ i. (eq_ℤ_iff e.term f.term).0 same i ∷ matching-terms es fs i)
  | inr other ↦ rw other refl
]

suc_+ : (i j : ℕ) → suc i + j ≡ suc (i + j)
suc_+ i j = omega arith

take-+ : (i j : ℕ) (xs : List LogEntry) → take (i + j) xs ≡ take i xs ++ take j (drop i xs)
take-+ zero j xs = ap (λ n. take n xs) (omega arith)
take-+ (suc i) zero [] = ap (λ n. take n []) (suc_+ i zero)
take-+ (suc i) (suc j) [] = ap (λ n. take n []) (suc_+ i (suc j))
take-+ (suc i) j (x ∷ xs) = ap (λ n. take n (x ∷ xs)) (suc_+ i j) ∙ ap (λ t. x ∷ t) (take-+ i j xs)

-- `logs` is the first i entries of `before`, then entries with the terms of `entries`.
abbrev pub Follows : ℤ → List LogEntry → List LogEntry → List LogEntry → Type 0
Follows i before entries logs =
    (n : ℕ) × (tail : List LogEntry) × (i ≡ pos n)
    × (n ≤ length before)
    × (logs ≡ take n before ++ tail)
    × (terms tail ≡ terms entries)

pub spliced-Follows :
    (before : List LogEntry) (i : ℤ) (entries logs : List LogEntry)
    → spliced before i entries ≡ some logs
    → Follows i before entries logs
unfolding spliced
spliced-Follows before (negsuc i) entries logs h = absurd (ground (arith, h))
spliced-Follows before (pos i) entries logs h =
    let j = matching (drop i before) entries in
    elim (Bool-cases (leb i (length before))) [
      | inl fits ↦ (
        i,
        take j (drop i before) ++ drop j entries,
        refl,
        ground (arith, fits),
        some-injective _ _ (sym h ∙ if-true _ _ _ fits)
            ∙ ap (λ t. t ++ drop j entries) (take-+ i j before)
            ∙ append_assoc (take i before) (take j (drop i before)) (drop j entries),
        matching-terms (drop i before) entries,
      )
      | inr outside ↦ absurd (cc (h, if-false _ _ _ outside))
    ]
