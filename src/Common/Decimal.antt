-- ===== src/Common/Decimal.antt =====
-- `std::to_string` of an `int`, and its digits.
use lightdb.Common.Int.{ℤ, pos, negsuc}
use lightdb.Common.Tests.{ltb, leb, if◌then◌else◌, Bool-cases}
use lightdb.Common.Text.{Str}
use Prim.Native.Nat.{ℕ, zero, suc, ◌+◌, ◌-◌, ◌*◌, ◌/◌, ◌%◌, ◌≤◌, ◌<◌}
use mathlib.Core.Bool.{Bool, true, false, ◌&&◌}
use mathlib.Core.List.{[], ◌∷◌, ◌++◌}
use mathlib.Core.Logic.{inl, inr}
use mathlib.Core.Path.{◌≡◌, refl, ap, ◌∙◌}
use native.Mathlib.Omega.{arith}

-- The digits of a number, the last one on the right; the fuel is the number and one.
unfoldable pub digits : ℕ → ℕ → Str
digits zero x = []
digits (suc n) x =
    let rest = digits n (x / 10) in if ltb x 10 then (48 + x) ∷ [] else rest ++ (48 + x % 10) ∷ []

unfoldable pub to_string : ℤ → Str
unfolding digits
to_string (pos n) = digits (suc n) n
to_string (negsuc n) = 45 ∷ digits (suc (suc n)) (suc n)

abbrev pub is_digit : ℕ → Bool
is_digit c = leb 48 c && leb c 57

-- The number that the digits at the front make, behind those already read.
unfoldable pub read_digits : ℕ → Str → ℕ
read_digits acc [] = acc
read_digits acc (c ∷ cs) =
    let rest = read_digits (acc * 10 + (c - 48)) cs in if is_digit c then rest else acc

abbrev pub signed : Bool → ℕ → ℤ
signed negative zero = pos 0
signed negative (suc n) = if negative then negsuc n else pos (suc n)

abbrev pub starts_digit : Str → Bool
starts_digit [] = false
starts_digit (c ∷ cs) = is_digit c

-- Only digits.
abbrev pub AreDigits : Str → Type 0
AreDigits [] = Unit
AreDigits (c ∷ cs) = (is_digit c ≡ true) × AreDigits cs

AreDigits-append : (a b : Str) → AreDigits a → AreDigits b → AreDigits (a ++ b)
AreDigits-append [] b h k = k
AreDigits-append (c ∷ a) b (p, h) k = (p, AreDigits-append a b h k)

pub digits-AreDigits : (n x : ℕ) → AreDigits (digits n x)
unfolding digits
digits-AreDigits zero x = tt
digits-AreDigits (suc n) x = elim (Bool-cases (ltb x 10)) [
  | inl small ↦ rw small (ground (arith, small), tt)
  | inr large ↦ rw large (
      AreDigits-append (digits n (x / 10)) ((48 + x % 10) ∷ []) (digits-AreDigits n (x / 10))
        (ground arith, tt))
]

read_digits-last :
    (acc : ℕ) (s : Str) (c : ℕ)
    → AreDigits s
    → is_digit c ≡ true
    → read_digits acc (s ++ c ∷ []) ≡ read_digits acc s * 10 + (c - 48)
unfolding read_digits
read_digits-last acc [] c h k = rw k refl
read_digits-last acc (d ∷ s) c (p, h) k = rw p (read_digits-last (acc * 10 + (d - 48)) s c h k)

pub read_digits-digits : (n x : ℕ) → x < n → read_digits 0 (digits n x) ≡ x
unfolding digits read_digits
read_digits-digits zero x h = absurd (omega (arith, h))
read_digits-digits (suc n) x h = elim (Bool-cases (ltb x 10)) [
  | inl small ↦
      let digit : is_digit (48 + x) ≡ true = ground (arith, small) in
      rw (small, digit) (omega arith)
  | inr large ↦
      let digit : is_digit (48 + x % 10) ≡ true = ground arith in
      let ten : 10 ≤ x = ground (arith, large) in
      rw large (
        read_digits-last 0 (digits n (x / 10)) (48 + x % 10) (digits-AreDigits n (x / 10)) digit
        ∙ ap (λ t. t * 10 + (48 + x % 10 - 48))
            (read_digits-digits n (x / 10) (omega (arith, h, ten)))
        ∙ omega arith)
]

starts_digit-append : (a b : Str) → starts_digit a ≡ true → starts_digit (a ++ b) ≡ true
starts_digit-append [] b h = ground (arith, h)
starts_digit-append (c ∷ a) b h = h

pub starts_digit-digits : (n x : ℕ) → x < n → starts_digit (digits n x) ≡ true
unfolding digits
starts_digit-digits zero x h = absurd (omega (arith, h))
starts_digit-digits (suc n) x h = elim (Bool-cases (ltb x 10)) [
  | inl small ↦ rw small (ground (arith, small))
  | inr large ↦
      let ten : 10 ≤ x = ground (arith, large) in
      rw large (
        starts_digit-append (digits n (x / 10)) ((48 + x % 10) ∷ [])
          (starts_digit-digits n (x / 10) (omega (arith, h, ten))))
]
