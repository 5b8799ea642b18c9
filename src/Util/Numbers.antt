-- ===== src/Util/Numbers.antt =====
-- util/str.h: `stringToInt`, and the numbers that it reads back.
use lightdb.Common.Int.{ℤ, pos, negsuc}
use lightdb.Common.Decimal.{
  to_string, digits, read_digits, read_digits-digits, starts_digit, starts_digit-digits, signed,
}
use lightdb.Common.{
  ℕ, zero, suc, ◌+◌, ◌^◌, ◌<◌, ltb, leb, ◌==◌, Str, Bool, ◌&&◌, ◌||◌, true, false, Option, none,
  some, [], ◌∷◌, ◌≡◌, refl, ap, ◌∙◌, arith, if◌then◌else◌,
}

-- White space in front of a number.
abbrev pub skip_space : Str → Str
skip_space [] = []
skip_space (c ∷ cs) = if c == 32 || (leb 9 c && leb c 13) then skip_space cs else c ∷ cs

-- The digits of a number behind its sign; the limit of an `int` is one further below 0.
abbrev pub int_of : Bool → Str → Option ℤ
int_of negative text =
    let n = read_digits 0 text in
    let limit = if negative then 2 ^ 31 + 1 else 2 ^ 31 in
    if starts_digit text then (if ltb n limit then some (signed negative n) else none) else none

-- The number behind the white space; `none` where `std::stoi` throws, for want of a digit or for a
-- number that is no `int`.
abbrev pub parsed_int : Str → Option ℤ
parsed_int [] = none
parsed_int (c ∷ cs) =
    if c == 43 then int_of false cs else if c == 45 then int_of true cs else int_of false (c ∷ cs)

-- `stringToInt`, and `std::stoi` by itself.
unfoldable pub string_to_int : Str → Option ℤ
unfolding read_digits
string_to_int text = parsed_int (skip_space text)

-- The values of an `int`.
abbrev pub IsInt : ℤ → Type 0
IsInt (pos n) = n < 2 ^ 31
IsInt (negsuc n) = n < 2 ^ 31

skip_space-digit : (s : Str) → starts_digit s ≡ true → skip_space s ≡ s
skip_space-digit [] h = refl
skip_space-digit (c ∷ s) h = ground (arith, h)

parsed_int-digit : (s : Str) → starts_digit s ≡ true → parsed_int s ≡ int_of false s
parsed_int-digit [] h = ground (arith, h)
parsed_int-digit (c ∷ s) h = ground (arith, h)

pub int_of-digits :
    (negative : Bool) (s : Str) (n : ℕ)
    → starts_digit s ≡ true
    → read_digits 0 s ≡ n
    → n < (if negative then 2 ^ 31 + 1 else 2 ^ 31)
    → int_of negative s ≡ some (signed negative n)
int_of-digits true s n h e b = rw (h, e) (ground (arith, b))
int_of-digits false s n h e b = rw (h, e) (ground (arith, b))

pub signed-pos : (n : ℕ) → signed false n ≡ pos n
signed-pos zero = refl
signed-pos (suc n) = refl

pub string_to_int-to_string : (z : ℤ) → IsInt z → string_to_int (to_string z) ≡ some z
unfolding to_string string_to_int
string_to_int-to_string (pos n) h =
    let s = digits (suc n) n in
    let first = starts_digit-digits (suc n) n (omega arith) in
    ap parsed_int (skip_space-digit s first)
    ∙ parsed_int-digit s first
    ∙ int_of-digits false s n first (read_digits-digits (suc n) n (omega arith)) h
    ∙ ap some (signed-pos n)
string_to_int-to_string (negsuc n) h =
    int_of-digits true (digits (suc (suc n)) (suc n)) (suc n)
      (starts_digit-digits (suc (suc n)) (suc n) (omega arith))
      (read_digits-digits (suc (suc n)) (suc n) (omega arith)) (omega (arith, h))
