-- ===== src/Engine/Lists/Trim.antt =====
-- db_list.cpp and util/str.h: `extra` of the entries of `LTrim` and `LInsert`, split and parsed.
use lightdb.Common.Decimal.{to_string, digits, digits-AreDigits, AreDigits, read_digits-digits}
use lightdb.Common.Int.{ℤ, pos, negsuc}
use lightdb.Util.{starts_with, split_on, split_with_stl}
use lightdb.Engine.Lists.{extra_separator}
use mathlib.Core.List.{append_assoc, append-nil}
use lightdb.Util.Numbers.{IsInt, string_to_int, int_of-digits, signed-pos}
use lightdb.Common.{
  suc, ◌==◌, Str, Bool, true, false, some, [], ◌∷◌, ◌++◌, ◌≡◌, ◌≢◌, refl, sym, ap, ◌∙◌, arith,
  if◌then◌else◌,
}

abbrev pub has_backslash : Str → Bool
has_backslash [] = false
has_backslash (c ∷ cs) = if c == 92 then true else has_backslash cs

has_backslash-digits : (s : Str) → AreDigits s → has_backslash s ≡ false
has_backslash-digits [] h = refl
has_backslash-digits (c ∷ s) (p, h) = ground (arith, p, has_backslash-digits s h)

pub has_backslash-to_string : (z : ℤ) → has_backslash (to_string z) ≡ false
unfolding to_string
has_backslash-to_string (pos n) =
    has_backslash-digits (digits (suc n) n) (digits-AreDigits (suc n) n)
has_backslash-to_string (negsuc n) =
    has_backslash-digits (digits (suc (suc n)) (suc n)) (digits-AreDigits (suc (suc n)) (suc n))

-- The text in front of a separator.
split_on-plain :
    (s x rest : Str)
    → has_backslash s ≡ false
    → split_on extra_separator x (s ++ rest) ≡ split_on extra_separator (x ++ s) rest
unfolding split_on starts_with
split_on-plain [] x rest h = ap (λ t. split_on extra_separator t rest) (sym (append-nil x))
split_on-plain (c ∷ s) x rest h =
    ground (arith, h, split_on-plain s (x ++ c ∷ []) rest, append_assoc x (c ∷ []) s)

-- The second part keeps the zero of the separator.
split_on-two :
    (a b : Str)
    → has_backslash a ≡ false
    → has_backslash b ≡ false
    → split_on extra_separator [] (a ++ extra_separator ++ b ++ extra_separator) ≡ a ∷ (48 ∷ b) ∷ []
unfolding split_on starts_with
split_on-two a b h k =
    ap (split_on extra_separator []) (
      append_assoc (a ++ extra_separator) b extra_separator
      ∙ append_assoc a extra_separator (b ++ extra_separator))
    ∙ split_on-plain a [] (extra_separator ++ (b ++ extra_separator)) h
    ∙ ap (λ t. a ∷ t) (split_on-plain b (48 ∷ []) extra_separator k)

split_with_stl-split_on :
    (s pattern : Str) → s ≢ [] → split_with_stl s pattern ≡ split_on pattern [] (s ++ pattern)
unfolding split_with_stl
split_with_stl-split_on [] pattern h = absurd (h refl)
split_with_stl-split_on (c ∷ s) pattern h = refl

separated-not_empty : (a b : Str) → a ++ extra_separator ++ b ≢ []
separated-not_empty [] b = λ e. ground (arith, e)
separated-not_empty (c ∷ a) b = λ e. ground (arith, e)

-- What a load takes an end offset to be.
abbrev pub loaded_end : ℤ → ℤ
loaded_end (pos n) = pos n
loaded_end (negsuc n) = pos 0

pub string_to_int-zero : (z : ℤ) → IsInt z → string_to_int (48 ∷ to_string z) ≡ some (loaded_end z)
unfolding to_string string_to_int
string_to_int-zero (pos n) h =
    int_of-digits false (48 ∷ digits (suc n) n) n refl (read_digits-digits (suc n) n (omega arith))
      h
    ∙ ap some (signed-pos n)
string_to_int-zero (negsuc n) h = refl

pub split-separated :
    (a b : Str)
    → has_backslash a ≡ false
    → has_backslash b ≡ false
    → split_with_stl (a ++ extra_separator ++ b) extra_separator ≡ a ∷ (48 ∷ b) ∷ []
split-separated a b h k =
    split_with_stl-split_on (a ++ extra_separator ++ b) extra_separator (separated-not_empty a b)
    ∙ split_on-two a b h k
