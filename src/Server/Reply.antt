-- ===== src/Server/Reply.antt =====
-- server/cmd: what the commands share, with `strtoull` of the standard library.
use lightdb.Util.Numbers.{skip_space}
use lightdb.Common.Int.{pos}
use lightdb.Common.Decimal.{to_string, read_digits}
use lightdb.Storage.Status.{Code, k_ok, ok}
use lightdb.Engine.State.{LightDb}
use lightdb.Common.{
  ℕ, suc, ◌-◌, ◌^◌, ◌%◌, ltb, ◌==◌, Str, codes, Bool, Option, none, some, List, [], ◌∷◌, ◌++◌,
  if◌then◌else◌,
}

abbrev pub wrong_num_of_args : Str
wrong_num_of_args = codes "wrong num of args"

-- `"(integer) "` and a number
abbrev pub integer : Str → Str
integer number = codes "(integer) " ++ number

abbrev pub string_of : ℕ → Str
string_of n = to_string (pos n)

-- `args[i]`; `none` is an access behind the end.
unfoldable pub arg : List Str → ℕ → Option Str
arg [] n = none
arg (x ∷ xs) n = let rest = arg xs (n - 1) in if n == 0 then some x else rest

abbrev pub clamp : ℕ → ℕ
clamp n = if ltb n (2 ^ 64) then n else 2 ^ 64 - 1

-- A minus sign negates in `uint64_t`, a number that is too large is the largest.
unfoldable pub strtoull : Str → ℕ
unfolding read_digits
strtoull text = elim (skip_space text) [
  | [] ↦ 0
  | c ∷ cs ↦
      let n = clamp (read_digits 0 cs) in
      if c == 43
      then n
      else if c == 45
      then (if ltb (read_digits 0 cs) (2 ^ 64) then (2 ^ 64 - n) % 2 ^ 64 else n)
      else clamp (read_digits 0 (c ∷ cs))
]

-- The lines of `hgetall`: each value with its number.
unfoldable pub numbered : ℕ → List Str → Str → Str
numbered i [] resp = resp
numbered i (val ∷ vals) resp =
    numbered (suc i) vals (resp ++ (string_of (suc i) ++ codes ") ") ++ (val ++ codes "\n"))

-- The lines of `hkeys` and `hvals`, with a break between them.
unfoldable pub listed : ℕ → List Str → Str → Str
listed i [] resp = resp
listed i (val ∷ vals) resp =
    let line = if i == 0 then resp else resp ++ codes "\n" in
    listed (suc i) vals (line ++ (string_of (suc i) ++ codes ")" ++ val))

-- The lines of `hmget`.
unfoldable pub numbered_or_nil : ℕ → List Str → List Bool → Str → Str
numbered_or_nil i [] sucs resp = resp
numbered_or_nil i (val ∷ vals) [] resp = resp
numbered_or_nil i (val ∷ vals) (s ∷ sucs) resp =
    let text = if s then val else codes "(nil)" in
    numbered_or_nil (suc i) vals sucs
      (resp ++ string_of (suc i) ++ codes ") " ++ text ++ codes "\n")

-- `to_string` of a `bool`, and `"1"` or `"0"`
abbrev pub bit_text : Bool → Str
bit_text b = if b then codes "1" else codes "0"

-- A variable that is written or keeps its value.
abbrev pub written_or {ℓ} : {A : Type ℓ} → A → Option A → A
written_or a none = a
written_or a (some b) = b

-- What a command is called with, and the reply and the state that it leaves.
abbrev pub Command : Type 0
Command = List Str → Str → LightDb → Option (Str × LightDb)

module _ (wrap : Code → Str → Str) (describe : Code → List Str → Str) where
  abbrev pub wrong : {S : Type 0} → S → Option (Str × S)
  wrong d = some (wrap k_ok wrong_num_of_args, d)

  -- The reply to a status with a result.
  abbrev pub answer : {S : Type 0} → List Str → Code × Str → S → Option (Str × S)
  answer args (status, text) d =
      if ok status then some (wrap status text, d) else some (wrap status (describe status args), d)
