-- ===== src/Ds/Strings/Order.antt =====
-- ds/str/ds_strlist.h: the order of strings, and that of the nodes of `StrSkiplist`.
use lightdb.Common.{Str, str_lt, ◌≡◌, refl, [], ◌∷◌, List, true, false, arith, ◌<◌, ◌≢◌}
use lightdb.Ds.Strings.{StrNode}

pub str_lt_irrefl : (a : Str) → str_lt a a ≡ false
unfolding str_lt
str_lt_irrefl [] = refl
str_lt_irrefl (x ∷ a) = ground (arith, str_lt_irrefl a)

pub str_lt_trans : (a b c : Str) → str_lt a b ≡ true → str_lt b c ≡ true → str_lt a c ≡ true
unfolding str_lt
str_lt_trans a b [] h g = cc
str_lt_trans a [] (z ∷ c) h g = cc
str_lt_trans [] (y ∷ b) (z ∷ c) h g = refl
str_lt_trans (x ∷ a) (y ∷ b) (z ∷ c) h g = ground (arith, str_lt_trans a b c)

pub str_lt_total : (a b : Str) → str_lt a b ≡ false → str_lt b a ≡ false → a ≡ b
unfolding str_lt
str_lt_total [] [] h g = refl
str_lt_total [] (y ∷ b) h g = cc
str_lt_total (x ∷ a) [] h g = cc
str_lt_total (x ∷ a) (y ∷ b) h g = ground (arith, str_lt_total a b)

-- The keys of the nodes are all below a key.
abbrev pub Below : Str → List StrNode → Type 0
Below k [] = Unit
Below k (n ∷ ns) = (str_lt n.key k ≡ true) × Below k ns

-- Keys descend, none is empty, and a node has a pointer at least.
abbrev pub IsOrdered : List StrNode → Type 0
IsOrdered [] = Unit
IsOrdered (n ∷ ns) = (0 < n.height) × (n.key ≢ []) × Below n.key ns × IsOrdered ns
