-- ===== src/Util.antt =====
-- util/str.h: `splitStrBySpace` and `splitWithStl`.
pub mod Numbers
use mathlib.Core.List.{append-nil, append_assoc}
use lightdb.Common.{
  ℕ, ◌==◌, Str, List, [], ◌∷◌, ◌++◌, if◌then◌else◌, Bool, true, false, ◌≡◌, refl, ap, arith, ◌≢◌,
  sym, ◌∙◌,
}

abbrev pub space : ℕ
space = 32

-- `if(!word.empty()) words.push_back(word)`
abbrev pub push_word : Str → List Str → List Str
push_word [] words = words
push_word (c ∷ cs) words = words ++ (c ∷ cs) ∷ []

unfoldable pub split_loop : Str → Str → List Str → List Str
split_loop [] word words = push_word word words
split_loop (c ∷ text) word words =
    if c == space
    then split_loop text [] (push_word word words)
    else split_loop text (word ++ c ∷ []) words

unfoldable pub split_str_by_space : Str → List Str → List Str
unfolding split_loop
split_str_by_space text words = split_loop text [] words

-- `find(pattern)` at the beginning of the text
unfoldable pub starts_with : Str → Str → Bool
starts_with [] text = true
starts_with (p ∷ ps) [] = false
starts_with (p ∷ ps) (c ∷ cs) = if p == c then starts_with ps cs else false

-- The loop of `splitWithStl`, which goes on one character behind the beginning of the pattern.
unfoldable pub split_on : Str → Str → Str → List Str
unfolding starts_with
split_on pattern x [] = []
split_on pattern x (c ∷ strs) =
    let found = split_on pattern [] strs in
    let on = split_on pattern (x ++ c ∷ []) strs in
    if starts_with pattern (c ∷ strs) then x ∷ found else on

unfoldable pub split_with_stl : Str → Str → List Str
unfolding split_on
split_with_stl [] pattern = []
split_with_stl (c ∷ cs) pattern = split_on pattern [] (c ∷ cs ++ pattern)

-- A word: not empty, and without a space.
abbrev pub has_space : Str → Bool
has_space [] = false
has_space (c ∷ cs) = if c == space then true else has_space cs

-- A line of words, one space between each and the next.
abbrev pub joined : List Str → Str
joined [] = []
joined (w ∷ []) = w
joined (w ∷ v ∷ ws) = w ++ space ∷ joined (v ∷ ws)

abbrev pub AreWords : List Str → Type 0
AreWords [] = Unit
AreWords (w ∷ ws) = (w ≢ []) × (has_space w ≡ false) × AreWords ws

split_loop-word :
    (w word rest : Str) (words : List Str)
    → has_space w ≡ false
    → split_loop (w ++ rest) word words ≡ split_loop rest (word ++ w) words
unfolding split_loop
split_loop-word [] word rest words h = ap (λ t. split_loop rest t words) (sym (append-nil word))
split_loop-word (c ∷ w) word rest words h =
    ground (arith, split_loop-word w (word ++ c ∷ []) rest words, append_assoc word (c ∷ []) w)

push_word-word : (w : Str) (words : List Str) → w ≢ [] → push_word w words ≡ words ++ w ∷ []
push_word-word [] words h = absurd (h refl)
push_word-word (c ∷ w) words h = refl

-- Splitting a line that words without spaces make, one space between each and the next, gives these
-- words, in order, after the words that were there.
pub split_str_by_space-joined :
    (ws words : List Str) → AreWords ws → split_str_by_space (joined ws) words ≡ words ++ ws
unfolding split_str_by_space
split_str_by_space-joined [] words h = sym (append-nil words)
split_str_by_space-joined (w ∷ []) words (h, k, t) =
    ap (λ t. split_loop t [] words) (sym (append-nil w))
    ∙ split_loop-word w [] [] words k
    ∙ push_word-word w words h
split_str_by_space-joined (w ∷ v ∷ ws) words (h, k, t) =
    split_loop-word w [] (space ∷ joined (v ∷ ws)) words k
    ∙ ap (λ u. split_loop (joined (v ∷ ws)) [] u) (push_word-word w words h)
    ∙ split_str_by_space-joined (v ∷ ws) (words ++ w ∷ []) t
    ∙ append_assoc words (w ∷ []) (v ∷ ws)
