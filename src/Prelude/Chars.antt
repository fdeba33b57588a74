-- ===== src/Prelude/Chars.antt =====
-- Texts as lists of code points, for code that walks them: Python's startswith, split, partition,
-- splitlines and whitespace split.
use Prim.Native.Char.{code}
use Prim.Native.String.{String}
use Prim.Native.Nat.{ℕ}
use mathlib.Core.Bool.{Bool, true, false, ◌&&◌, ◌||◌}
use mathlib.Core.Option.{Option, none, some}
use mathlib.Core.List.{List, [], ◌∷◌}
use euboulia.Prelude.Tests.{leb, ltb, if◌then◌else◌}

abbrev pub codes : String → List ℕ
codes String.[] = []
codes (String.◌∷◌ c s) = code c ∷ codes s

abbrev pub eq_code : ℕ → ℕ → Bool
eq_code a b = leb a b && leb b a

unfoldable pub eq_chars : List ℕ → List ℕ → Bool
eq_chars [] [] = true
eq_chars (a ∷ as') (b ∷ bs) = eq_code a b && eq_chars as' bs
eq_chars _ _ = false

-- text.startswith(prefix): what follows the prefix.
unfoldable pub after_prefix : List ℕ → List ℕ → Option (List ℕ)
after_prefix [] cs = some cs
after_prefix (p ∷ ps) [] = none
after_prefix (p ∷ ps) (c ∷ cs) = let rest = after_prefix ps cs in if eq_code p c then rest else none

abbrev pub is_found {ℓ} : {A : Type ℓ} → Option A → Bool
is_found none = false
is_found (some x) = true

unfoldable pub starts_with : List ℕ → List ℕ → Bool
unfolding after_prefix
starts_with prefix cs = is_found (after_prefix prefix cs)

-- c in text
unfoldable pub has_char : ℕ → List ℕ → Bool
has_char c [] = false
has_char c (d ∷ ds) = eq_code c d || has_char c ds

-- fragment in text
unfoldable pub has_fragment : List ℕ → List ℕ → Bool
unfolding starts_with
has_fragment fragment [] = starts_with fragment []
has_fragment fragment (c ∷ cs) = starts_with fragment (c ∷ cs) || has_fragment fragment cs

abbrev pub push_head {ℓ} : {A : Type ℓ} → A → List (List A) → List (List A)
push_head c [] = (c ∷ []) ∷ []
push_head c (part ∷ parts) = (c ∷ part) ∷ parts

-- text.split(separator), of one character
unfoldable pub split_on : ℕ → List ℕ → List (List ℕ)
split_on s [] = [] ∷ []
split_on s (c ∷ cs) =
    let parts = split_on s cs in if eq_code s c then [] ∷ parts else push_head c parts

-- text.partition(separator): what stands before it, and after it where it is found
unfoldable pub partition : ℕ → List ℕ → List ℕ × Option (List ℕ)
partition s [] = ([], none)
partition s (c ∷ cs) =
    let (name, value) = partition s cs in if eq_code s c then ([], some cs) else (c ∷ name, value)

abbrev pub contains_code : List ℕ → ℕ → Bool
contains_code [] c = false
contains_code (d ∷ ds) c = eq_code d c || contains_code ds c

-- The characters at which splitlines ends a line; CR LF ends one line.
abbrev pub ends_line : ℕ → Bool
ends_line c = contains_code (10 ∷ 11 ∷ 12 ∷ 13 ∷ 28 ∷ 29 ∷ 30 ∷ 0x85 ∷ 0x2028 ∷ 0x2029 ∷ []) c

-- The lines of what follows a CR, or another character.
unfoldable pub lines_after : Bool → List ℕ → List (List ℕ)
lines_after cr [] = []
lines_after cr (c ∷ cs) =
    let rest = lines_after (eq_code c 13) cs in
    if cr && eq_code c 10 then rest else if ends_line c then [] ∷ rest else push_head c rest

-- text.splitlines()
unfoldable pub lines_from : List ℕ → List (List ℕ)
unfolding lines_after
lines_from text = lines_after false text

abbrev pub is_space : ℕ → Bool
is_space c =
    (leb 9 c && leb c 13)
    || (leb 28 c && leb c 32)
    || contains_code (0x85 ∷ 0xa0 ∷ 0x1680 ∷ 0x2028 ∷ 0x2029 ∷ 0x202f ∷ 0x205f ∷ 0x3000 ∷ []) c
    || (leb 0x2000 c && leb c 0x200a)

-- The words of a text, and whether the first of them has its begin here.
unfoldable pub words_from : List ℕ → Bool × List (List ℕ)
words_from [] = (false, [])
words_from (c ∷ cs) =
    let (open_word, words) = words_from cs in
    if is_space c
    then (false, words)
    else if open_word
    then (true, push_head c words)
    else (true, (c ∷ []) ∷ words)

-- text.split()
unfoldable pub split_words : List ℕ → List (List ℕ)
unfolding words_from
split_words cs = (words_from cs).1

-- a < b by code points
unfoldable pub lt_chars : List ℕ → List ℕ → Bool
lt_chars as' [] = false
lt_chars [] (b ∷ bs) = true
lt_chars (a ∷ as') (b ∷ bs) = ltb a b || (leb a b && lt_chars as' bs)
