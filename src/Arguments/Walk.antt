-- ===== src/Arguments/Walk.antt =====
-- How the code walks over a command line: `_parse_long_option`, `_has_separate_option_value` and the
-- steps of `_long_option_occurrences`, which the loop of `apply` makes as well.
use euboulia.Prelude.{
  Bool, true, false, not, ◌||◌, ◌&&◌, Option, none, some, List, [], ◌∷◌, if◌then◌else◌,
}
use euboulia.Prelude.Chars.{codes, eq_chars, starts_with, partition}
use euboulia.Arguments.{Token, Result, ok, err, ◌>>=◌, is_option_name, bad_option}

unfoldable pub is_dashes : Token → Bool
unfolding eq_chars
is_dashes token = eq_chars token (codes "--")

unfoldable pub parse_long_option : Token → Result (Option (Token × Option Token))
unfolding is_dashes starts_with partition is_option_name
parse_long_option token =
    if is_dashes token || not (starts_with (codes "--") token)
    then ok none
    else if is_option_name (partition b'=' token).0
    then ok (some (partition b'=' token))
    else err bad_option

-- `_has_separate_option_value`, of the token at next_index.
unfoldable pub is_value : Token → Bool
unfolding is_dashes starts_with
is_value token = not (is_dashes token) && not (starts_with (codes "--") token)

-- What one step of the walk passes: a token that is no option, or an option with the value after "="
-- and the value in a token of its own.
pub data Item : Type 0 where
  positional : Token → Item
  option : Token → Token → Option Token → Option Token → Item

abbrev pub item_of : Token → Option (Token × Option Token) → Option Token → Item
item_of token none value = positional token
item_of token (some (name, inline)) value = option token name inline value

abbrev pub takes : Option (Token × Option Token) → Token → Bool
takes none next = false
takes (some (name, none)) next = is_value next
takes (some (name, some inline)) next = false

abbrev pub prepend : Item → List Item × List Token → Result (List Item × List Token)
prepend item (items, rest) = ok (item ∷ items, rest)

-- The items, and the tokens from "--" on.
unfoldable pub walk : List Token → Result (List Item × List Token)
unfolding is_dashes parse_long_option is_value
walk [] = ok ([], [])
walk (token ∷ []) =
    if is_dashes token
    then ok ([], token ∷ [])
    else (parse_long_option token >>= λ parsed. ok (item_of token parsed none ∷ [], []))
walk (token ∷ (next ∷ rest)) = elim (is_dashes token) [
  | true ↦ ok ([], token ∷ next ∷ rest)
  | false ↦ parse_long_option token >>= λ parsed. elim (takes parsed next) [
    | true ↦ walk rest >>= prepend (item_of token parsed (some next))
    | false ↦ walk (next ∷ rest) >>= prepend (item_of token parsed none)
  ]
]

-- The names of the options, once for each place.
unfoldable pub names : List Item → List Token
names [] = []
names (positional token ∷ items) = names items
names (option token name inline value ∷ items) = name ∷ names items

abbrev pub value_tokens : Option Token → List Token
value_tokens none = []
value_tokens (some value) = value ∷ []
