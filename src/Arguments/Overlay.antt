-- ===== src/Arguments/Overlay.antt =====
-- The constructor of `ServerArgumentPatch`, and its `apply`.
use euboulia.Prelude.{
  Bool, true, false, not, ◌||◌, ◌&&◌, Option, none, some, List, [], ◌∷◌, ◌++◌, if◌then◌else◌,
}
use euboulia.Prelude.Chars.{eq_chars, has_char, lt_chars}
use euboulia.Arguments.{
  Token, Setting, ServerArgumentPatch, Result, ok, err, ◌>>=◌, ◌>>◌, reject_if, is_option_name,
  contains_token, setting, bad_option, nul_byte, removed_twice, set_and_removed, empty_argv,
  no_executable, ambiguous,
}
use euboulia.Arguments.Walk.{Item, positional, option, is_dashes, walk, names, value_tokens}

abbrev pub has_nul : Option Token → Bool
unfolding has_char
has_nul none = false
has_nul (some value) = has_char 0 value

-- The loop over set.items().
unfoldable pub check_settings : List Setting → Result (Unit {0})
unfolding is_option_name has_char
check_settings [] = ok tt
check_settings ((name, value) ∷ rest) = do
  reject_if (not (is_option_name name)) bad_option
  reject_if (has_nul value) nul_byte
  check_settings rest

unfoldable pub check_removals : List Token → Result (Unit {0})
unfolding is_option_name
check_removals [] = ok tt
check_removals (name ∷ rest) =
    reject_if (not (is_option_name name)) bad_option >> check_removals rest

unfoldable pub has_duplicate : List Token → Bool
unfolding contains_token
has_duplicate [] = false
has_duplicate (name ∷ rest) = contains_token rest name || has_duplicate rest

unfoldable pub overlaps : List Setting → List Token → Bool
unfolding contains_token
overlaps [] remove = false
overlaps ((name, value) ∷ rest) remove = contains_token remove name || overlaps rest remove

-- sorted, of keys that differ
unfoldable pub insert_setting : Setting → List Setting → List Setting
unfolding lt_chars
insert_setting s [] = s ∷ []
insert_setting s (t ∷ ts) =
    let rest = insert_setting s ts in if lt_chars s.0 t.0 then s ∷ t ∷ ts else t ∷ rest

unfoldable pub sorted_settings : List Setting → List Setting
unfolding insert_setting
sorted_settings [] = []
sorted_settings (s ∷ ss) = insert_setting s (sorted_settings ss)

unfoldable pub insert_token : Token → List Token → List Token
unfolding lt_chars
insert_token s [] = s ∷ []
insert_token s (t ∷ ts) =
    let rest = insert_token s ts in if lt_chars s t then s ∷ t ∷ ts else t ∷ rest

unfoldable pub sorted_tokens : List Token → List Token
unfolding insert_token
sorted_tokens [] = []
sorted_tokens (s ∷ ss) = insert_token s (sorted_tokens ss)

-- __post_init__, for a mapping `set`, whose keys differ.
unfoldable pub new_patch : List Setting → List Token → Result ServerArgumentPatch
unfolding check_settings check_removals has_duplicate overlaps sorted_settings sorted_tokens
new_patch set remove = do
  check_settings set
  check_removals remove
  reject_if (has_duplicate remove) removed_twice
  reject_if (overlaps set remove) set_and_removed
  ok (record { set = sorted_settings set; remove = sorted_tokens remove })

abbrev any_nul : List Token → Bool
unfolding has_char
any_nul [] = false
any_nul (token ∷ tokens) = has_char 0 token || any_nul tokens

-- `_validate_argv`
unfoldable pub validate_argv : List Token → Result (Unit {0})
unfolding has_char
validate_argv [] = err empty_argv
validate_argv (first ∷ rest) = do
  reject_if (any_nul (first ∷ rest)) nul_byte
  reject_if (eq_chars first []) no_executable

module _ (patch : ServerArgumentPatch) where
  abbrev is_setting : Option (Option Token) → Bool
  is_setting none = false
  is_setting (some value) = true

  -- name in touched_options
  abbrev pub touched : Token → Bool
  unfolding contains_token setting
  touched name = is_setting (setting patch.set name) || contains_token patch.remove name

  unfoldable pub any_ambiguous : List Token → Bool
  unfolding contains_token setting
  any_ambiguous [] = false
  any_ambiguous (name ∷ rest) = (contains_token rest name && touched name) || any_ambiguous rest

  -- What a step of the loop adds to `result`.
  unfoldable pub rewritten : Item → List Token
  unfolding contains_token setting
  rewritten (positional token) = token ∷ []
  rewritten (option token name inline value) =
      if contains_token patch.remove name then [] else elim (setting patch.set name) [
        | some replacement ↦ name ∷ value_tokens replacement
        | none ↦ token ∷ value_tokens value
      ]

  unfoldable pub rewrite_all : List Item → List Token
  unfolding rewritten
  rewrite_all [] = []
  rewrite_all (item ∷ items) = rewritten item ++ rewrite_all items

  -- The options that the loop has handled.
  unfoldable pub handled : List Token → List Token
  unfolding contains_token setting
  handled [] = []
  handled (name ∷ rest) = let later = handled rest in if touched name then name ∷ later else later

  unfoldable pub additions : List Token → List Setting → List Token
  unfolding contains_token
  additions done [] = []
  additions done ((name, value) ∷ rest) =
      let later = additions done rest in
      if contains_token done name then later else (name ∷ value_tokens value) ++ later

  -- result[insertion_index:insertion_index] = additions
  unfoldable pub insert_before_dashes : List Token → List Token → List Token
  unfolding is_dashes
  insert_before_dashes added [] = added
  insert_before_dashes added (token ∷ tokens) =
      let rest = insert_before_dashes added tokens in
      if is_dashes token then added ++ (token ∷ tokens) else token ∷ rest

  unfoldable pub overlaid : List Item × List Token → Result (List Token)
  unfolding any_ambiguous rewrite_all handled additions insert_before_dashes names
  overlaid (items, rest) = do
    reject_if (any_ambiguous (names items)) ambiguous
    ok (
        insert_before_dashes (additions (handled (names items)) patch.set)
          (rewrite_all items ++ rest))

  unfoldable pub apply : List Token → Result (List Token)
  unfolding validate_argv walk overlaid
  apply baseline = do validate_argv baseline; walked ← walk baseline; overlaid walked
