-- ===== src/Arguments/Constructed.antt =====
-- What the constructor of a patch makes sure of.
use euboulia.Prelude.{
  ℕ, ◌≡◌, ◌∙◌, refl, sym, ap, subst, arith, true, false, not, ◌||◌, Option, none, some, List, [],
  ◌∷◌, All, map, if-elim,
}
use euboulia.Prelude.Chars.{codes, eq_chars, lt_chars, partition, after_prefix, starts_with}
use euboulia.Prelude.Equal.{eq_chars_sym}
use euboulia.Arguments.{
  nul_byte, set_and_removed, bad_option, removed_twice, Token, Setting, ServerArgumentPatch, ok,
  >>=-ok, reject_if-ok, ok_inj, contains_token, is_option_name, name_rest, is_alnum,
}
use euboulia.Arguments.Walk.{walk, Item, option, is_dashes, parse_long_option}
use euboulia.Arguments.Overlay.{
  has_duplicate, overlaps, insert_token, sorted_tokens, insert_setting, sorted_settings,
  check_settings, check_removals, new_patch, apply, has_nul,
}
use euboulia.Arguments.Render.{Good, GoodValue, Leading}
use euboulia.Arguments.Items.{Settable}
use euboulia.Arguments.Values.{Consistent, values, expected, others, patched}

contains_token-insert_token :
    (s : Token) (ts : List Token) (n : Token)
    → contains_token (insert_token s ts) n ≡ eq_chars s n || contains_token ts n
unfolding contains_token insert_token
contains_token-insert_token s [] n = refl
contains_token-insert_token s (t ∷ ts) n = grind (arith, contains_token-insert_token s ts n)

contains_token-sorted_tokens :
    (ts : List Token) (n : Token) → contains_token (sorted_tokens ts) n ≡ contains_token ts n
unfolding contains_token sorted_tokens
contains_token-sorted_tokens [] n = refl
contains_token-sorted_tokens (t ∷ ts) n =
    grind
      (arith, contains_token-sorted_tokens ts n, contains_token-insert_token t (sorted_tokens ts) n)

has_duplicate-insert_token :
    (s : Token) (ts : List Token)
    → has_duplicate (insert_token s ts) ≡ contains_token ts s || has_duplicate ts
unfolding contains_token insert_token has_duplicate
has_duplicate-insert_token s [] = refl
has_duplicate-insert_token s (t ∷ ts) =
    grind
      (arith, has_duplicate-insert_token s ts, contains_token-insert_token s ts t, eq_chars_sym s t)

has_duplicate-sorted_tokens :
    (ts : List Token) → has_duplicate (sorted_tokens ts) ≡ has_duplicate ts
unfolding sorted_tokens has_duplicate
has_duplicate-sorted_tokens [] = refl
has_duplicate-sorted_tokens (t ∷ ts) = grind (
  arith,
  has_duplicate-sorted_tokens ts,
  has_duplicate-insert_token t (sorted_tokens ts),
  contains_token-sorted_tokens ts t,
)

keys : List Setting → List Token
keys set = map (λ s. s.0) set

keys-insert_setting :
    (s : Setting) (ss : List Setting) → keys (insert_setting s ss) ≡ insert_token s.0 (keys ss)
unfolding keys insert_setting insert_token
keys-insert_setting s [] = refl
keys-insert_setting s (t ∷ ts) = grind (arith, keys-insert_setting s ts)

keys-sorted_settings : (ss : List Setting) → keys (sorted_settings ss) ≡ sorted_tokens (keys ss)
unfolding keys sorted_settings sorted_tokens
keys-sorted_settings [] = refl
keys-sorted_settings (s ∷ ss) =
    keys-insert_setting s (sorted_settings ss) ∙ ap (insert_token s.0) (keys-sorted_settings ss)

overlaps-insert_setting :
    (s : Setting) (ss : List Setting) (remove : List Token)
    → overlaps (insert_setting s ss) remove ≡ contains_token remove s.0 || overlaps ss remove
unfolding overlaps insert_setting
overlaps-insert_setting s [] remove = refl
overlaps-insert_setting s (t ∷ ts) remove = grind (arith, overlaps-insert_setting s ts remove)

overlaps-sorted :
    (ss : List Setting) (remove : List Token)
    → overlaps (sorted_settings ss) (sorted_tokens remove) ≡ overlaps ss remove
unfolding overlaps sorted_settings
overlaps-sorted [] remove = refl
overlaps-sorted (s ∷ ss) remove = grind (
  arith,
  overlaps-sorted ss remove,
  overlaps-insert_setting s (sorted_settings ss) (sorted_tokens remove),
  contains_token-sorted_tokens remove s.0,
)

partition-name_rest : (cs : Token) → name_rest cs ≡ true → partition b'=' cs ≡ (cs, none)
unfolding partition name_rest
partition-name_rest [] h = refl
partition-name_rest (c ∷ cs) h = grind (arith, partition-name_rest cs)

-- A long option is written with two dashes, a letter or digit, and more.
is_option_name-shape :
    (name : Token)
    → is_option_name name ≡ true
    → (c : ℕ) × (cs : Token) × (name ≡ b'-' ∷ b'-' ∷ c ∷ cs)
      × (is_alnum c ≡ true)
      × (name_rest cs ≡ true)
unfolding is_option_name after_prefix name_rest
is_option_name-shape [] h = cc
is_option_name-shape (a ∷ []) h = grind arith
is_option_name-shape (a ∷ (b ∷ [])) h = grind arith
is_option_name-shape (a ∷ (b ∷ (c ∷ cs))) h = (c, cs, grind arith, grind arith, grind arith)

partition-long :
    (c : ℕ) (cs : Token)
    → is_alnum c ≡ true
    → name_rest cs ≡ true
    → partition b'=' (b'-' ∷ b'-' ∷ c ∷ cs) ≡ (b'-' ∷ b'-' ∷ c ∷ cs, none)
unfolding partition
partition-long c cs h k = grind (arith, partition-name_rest cs k)

parse_long_option-name :
    (name : Token) → is_option_name name ≡ true → parse_long_option name ≡ ok (some (name, none))
unfolding parse_long_option is_dashes starts_with after_prefix eq_chars is_option_name
parse_long_option-name name h =
    let (c, cs, shape, first, more) = is_option_name-shape name h in
    let whole =
      subst (λ n. partition b'=' n ≡ (n, none)) (sym shape) (partition-long c cs first more) in
    let long =
      subst (λ n. (is_dashes n || not (starts_with (codes "--") n)) ≡ false) (sym shape) refl in
    grind arith

is_dashes-name : (name : Token) → is_option_name name ≡ true → is_dashes name ≡ false
unfolding is_dashes eq_chars
is_dashes-name name h =
    let (c, cs, shape, first, more) = is_option_name-shape name h in
    subst (λ n. is_dashes n ≡ false) (sym shape) refl

option_name-Good :
    (name : Token) (value : Option Token)
    → is_option_name name ≡ true
    → GoodValue none value
    → Good (option name name none value)
unfolding Good
option_name-Good name value h v = (is_dashes-name name h, parse_long_option-name name h, v)

check_settings-Settable :
    (set : List Setting) {done : Unit {0}}
    → check_settings set ≡ ok done
    → All (λ s. GoodValue none s.1) set
    → All Settable set
unfolding check_settings Settable
check_settings-Settable [] h v = tt
check_settings-Settable ((name, value) ∷ rest) h v =
    let (valid, h1) = reject_if-ok (not (is_option_name name)) bad_option _ h in
    let (clean, h2) = reject_if-ok (has_nul value) nul_byte _ h1 in
    (option_name-Good name value (ground arith) v.0, check_settings-Settable rest h2 v.1)

insert_setting-All :
    (P : Setting → Type 0) (s : Setting) (ss : List Setting)
    → P s
    → All P ss
    → All P (insert_setting s ss)
unfolding insert_setting
insert_setting-All P s [] h k = (h, tt)
insert_setting-All P s (t ∷ ts) h k =
    if-elim (All P) (lt_chars s.0 t.0) (s ∷ t ∷ ts) (t ∷ insert_setting s ts) (λ before. (h, k))
      (λ after. (k.0, insert_setting-All P s ts h k.1))

sorted_settings-All :
    (P : Setting → Type 0) (ss : List Setting) → All P ss → All P (sorted_settings ss)
unfolding sorted_settings
sorted_settings-All P [] h = tt
sorted_settings-All P (s ∷ ss) h =
    insert_setting-All P s (sorted_settings ss) h.0 (sorted_settings-All P ss h.1)

new_patch-Consistent :
    (set : List Setting) (remove : List Token) {patch : ServerArgumentPatch}
    → has_duplicate (map (λ s. s.0) set) ≡ false
    → All (λ s. GoodValue none s.1) set
    → new_patch set remove ≡ ok patch
    → Consistent patch × All Settable patch.set
unfolding new_patch keys
new_patch-Consistent set remove {patch} once proper h =
    let (done, valid, h1) = >>=-ok (check_settings set) _ h in
    let (done', valid', h2) = >>=-ok (check_removals remove) _ h1 in
    let (removed, h3) = reject_if-ok (has_duplicate remove) removed_twice _ h2 in
    let (disjoint, h4) = reject_if-ok (overlaps set remove) set_and_removed _ h3 in
    subst (λ p. Consistent p × All Settable p.set) (ok_inj h4)
      (
        record {
          once =
              ap has_duplicate (keys-sorted_settings set)
              ∙ has_duplicate-sorted_tokens (keys set)
              ∙ once;
          not_both = overlaps-sorted set remove ∙ disjoint;
        },
        sorted_settings-All Settable set (check_settings-Settable set valid proper),
      )

-- A patch is built from a mapping, whose keys differ, in which no value begins with two dashes, and
-- applied to a command line whose other tokens stand before its options. Then in the result every
-- option that is removed has no value, every option that is set has the one value that was set, every
-- other option has the values that it had, in their order, and the other tokens are the same.
pub apply-values :
    (set : List Setting) (remove baseline : List Token) (name : Token) {patch : ServerArgumentPatch}
    {out rest : List Token} {items : List Item}
    → has_duplicate (map (λ s. s.0) set) ≡ false
    → All (λ s. GoodValue none s.1) set
    → new_patch set remove ≡ ok patch
    → apply patch baseline ≡ ok out
    → walk baseline ≡ ok (items, rest)
    → Leading items
    → (found : List Item) × (walk out ≡ ok (found, rest))
      × (values name found ≡ expected patch name (values name items))
      × (others found ≡ others items)
apply-values set remove baseline name {patch} once proper made h w leading =
    let (good, settable) = new_patch-Consistent set remove once proper made in
    patched patch baseline name h w leading settable good
