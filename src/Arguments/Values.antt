-- ===== src/Arguments/Values.antt =====
-- The values that the server's options have after a patch.
use euboulia.Prelude.{
  ◌≡◌, ◌∙◌, refl, ap, arith, Bool, true, false, ◌&&◌, Option, none, some, List, [], ◌∷◌, ◌++◌, All,
  map, if◌then◌else◌,
}
use euboulia.Prelude.Chars.{eq_chars}
use euboulia.Prelude.Equal.{eq_chars→eq}
use euboulia.Arguments.{Token, Setting, ServerArgumentPatch, ok, contains_token, setting}
use euboulia.Arguments.Walk.{Item, positional, option, walk, names}
use euboulia.Arguments.Overlay.{any_ambiguous, touched, handled, has_duplicate, overlaps, apply}
use euboulia.Arguments.Render.{Leading}
use euboulia.Arguments.Items.{overlay, added, Settable}
use euboulia.Arguments.Applied.{apply-walk, apply-clear}

-- The value of an option, after "=" or in the next token; `none` is a bare flag.
shown : Option Token → Option Token → Option Token
shown none value = value
shown (some inline) value = some inline

-- The values that the option has, once for each place.
pub values : Token → List Item → List (Option Token)
unfolding eq_chars
values name [] = []
values name (positional token ∷ items) = values name items
values name (option token own inline value ∷ items) =
    let rest = values name items in if eq_chars own name then shown inline value ∷ rest else rest

-- The tokens that are no options.
pub others : List Item → List Token
others [] = []
others (positional token ∷ items) = token ∷ others items
others (option token own inline value ∷ items) = others items

-- What the patch promises of an option that had the values before.
pub expected : ServerArgumentPatch → Token → List (Option Token) → List (Option Token)
unfolding contains_token setting
expected patch name before =
    if contains_token patch.remove name
    then []
    else elim (setting patch.set name) [ some value ↦ value ∷ [] | none ↦ before ]

repeat : Option Token → List (Option Token) → List (Option Token)
repeat v [] = []
repeat v (x ∷ xs) = v ∷ repeat v xs

-- Each option once, either set or removed.
pub record Consistent (patch : ServerArgumentPatch) : Type 0 where
  pub once : has_duplicate (map (λ s. s.0) patch.set) ≡ false
  pub not_both : overlaps patch.set patch.remove ≡ false

values-append :
    (name : Token) (xs ys : List Item) → values name (xs ++ ys) ≡ values name xs ++ values name ys
unfolding values
values-append name [] ys = refl
values-append name (positional token ∷ xs) ys = values-append name xs ys
values-append name (option token own inline value ∷ xs) ys =
    by_test (eq_chars own name) (values-append name xs ys)
  where
    by_test :
        (b : Bool)
        → values name (xs ++ ys) ≡ values name xs ++ values name ys
        → (if b then shown inline value ∷ values name (xs ++ ys) else values name (xs ++ ys))
          ≡ (if b then shown inline value ∷ values name xs else values name xs) ++ values name ys
    by_test true h = ap (λ l. shown inline value ∷ l) h
    by_test false h = h

-- What `overlay` makes of the values.
replaced : ServerArgumentPatch → Token → List (Option Token) → List (Option Token)
unfolding contains_token setting
replaced patch name before =
    if contains_token patch.remove name
    then []
    else elim (setting patch.set name) [ some value ↦ repeat value before | none ↦ before ]

values-overlay :
    (patch : ServerArgumentPatch) (name : Token) (items : List Item)
    → values name (overlay patch items) ≡ replaced patch name (values name items)
unfolding values overlay replaced repeat shown
values-overlay patch name [] = grind arith
values-overlay patch name (positional token ∷ items) = values-overlay patch name items
values-overlay patch name (option token own inline value ∷ items) =
    grind (arith, values-overlay patch name items, eq_chars→eq own name)

not_set :
    (set : List Setting) (name : Token)
    → contains_token (map (λ s. s.0) set) name ≡ false
    → setting set name ≡ none
unfolding contains_token setting
not_set [] name h = refl
not_set ((own, value) ∷ rest) name h = grind (arith, not_set rest name)

values-added :
    (done : List Token) (set : List Setting) (name : Token)
    → has_duplicate (map (λ s. s.0) set) ≡ false
    → values name (added done set) ≡ (
        if contains_token done name
        then []
        else elim (setting set name) [ some value ↦ value ∷ [] | none ↦ [] ])
unfolding values added setting has_duplicate shown
values-added done [] name once = grind arith
values-added done ((own, value) ∷ rest) name once =
    grind
      (arith, values-added done rest name (grind arith), eq_chars→eq own name, not_set rest name)

contains_token-handled :
    (patch : ServerArgumentPatch) (ns : List Token) (name : Token)
    → contains_token (handled patch ns) name ≡ contains_token ns name && touched patch name
unfolding contains_token handled
contains_token-handled patch [] name = refl
contains_token-handled patch (n ∷ ns) name =
    grind (arith, contains_token-handled patch ns name, eq_chars→eq n name)

no_values :
    (name : Token) (items : List Item)
    → contains_token (names items) name ≡ false
    → values name items ≡ []
unfolding values names contains_token
no_values name [] h = refl
no_values name (positional token ∷ items) h = no_values name items h
no_values name (option token own inline value ∷ items) h = grind (arith, no_values name items)

one_value :
    (patch : ServerArgumentPatch) (name : Token) (v : Option Token) (items : List Item)
    → any_ambiguous patch (names items) ≡ false
    → touched patch name ≡ true
    → repeat v (values name items) ≡ (if contains_token (names items) name then v ∷ [] else [])
unfolding values names contains_token any_ambiguous repeat
one_value patch name v [] a t = refl
one_value patch name v (positional token ∷ items) a t = one_value patch name v items a t
one_value patch name v (option token own inline value ∷ items) a t =
    grind (arith, one_value patch name v items, no_values name items, eq_chars→eq own name)

removed_not_set :
    (set : List Setting) (remove : List Token) (name : Token)
    → overlaps set remove ≡ false
    → contains_token remove name ≡ true
    → setting set name ≡ none
unfolding overlaps setting
removed_not_set [] remove name o c = refl
removed_not_set ((own, value) ∷ rest) remove name o c =
    grind (arith, removed_not_set rest remove name, eq_chars→eq own name)

append_nil : (xs : List (Option Token)) → xs ++ [] ≡ xs
append_nil [] = refl
append_nil (x ∷ xs) = ap (λ l. x ∷ l) (append_nil xs)

settled :
    (patch : ServerArgumentPatch) (name : Token) (items : List Item)
    → Consistent patch
    → any_ambiguous patch (names items) ≡ false
    → values name (overlay patch items ++ added (handled patch (names items)) patch.set)
      ≡ expected patch name (values name items)
unfolding expected replaced
settled patch name items good clear = grind (
  arith,
  values-append name (overlay patch items) (added (handled patch (names items)) patch.set),
  values-overlay patch name items,
  values-added (handled patch (names items)) patch.set name good.once,
  contains_token-handled patch (names items) name,
  removed_not_set patch.set patch.remove name good.not_both,
  one_value patch name,
  append_nil (values name items),
)

others-append : (xs ys : List Item) → others (xs ++ ys) ≡ others xs ++ others ys
unfolding others
others-append [] ys = refl
others-append (positional token ∷ xs) ys = ap (λ l. token ∷ l) (others-append xs ys)
others-append (option token own inline value ∷ xs) ys = others-append xs ys

others-overlay :
    (patch : ServerArgumentPatch) (items : List Item) → others (overlay patch items) ≡ others items
unfolding others overlay
others-overlay patch [] = refl
others-overlay patch (positional token ∷ items) = ap (λ l. token ∷ l) (others-overlay patch items)
others-overlay patch (option token own inline value ∷ items) =
    grind (arith, others-overlay patch items)

others-added : (done : List Token) (set : List Setting) → others (added done set) ≡ []
unfolding others added
others-added done [] = refl
others-added done ((own, value) ∷ rest) = grind (arith, others-added done rest)

nothing_after : (xs : List Token) → xs ++ [] ≡ xs
nothing_after [] = refl
nothing_after (x ∷ xs) = ap (λ l. x ∷ l) (nothing_after xs)

others-settled :
    (patch : ServerArgumentPatch) (items : List Item) (done : List Token)
    → others (overlay patch items ++ added done patch.set) ≡ others items
others-settled patch items done =
    others-append (overlay patch items) (added done patch.set)
    ∙ ap (λ l. others (overlay patch items) ++ l) (others-added done patch.set)
    ∙ nothing_after (others (overlay patch items))
    ∙ others-overlay patch items

pub patched :
    (patch : ServerArgumentPatch) (baseline : List Token) (name : Token) {out rest : List Token}
    {items : List Item}
    → apply patch baseline ≡ ok out
    → walk baseline ≡ ok (items, rest)
    → Leading items
    → All Settable patch.set
    → Consistent patch
    → (found : List Item) × (walk out ≡ ok (found, rest))
      × (values name found ≡ expected patch name (values name items))
      × (others found ≡ others items)
patched patch baseline name {out} {rest} {items} h w leading set good = (
  overlay patch items ++ added (handled patch (names items)) patch.set,
  apply-walk patch baseline h w leading set,
  settled patch name items good (apply-clear patch baseline h w),
  others-settled patch items (handled patch (names items)),
)
