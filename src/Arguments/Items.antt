-- ===== src/Arguments/Items.antt =====
-- The overlay of a patch over items, which does not depend on how they are written.
use euboulia.Prelude.{
  ◌≡◌, ◌∙◌, refl, sym, ap, subst, Bool, true, false, Option, none, some, List, [], ◌∷◌, ◌++◌, All,
  if◌then◌else◌, if-elim,
}
use euboulia.Prelude.Chars.{eq_chars}
use euboulia.Prelude.Equal.{eq_chars→eq}
use euboulia.Arguments.{Token, Setting, ServerArgumentPatch, contains_token, setting}
use euboulia.Arguments.Walk.{Item, positional, option, value_tokens}
use euboulia.Arguments.Overlay.{rewritten, rewrite_all, additions}
use euboulia.Arguments.Render.{Good, Options, Leading, render, tokens_of}

-- A setting that the walk reads back.
unfoldable pub Settable : Setting → Type 0
Settable (name, value) = Good (option name name none value)

-- What a patch makes of an item.
unfoldable pub overlay : ServerArgumentPatch → List Item → List Item
unfolding contains_token setting
overlay patch [] = []
overlay patch (positional token ∷ items) = positional token ∷ overlay patch items
overlay patch (option token name inline value ∷ items) =
    let later = overlay patch items in
    if contains_token patch.remove name then later else elim (setting patch.set name) [
      | some replacement ↦ option name name none replacement ∷ later
      | none ↦ option token name inline value ∷ later
    ]

-- The settings that are not handled.
unfoldable pub added : List Token → List Setting → List Item
unfolding contains_token
added done [] = []
added done ((name, value) ∷ rest) =
    let later = added done rest in
    if contains_token done name then later else option name name none value ∷ later

pub append_assoc : {A : Type 0} (xs ys zs : List A) → (xs ++ ys) ++ zs ≡ xs ++ (ys ++ zs)
append_assoc [] ys zs = refl
append_assoc (x ∷ xs) ys zs = ap (λ l. x ∷ l) (append_assoc xs ys zs)

pub render-append : (xs ys : List Item) → render (xs ++ ys) ≡ render xs ++ render ys
unfolding render
render-append [] ys = refl
render-append (x ∷ xs) ys =
    ap (λ l. tokens_of x ++ l) (render-append xs ys)
    ∙ sym (append_assoc (tokens_of x) (render xs) (render ys))

pub rewrite_all-overlay :
    (patch : ServerArgumentPatch) (items : List Item)
    → rewrite_all patch items ≡ render (overlay patch items)
unfolding rewrite_all overlay render rewritten tokens_of
rewrite_all-overlay patch [] = refl
rewrite_all-overlay patch (positional token ∷ items) =
    ap (λ l. token ∷ l) (rewrite_all-overlay patch items)
rewrite_all-overlay patch (option token name inline value ∷ items) =
    by_case (contains_token patch.remove name) (setting patch.set name) (overlay patch items)
      (rewrite_all-overlay patch items)
  where
    by_case :
        (b : Bool) (o : Option (Option Token)) {tokens : List Token} (later : List Item)
        → tokens ≡ render later
        → (if b then [] else elim o [
          | some replacement ↦ name ∷ value_tokens replacement
          | none ↦ token ∷ value_tokens value
        ])
            ++ tokens
          ≡ render (
              if b then later else elim o [
                | some replacement ↦ option name name none replacement ∷ later
                | none ↦ option token name inline value ∷ later
              ])
    by_case true o later h = h
    by_case false (some replacement) later h = ap (λ l. (name ∷ value_tokens replacement) ++ l) h
    by_case false none later h = ap (λ l. (token ∷ value_tokens value) ++ l) h

pub additions-added :
    (patch : ServerArgumentPatch) (done : List Token) (set : List Setting)
    → additions patch done set ≡ render (added done set)
unfolding additions added render tokens_of
additions-added patch done [] = refl
additions-added patch done ((name, value) ∷ rest) =
    by_test (contains_token done name) (added done rest) (additions-added patch done rest)
  where
    by_test :
        (b : Bool) {tokens : List Token} (later : List Item)
        → tokens ≡ render later
        → (if b then tokens else (name ∷ value_tokens value) ++ tokens)
          ≡ render (if b then later else option name name none value ∷ later)
    by_test true later h = h
    by_test false later h = ap (λ l. (name ∷ value_tokens value) ++ l) h

pub setting-Settable :
    (set : List Setting) (name : Token) {replacement : Option Token}
    → All Settable set
    → setting set name ≡ some replacement
    → Good (option name name none replacement)
unfolding setting Good Settable
setting-Settable [] name all h = cc
setting-Settable ((n, value) ∷ rest) name {replacement} all h =
    by_test (eq_chars n name) refl (λ h'. setting-Settable rest name all.1 h') h
  where
    by_test :
        (b : Bool)
        → eq_chars n name ≡ b
        → (setting rest name ≡ some replacement → Good (option name name none replacement))
        → (if b then some value else setting rest name) ≡ some replacement
        → Good (option name name none replacement)
    by_test true e ih h' =
        subst (λ x. Good (option x x none replacement)) (eq_chars→eq n name e)
          (subst (λ v. Settable (n, v)) (cc h') all.0)
    by_test false e ih h' = ih h'

pub overlay-Good :
    (patch : ServerArgumentPatch) (items : List Item)
    → All Settable patch.set
    → All Good items
    → All Good (overlay patch items)
unfolding overlay
overlay-Good patch [] set g = tt
overlay-Good patch (positional token ∷ items) set g = (g.0, overlay-Good patch items set g.1)
overlay-Good patch (option token name inline value ∷ items) set g =
    by_case (contains_token patch.remove name) (setting patch.set name) refl
      (overlay-Good patch items set g.1)
  where
    by_case :
        (b : Bool) (o : Option (Option Token))
        → setting patch.set name ≡ o
        → All Good (overlay patch items)
        → All Good (
            if b then overlay patch items else elim o [
              | some replacement ↦ option name name none replacement ∷ overlay patch items
              | none ↦ option token name inline value ∷ overlay patch items
            ])
    by_case true o e later = later
    by_case false (some replacement) e later = (setting-Settable patch.set name set e, later)
    by_case false none e later = (g.0, later)

overlay-Options :
    (patch : ServerArgumentPatch) (items : List Item)
    → Options items
    → Options (overlay patch items)
unfolding overlay Options
overlay-Options patch [] o = tt
overlay-Options patch (positional token ∷ items) o = cc
overlay-Options patch (option token name inline value ∷ items) o =
    by_case (contains_token patch.remove name) (setting patch.set name)
      (overlay-Options patch items o)
  where
    by_case :
        (b : Bool) (r : Option (Option Token))
        → Options (overlay patch items)
        → Options (
            if b then overlay patch items else elim r [
              | some replacement ↦ option name name none replacement ∷ overlay patch items
              | none ↦ option token name inline value ∷ overlay patch items
            ])
    by_case true r later = later
    by_case false (some replacement) later = later
    by_case false none later = later

Options-Leading : (items : List Item) → Options items → Leading items
unfolding Options Leading
Options-Leading [] o = tt
Options-Leading (positional token ∷ items) o = cc
Options-Leading (option token name inline value ∷ items) o = o

Options-append : (xs ys : List Item) → Options xs → Options ys → Options (xs ++ ys)
unfolding Options
Options-append [] ys o p = p
Options-append (positional token ∷ xs) ys o p = cc
Options-append (option token name inline value ∷ xs) ys o p = Options-append xs ys o p

pub overlay-Leading :
    (patch : ServerArgumentPatch) (items ys : List Item)
    → Leading items
    → Options ys
    → Leading (overlay patch items ++ ys)
unfolding overlay Leading
overlay-Leading patch [] ys l o = Options-Leading ys o
overlay-Leading patch (positional token ∷ items) ys l o = overlay-Leading patch items ys l o
overlay-Leading patch (option token name inline value ∷ items) ys l o =
    Options-Leading (overlay patch (option token name inline value ∷ items) ++ ys) (
      Options-append (overlay patch (option token name inline value ∷ items)) ys
        (overlay-Options patch (option token name inline value ∷ items) (unfold Options in l)) o)

pub added-Options : (done : List Token) (set : List Setting) → Options (added done set)
unfolding added Options
added-Options done [] = tt
added-Options done ((name, value) ∷ rest) =
    if-elim Options (contains_token done name) (added done rest)
      (option name name none value ∷ added done rest) (λ handled. added-Options done rest)
      (λ new. added-Options done rest)

pub added-Good :
    (done : List Token) (set : List Setting) → All Settable set → All Good (added done set)
unfolding added Settable
added-Good done [] all = tt
added-Good done ((name, value) ∷ rest) all =
    if-elim (All Good) (contains_token done name) (added done rest)
      (option name name none value ∷ added done rest) (λ handled. added-Good done rest all.1)
      (λ new. (all.0, added-Good done rest all.1))

pub All-both : (P : Item → Type 0) (xs ys : List Item) → All P xs → All P ys → All P (xs ++ ys)
All-both P [] ys h k = k
All-both P (x ∷ xs) ys h k = (h.0, All-both P xs ys h.1 k)
