-- ===== src/Arguments/Applied.antt =====
-- `apply` writes down the overlay of the patch over what the walk found.
use euboulia.Prelude.{
  ◌≡◌, ◌∙◌, refl, sym, ap, subst, arith, true, false, none, some, List, [], ◌∷◌, ◌++◌, All,
}
use euboulia.Arguments.{ambiguous, reject_if-ok, ok_inj, Token, ServerArgumentPatch, ok, >>=-ok}
use euboulia.Arguments.Walk.{Item, positional, option, is_dashes, is_value, walk, names}
use euboulia.Arguments.Overlay.{
  any_ambiguous, validate_argv, handled, overlaid, apply, rewrite_all, additions,
  insert_before_dashes,
}
use euboulia.Arguments.Render.{
  Walked, Leading-walk, walk-Walked, Good, GoodValue, Ended, Leading, render, tokens_of,
}
use euboulia.Arguments.Items.{
  added-Good, All-both, added-Options, overlay-Leading, overlay-Good, rewrite_all-overlay,
  additions-added, append_assoc, render-append, overlay, added, Settable,
}

append_nil : (xs : List Token) → xs ++ [] ≡ xs
append_nil [] = refl
append_nil (x ∷ xs) = ap (λ l. x ∷ l) (append_nil xs)

insert-past :
    (patch : ServerArgumentPatch) (new : List Token) (token : Token) (tokens : List Token)
    → is_dashes token ≡ false
    → insert_before_dashes patch new (token ∷ tokens)
      ≡ token ∷ insert_before_dashes patch new tokens
unfolding insert_before_dashes
insert-past patch new token tokens h = grind arith

insert-Ended :
    (patch : ServerArgumentPatch) (new rest : List Token)
    → Ended rest
    → insert_before_dashes patch new rest ≡ new ++ rest
unfolding insert_before_dashes Ended
insert-Ended patch new [] e = sym (append_nil new)
insert-Ended patch new (token ∷ rest) e = grind arith

value_not_dashes : (value : Token) → is_value value ≡ true → is_dashes value ≡ false
unfolding is_value
value_not_dashes value h = ground arith

insert-render :
    (patch : ServerArgumentPatch) (new : List Token) (items : List Item) (rest : List Token)
    → All Good items
    → Ended rest
    → insert_before_dashes patch new (render items ++ rest) ≡ render items ++ (new ++ rest)
unfolding render tokens_of Good
insert-render patch new [] rest g e = insert-Ended patch new rest e
insert-render patch new (positional token ∷ items) rest g e =
    insert-past patch new token (render items ++ rest) g.0.0
    ∙ ap (λ l. token ∷ l) (insert-render patch new items rest g.1 e)
insert-render patch new (option token name inline none ∷ items) rest g e =
    insert-past patch new token (render items ++ rest) g.0.0
    ∙ ap (λ l. token ∷ l) (insert-render patch new items rest g.1 e)
insert-render patch new (option token name none (some value) ∷ items) rest g e =
    insert-past patch new token (value ∷ (render items ++ rest)) g.0.0
    ∙ ap (λ l. token ∷ l)
        (insert-past patch new value (render items ++ rest)
            (value_not_dashes value (unfold GoodValue in g.0.2))
          ∙ ap (λ l. value ∷ l) (insert-render patch new items rest g.1 e))
insert-render patch new (option token name (some inline) (some value) ∷ items) rest g e =
    nonsense g.0.2
  where
    nonsense :
        GoodValue (some inline) (some value)
        → insert_before_dashes patch new
            (render (option token name (some inline) (some value) ∷ items) ++ rest)
          ≡ render (option token name (some inline) (some value) ∷ items) ++ (new ++ rest)
    nonsense h = unfold GoodValue in cc

-- The tokens of `apply` are those of the items.
rendered :
    (patch : ServerArgumentPatch) (items : List Item) (rest done : List Token)
    → All Good (overlay patch items)
    → Ended rest
    → render (overlay patch items ++ added done patch.set) ++ rest
      ≡ insert_before_dashes patch
          (additions patch done patch.set)
          (rewrite_all patch items ++ rest)
rendered patch items rest done good ended =
    ap (λ l. l ++ rest) (render-append (overlay patch items) (added done patch.set))
    ∙ append_assoc (render (overlay patch items)) (render (added done patch.set)) rest
    ∙ ap (λ l. render (overlay patch items) ++ (l ++ rest))
        (sym (additions-added patch done patch.set))
    ∙ sym
        (insert-render patch (additions patch done patch.set) (overlay patch items) rest good ended)
    ∙ ap (λ l. insert_before_dashes patch (additions patch done patch.set) (l ++ rest))
        (sym (rewrite_all-overlay patch items))

-- What `apply` returns after its tests.
apply-written :
    (patch : ServerArgumentPatch) (baseline : List Token) {out rest : List Token}
    {items : List Item}
    → apply patch baseline ≡ ok out
    → walk baseline ≡ ok (items, rest)
    → (any_ambiguous patch (names items) ≡ false)
      × (insert_before_dashes patch
            (additions patch (handled patch (names items)) patch.set)
            (rewrite_all patch items ++ rest)
          ≡ out)
unfolding apply overlaid
apply-written patch baseline {out} {rest} {items} h w =
    let (done, valid, h1) = >>=-ok (validate_argv baseline) _ h in
    let (walked, w', h2) = >>=-ok (walk baseline) (overlaid patch) h1 in
    let h3 = subst (λ x. overlaid patch x ≡ ok out) (ok_inj (sym w' ∙ w)) h2 in
    let (clear, written) = reject_if-ok (any_ambiguous patch (names items)) ambiguous _ h3 in
    (clear, ok_inj written)

pub apply-clear :
    (patch : ServerArgumentPatch) (baseline : List Token) {out rest : List Token}
    {items : List Item}
    → apply patch baseline ≡ ok out
    → walk baseline ≡ ok (items, rest)
    → any_ambiguous patch (names items) ≡ false
apply-clear patch baseline h w = (apply-written patch baseline h w).0

-- If a patch is applied to a command line whose other tokens stand before its options, and each value
-- that the patch sets is read back as one, then a walk over the result finds the items of the command
-- line with the patch laid over them, then the settings that had no item, and the same tokens from
-- "--" on.
pub apply-walk :
    (patch : ServerArgumentPatch) (baseline : List Token) {out rest : List Token}
    {items : List Item}
    → apply patch baseline ≡ ok out
    → walk baseline ≡ ok (items, rest)
    → Leading items
    → All Settable patch.set
    → walk out ≡ ok (overlay patch items ++ added (handled patch (names items)) patch.set, rest)
unfolding Walked
apply-walk patch baseline {out} {rest} {items} h w leading set =
    let (clear, written) = apply-written patch baseline h w in
    let (good, ended) = walk-Walked baseline (items, rest) w in
    let new = added (handled patch (names items)) patch.set in
    let settled = overlay patch items ++ new in
    let shape =
      rendered patch items rest (handled patch (names items)) (overlay-Good patch items set good)
        ended
      ∙ written in
    ap walk (sym shape)
    ∙ Leading-walk settled rest
        (overlay-Leading patch items new leading
          (added-Options (handled patch (names items)) patch.set))
        (All-both Good (overlay patch items) new (overlay-Good patch items set good)
          (added-Good (handled patch (names items)) patch.set set))
        ended
