-- ===== src/Arguments/Examples.antt =====
-- Examples for the overlay of a command line.
use euboulia.Prelude.{false, map, All, ◌≡◌, refl, none, some, List, [], ◌∷◌}
use euboulia.Prelude.Chars.{codes}
use euboulia.Arguments.{Token, Setting, ServerArgumentPatch, ok, err, ambiguous, set_and_removed}
use euboulia.Arguments.Walk.{Item, positional, option, walk, is_value}
use euboulia.Arguments.Overlay.{new_patch, apply, has_duplicate}
use euboulia.Arguments.Render.{GoodValue, Leading, Options}
use euboulia.Arguments.Values.{values, expected, others}
use euboulia.Arguments.Constructed.{apply-values}

abbrev baseline : List Token
baseline =
    codes "python3"
    ∷ codes "-m"
    ∷ codes "server"
    ∷ codes "--model"
    ∷ codes "m"
    ∷ codes "--tp-size=1"
    ∷ codes "--trust"
    ∷ codes "--host"
    ∷ codes "h"
    ∷ codes "--"
    ∷ codes "x"
    ∷ []

abbrev set : List Setting
set = (codes "--tp-size", some (codes "2")) ∷ (codes "--mem", some (codes "0.8")) ∷ []

abbrev patch : ServerArgumentPatch
patch = record {
  set = (codes "--mem", some (codes "0.8")) ∷ (codes "--tp-size", some (codes "2")) ∷ [];
  remove = codes "--trust" ∷ [];
}

abbrev laid_over : List Token
laid_over =
    codes "python3"
    ∷ codes "-m"
    ∷ codes "server"
    ∷ codes "--model"
    ∷ codes "m"
    ∷ codes "--tp-size"
    ∷ codes "2"
    ∷ codes "--host"
    ∷ codes "h"
    ∷ codes "--mem"
    ∷ codes "0.8"
    ∷ codes "--"
    ∷ codes "x"
    ∷ []

abbrev items : List Item
items =
    positional (codes "python3")
    ∷ positional (codes "-m")
    ∷ positional (codes "server")
    ∷ option (codes "--model") (codes "--model") none (some (codes "m"))
    ∷ option (codes "--tp-size=1") (codes "--tp-size") (some (codes "1")) none
    ∷ option (codes "--trust") (codes "--trust") none none
    ∷ option (codes "--host") (codes "--host") none (some (codes "h"))
    ∷ []

made : new_patch set (codes "--trust" ∷ []) ≡ ok patch
unfolding new_patch
made = refl

both : new_patch set (codes "--mem" ∷ []) ≡ err set_and_removed
unfolding new_patch
both = refl

walked : walk baseline ≡ ok (items, codes "--" ∷ codes "x" ∷ [])
unfolding walk
walked = refl

applied : apply patch baseline ≡ ok laid_over
unfolding apply
applied = refl

twice :
    apply patch (codes "server" ∷ codes "--mem=1" ∷ codes "--mem" ∷ codes "2" ∷ []) ≡ err ambiguous
unfolding apply
twice = refl

proper : All (λ s. GoodValue none s.1) set
unfolding GoodValue is_value
proper = (refl, (refl, tt))

once : has_duplicate (map (λ s. s.0) set) ≡ false
unfolding has_duplicate
once = refl

leading : Leading items
unfolding Leading Options
leading = tt

apply-values_example :
    (found : List Item) × (walk laid_over ≡ ok (found, codes "--" ∷ codes "x" ∷ []))
    × (values (codes "--tp-size") found
        ≡ expected patch (codes "--tp-size") (values (codes "--tp-size") items))
    × (others found ≡ others items)
apply-values_example =
    apply-values set (codes "--trust" ∷ []) baseline (codes "--tp-size") once proper made applied
      walked leading
