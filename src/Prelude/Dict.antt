-- ===== src/Prelude/Dict.antt =====
-- Python's `dict` with text keys, as an association list. An assignment to a key that is there keeps
-- its place, as in Python.
use Prim.Native.String.{String}
use mathlib.Core.Path.{◌≡◌, refl}
use mathlib.Core.Bool.{Bool, true, false}
use mathlib.Core.Option.{Option, none, some}
use mathlib.Core.List.{List, [], ◌∷◌}
use native.Mathlib.Omega.{arith}
use text.Mathlib.TextEquality.{eq_iff}
use euboulia.Prelude.Tests.{str_eq, if◌then◌else◌}

abbrev pub Dict {ℓ} : Type ℓ → Type ℓ
Dict V = List (String × V)

module _ {ℓ} {V : Type ℓ} where
  -- d.get(key)
  unfoldable pub lookup : String → Dict V → Option V
  lookup key [] = none
  lookup key ((own, value) ∷ rest) = if str_eq own key then some value else lookup key rest

  -- d[key] = value
  unfoldable pub insert : String → V → Dict V → Dict V
  insert key value [] = (key, value) ∷ []
  insert key value ((own, old) ∷ rest) =
      let later = insert key value rest in
      if str_eq own key then (own, value) ∷ rest else (own, old) ∷ later

  -- d.pop(key, None)
  unfoldable pub remove : String → Dict V → Dict V
  remove key [] = []
  remove key ((own, old) ∷ rest) =
      let later = remove key rest in if str_eq own key then later else (own, old) ∷ later

  -- key in d
  unfoldable pub has_key : Dict V → String → Bool
  unfolding lookup
  has_key d key = elim (lookup key d) [ none ↦ false | some value ↦ true ]

  pub lookup-insert :
      (asked key : String) (value : V) (d : Dict V)
      → lookup asked (insert key value d)
        ≡ (if str_eq key asked then some value else lookup asked d)
  unfolding insert lookup
  lookup-insert asked key value [] = refl
  lookup-insert asked key value ((own, old) ∷ rest) = ground (
    arith,
    lookup-insert asked key value rest,
    eq_iff own asked,
    eq_iff own key,
    eq_iff key asked,
  )

  pub lookup-remove :
      (asked key : String) (d : Dict V)
      → lookup asked (remove key d) ≡ (if str_eq key asked then none else lookup asked d)
  unfolding remove lookup
  lookup-remove asked key [] = ground arith
  lookup-remove asked key ((own, old) ∷ rest) =
      ground
        (arith, eq_iff own asked, eq_iff own key, eq_iff key asked, lookup-remove asked key rest)
