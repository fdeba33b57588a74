-- ===== src/Planner/Options.antt =====
-- The names that `_server_arguments` of patch_catalog.py reads.
use euboulia.Prelude.{
  subst, All, ◌≡◌, ◌≢◌, refl, arith, true, false, eq_iff, some, List, [], ◌∷◌, String, Option,
  if◌then◌else◌, str_eq,
}
use euboulia.Prelude.Dict.{Dict, insert}
use euboulia.Planner.{
  text, not_an_option, among, ArgumentValue, Entries, Items, Yaml, Library, Result, ok, err, ◌>>=◌,
  entry, other_key, end, item, none_left,
}
use euboulia.Planner.Catalog.{
  text_of, has_duplicates, server_argument, server_argument_value, selected_arguments,
  removed_arguments,
}

-- No two of them are the same.
abbrev pub Distinct : List String → Type 0
Distinct [] = Unit
Distinct (x ∷ xs) = All (λ y. x ≢ y) xs × Distinct xs

not_among : (x : String) (xs : List String) → among x xs ≡ false → All (λ y. x ≢ y) xs
not_among x [] h = tt
not_among x (y ∷ ys) h =
    (λ e. ground (arith, eq_iff x y, eq_iff y x), not_among x ys (ground arith))

pub has_duplicates-Distinct : (xs : List String) → has_duplicates xs ≡ false → Distinct xs
unfolding has_duplicates
has_duplicates-Distinct [] h = tt
has_duplicates-Distinct (x ∷ xs) h =
    (not_among x xs (ground arith), has_duplicates-Distinct xs (ground arith))

pub ok_inj : {A : Type 0} {x y : A} → ok x ≡ ok y → x ≡ y
ok_inj h = cc

pub bound-ok :
    {A B : Type 0} (m : Result A) (next : A → Result B) {b : B}
    → (m >>= next) ≡ ok b
    → (a : A) × (m ≡ ok a) × (next a ≡ ok b)
bound-ok (ok a) next h = (a, refl, h)
bound-ok (err e) next h = cc

module _ {Float : Type 0} (L : Library Float) where
  server_argument-option :
      (value : Option (Yaml Float)) {name : String}
      → server_argument L value ≡ ok name
      → L.is_option name ≡ true
  unfolding server_argument
  server_argument-option value {name} h =
      let (raw, read, tested) = bound-ok (text_of L value) _ h in is_tested raw tested
    where
      is_tested :
          (raw : String)
          → (if L.is_option raw then ok raw else err not_an_option) ≡ ok name
          → L.is_option name ≡ true
      is_tested raw tested = grind arith

  abbrev Options : List String → Type 0
  Options names = All (λ name. L.is_option name ≡ true) names

  pub removed_arguments-Options :
      (vs : Items Float) {names : List String} → removed_arguments L vs ≡ ok names → Options names
  unfolding removed_arguments
  removed_arguments-Options none_left h = subst Options (ok_inj h) tt
  removed_arguments-Options (item v rest) h =
      let (first, one, h1) = bound-ok (server_argument L (some v)) _ h in
      let (others, two, made) = bound-ok (removed_arguments L rest) _ h1 in
      subst Options (ok_inj made)
        (server_argument-option (some v) one, removed_arguments-Options rest two)

  insert-options :
      (name : String) (value : ArgumentValue Float) (d : Dict (ArgumentValue Float))
      → L.is_option name ≡ true
      → All (λ e. L.is_option e.0 ≡ true) d
      → All (λ e. L.is_option e.0 ≡ true) (insert name value d)
  unfolding insert
  insert-options name value [] h k = (h, tt)
  insert-options name value ((own, old) ∷ rest) h k =
      elim (str_eq own name)
        as (λ b.
          All (λ e. L.is_option e.0 ≡ true)
            (if b then (own, value) ∷ rest else (own, old) ∷ insert name value rest)) [
              | true ↦ (k.0, k.1)
              | false ↦ (k.0, insert-options name value rest h k.1)
            ]

  pub selected_arguments-options :
      (es : Entries Float) (d : Dict (ArgumentValue Float)) {out : Dict (ArgumentValue Float)}
      → All (λ e. L.is_option e.0 ≡ true) d
      → selected_arguments L es d ≡ ok out
      → All (λ e. L.is_option e.0 ≡ true) out
  unfolding selected_arguments
  selected_arguments-options end d k h = subst (All (λ e. L.is_option e.0 ≡ true)) (ok_inj h) k
  selected_arguments-options (other_key v rest) d k h = cc
  selected_arguments-options (entry raw v rest) d k h =
      let (name, one, h1) = bound-ok (server_argument L (some (text raw))) _ h in
      let (value, two, h2) = bound-ok (server_argument_value L v) _ h1 in
      selected_arguments-options rest (insert name value d)
        (insert-options name value d (server_argument-option (some (text raw)) one) k) h2
