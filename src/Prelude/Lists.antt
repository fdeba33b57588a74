-- ===== src/Prelude/Lists.antt =====
-- Lists measured by native numbers, membership tests, and predicates on every element.
use Prim.Native.Nat.{ℕ, suc, ◌+◌}
use mathlib.Core.Path.{◌≡◌, refl, subst}
use mathlib.Core.Bool.{Bool, true, false}
use mathlib.Core.List.{Memᴰ}
use mathlib.Core.List.{List, [], ◌∷◌, ◌++◌}
use native.Mathlib.Omega.{arith}

module _ {ℓ} {A : Type ℓ} where
  abbrev pub length : List A → ℕ
  length [] = 0
  length (x ∷ xs) = suc (length xs)

  pub length-append : (xs ys : List A) → length (xs ++ ys) ≡ length xs + length ys
  length-append [] ys = omega arith
  length-append (x ∷ xs) ys = omega (arith, length-append xs ys)

  -- `x in xs`, by a decision of equality.
  abbrev pub contains : Discrete A → List A → A → Bool
  contains d [] x = false
  contains d (y ∷ ys) x = elim (d y x) [ yes _ ↦ true | no _ ↦ contains d ys x ]

module _ {ℓ κ} {A : Type ℓ} (P : A → Type κ) where
  abbrev pub All : List A → Type κ
  All [] = Unit
  All (x ∷ xs) = P x × All xs

  pub All-append : (xs : List A) (y : A) → All xs → P y → All (xs ++ (y ∷ []))
  All-append [] y h k = (k, tt)
  All-append (x ∷ xs) y h k = (h.0, All-append xs y h.1 k)

module _ {ℓ κ} {A : Type ℓ} {P Q : A → Type κ} where
  pub All-implies : (xs : List A) → ((x : A) → P x → Q x) → All P xs → All Q xs
  All-implies [] f h = tt
  All-implies (x ∷ xs) f h = (f x h.0, All-implies xs f h.1)

module _ {ℓ} {A : Type ℓ} where
  -- Every element of a list is in it.
  pub All-Memᴰ : (xs : List A) → All (λ x. Memᴰ x xs) xs
  All-Memᴰ [] = tt
  All-Memᴰ (x ∷ xs) = (Memᴰ.head refl, All-implies xs (λ y m. Memᴰ.tail m) (All-Memᴰ xs))

module _ {ℓ κ} {A : Type ℓ} (P : A → Type κ) (d : Discrete A) where
  pick :
      (x : A) {y : A} (rest : Bool)
      → P y
      → (rest ≡ true → P x)
      → (r : Dec (y ≡ x)) → (elim r [ yes _ ↦ true | no _ ↦ rest ]) ≡ true
      → P x
  pick x rest h ih (yes e) c = subst P e h
  pick x rest h ih (no n) c = ih c

  -- What holds of every element holds of each that the test finds.
  pub All-contains : (xs : List A) (x : A) → All P xs → contains d xs x ≡ true → P x
  All-contains [] x h c = cc
  All-contains (y ∷ ys) x h c =
      pick x (contains d ys x) h.0 (λ c'. All-contains ys x h.1 c') (d y x) c
