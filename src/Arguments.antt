-- ===== src/Arguments.antt =====
-- `ServerArgumentPatch` of optimization/target.py: the overlay of a server's command line. A token is
-- a list of code points.
pub mod Walk
pub mod Overlay
pub mod Render
pub mod Items
pub mod Applied
pub mod Values
pub mod Constructed
mod Examples
use euboulia.Prelude.{
  ◌≡◌, refl, Bool, true, false, not, ◌||◌, ◌&&◌, Option, none, some, List, [], ◌∷◌, ℕ, leb,
  if◌then◌else◌,
}
use euboulia.Prelude.Chars.{codes, eq_code, eq_chars, after_prefix, starts_with, has_char, lt_chars}

abbrev pub Token : Type 0
Token = List ℕ

-- The ValueErrors of the constructor and of apply.
pub data Fault : Type 0 where
  bad_option nul_byte removed_twice set_and_removed : Fault
  empty_argv no_executable ambiguous : Fault

pub data Result {ℓ} (A : Type ℓ) : Type ℓ where
  ok : A → Result A
  err : Fault → Result A

infixl 5 ◌>>=◌ ◌>>◌
abbrev pub ◌>>=◌ {ℓ κ} : {A : Type ℓ} {B : Type κ} → Result A → (A → Result B) → Result B
err raised >>= next = err raised
ok value >>= next = next value

abbrev pub ◌>>◌ {ℓ} : {B : Type ℓ} → Result (Unit {0}) → Result B → Result B
first >> rest = first >>= λ done. rest

abbrev pub reject_if : Bool → Fault → Result (Unit {0})
reject_if true e = err e
reject_if false e = ok tt

pub ok_inj {ℓ} : {A : Type ℓ} {x y : A} → ok x ≡ ok y → x ≡ y
ok_inj h = cc

-- What a chain that succeeded has passed on.
pub >>=-ok {ℓ κ} :
    {A : Type ℓ} {B : Type κ} (first : Result A) (next : A → Result B) {out : B}
    → (first >>= next) ≡ ok out
    → (between : A) × (first ≡ ok between) × (next between ≡ ok out)
>>=-ok (err e) next whole = cc
>>=-ok (ok between) next whole = (between, refl, whole)

-- A test that let the code go on had failed.
pub reject_if-ok {ℓ} :
    {B : Type ℓ} (b : Bool) (e : Fault) (rest : Result B) {out : B}
    → (reject_if b e >> rest) ≡ ok out
    → (b ≡ false) × (rest ≡ ok out)
reject_if-ok true e rest whole = cc
reject_if-ok false e rest whole = (refl, whole)

abbrev pub is_alnum : ℕ → Bool
is_alnum c = (leb 48 c && leb c 57) || (leb 65 c && leb c 90) || (leb 97 c && leb c 122)

unfoldable pub name_rest : Token → Bool
name_rest [] = true
name_rest (c ∷ cs) = (is_alnum c || eq_code b'_' c || eq_code b'-' c) && name_rest cs

abbrev pub name_start : Option Token → Bool
unfolding name_rest
name_start none = false
name_start (some []) = false
name_start (some (c ∷ cs)) = is_alnum c && name_rest cs

-- _OPTION_NAME.fullmatch
unfoldable pub is_option_name : Token → Bool
unfolding after_prefix name_start
is_option_name name = name_start (after_prefix (codes "--") name)

-- `none` is a bare flag.
abbrev pub Setting : Type 0
Setting = Token × Option Token

pub record ServerArgumentPatch : Type 0 where
  pub set : List Setting
  pub remove : List Token

unfoldable pub contains_token : List Token → Token → Bool
unfolding eq_chars
contains_token [] name = false
contains_token (n ∷ ns) name = eq_chars n name || contains_token ns name

-- replacements[name], with whether it is there
unfoldable pub setting : List Setting → Token → Option (Option Token)
unfolding eq_chars
setting [] name = none
setting ((n, value) ∷ rest) name = if eq_chars n name then some value else setting rest name
