-- ===== src/Prelude/Equal.antt =====
-- What `eq_chars` decides.
use Prim.Native.Nat.{ℕ}
use mathlib.Core.Path.{◌≡◌, refl}
use mathlib.Core.Bool.{true}
use mathlib.Core.List.{List, [], ◌∷◌}
use native.Mathlib.Omega.{arith}
use euboulia.Prelude.Chars.{eq_code, eq_chars}

pub eq_code→eq : (a b : ℕ) → eq_code a b ≡ true → a ≡ b
eq_code→eq a b h = ground arith

pub eq_chars_refl : (cs : List ℕ) → eq_chars cs cs ≡ true
unfolding eq_chars
eq_chars_refl [] = refl
eq_chars_refl (c ∷ cs) = grind (arith, eq_chars_refl cs)

pub eq_chars→eq : (as' bs : List ℕ) → eq_chars as' bs ≡ true → as' ≡ bs
unfolding eq_chars
eq_chars→eq [] [] h = refl
eq_chars→eq [] (b ∷ bs) h = cc
eq_chars→eq (a ∷ as') [] h = cc
eq_chars→eq (a ∷ as') (b ∷ bs) h =
    grind (arith, eq_code→eq a b (grind arith), eq_chars→eq as' bs (grind arith))

pub eq_chars_sym : (as' bs : List ℕ) → eq_chars as' bs ≡ eq_chars bs as'
unfolding eq_chars
eq_chars_sym [] [] = refl
eq_chars_sym [] (b ∷ bs) = refl
eq_chars_sym (a ∷ as') [] = refl
eq_chars_sym (a ∷ as') (b ∷ bs) = ground (arith, eq_chars_sym as' bs)
