-- ===== src/Floats/Scaled.antt =====
-- A concrete `FloatOps`, for examples: thousandths, with every value finite. It meets `FloatLaws`, so
-- the facts that the theorems ask for can hold.
use Prim.Native.Nat.{◌/◌}
use euboulia.Prelude.{
  ℕ, suc, ◌+◌, ◌-◌, ◌*◌, ◌≡◌, refl, Bool, true, false, List, [], ◌∷◌, arith, leb, ltb,
  if◌then◌else◌,
}
use euboulia.Floats.{FloatOps, FloatLaws}

-- `negsuc n` is -(n + 1).
pub data ℤ : Type 0 where
  pos : ℕ → ℤ
  negsuc : ℕ → ℤ

abbrev pos_part : ℤ → ℕ
pos_part (pos n) = n
pos_part (negsuc n) = 0

abbrev neg_part : ℤ → ℕ
neg_part (pos n) = 0
neg_part (negsuc n) = suc n

abbrev sub_ℕ : ℕ → ℕ → ℤ
sub_ℕ a b = if leb b a then pos (a - b) else negsuc (b - a - 1)

abbrev pub leb_ℤ : ℤ → ℤ → Bool
leb_ℤ a b = leb (pos_part a + neg_part b) (pos_part b + neg_part a)

abbrev pub ltb_ℤ : ℤ → ℤ → Bool
ltb_ℤ a b = ltb (pos_part a + neg_part b) (pos_part b + neg_part a)

abbrev sub_ℤ : ℤ → ℤ → ℤ
sub_ℤ a b = sub_ℕ (pos_part a + neg_part b) (neg_part a + pos_part b)

abbrev neg_ℤ : ℤ → ℤ
neg_ℤ a = sub_ℕ (neg_part a) (pos_part a)

abbrev abs_ℤ : ℤ → ℤ
abs_ℤ a = pos (pos_part a + neg_part a)

-- Of thousandths, rounded towards zero; division by zero gives zero.
abbrev quotient : ℤ → ℤ → ℤ
quotient (pos a) (pos b) = pos (a * 1000 / b)
quotient (pos a) (negsuc b) = neg_ℤ (pos (a * 1000 / suc b))
quotient (negsuc a) (pos b) = neg_ℤ (pos (suc a * 1000 / b))
quotient (negsuc a) (negsuc b) = pos (suc a * 1000 / suc b)

-- The lower middle element stands in for the median where no order is needed.
abbrev middle : List ℤ → ℤ
middle [] = pos 0
middle (x ∷ []) = x
middle (x ∷ (y ∷ [])) = x
middle (x ∷ (y ∷ xs)) = y

abbrev pub thousandths : FloatOps
thousandths = record {
  Float = ℤ;
  zero_float = pos 0;
  one_float = pos 1000;
  le = leb_ℤ;
  lt = ltb_ℤ;
  eq = λ a b. if leb_ℤ a b then leb_ℤ b a else false;
  sub = sub_ℤ;
  div = quotient;
  neg = neg_ℤ;
  abs = abs_ℤ;
  larger = λ a b. if leb_ℤ a b then b else a;
  is_finite = λ a. true;
  is_close = λ a b. false;
  tiny = pos 1;
  median = middle;
}

module _ (a b : ℤ) where
  le_total : ltb_ℤ a b ≡ false → leb_ℤ b a ≡ true
  le_total h = ground arith

  sub_nonneg : leb_ℤ b a ≡ true → leb_ℤ (pos 0) (sub_ℤ a b) ≡ true
  sub_nonneg h = ground arith

div_nonneg :
    (a b : ℤ)
    → leb_ℤ (pos 0) a ≡ true
    → ltb_ℤ (pos 0) b ≡ true
    → leb_ℤ (pos 0) (quotient a b) ≡ true
div_nonneg (pos a) (pos b) h k = ground arith
div_nonneg (pos a) (negsuc b) h k = ground arith
div_nonneg (negsuc a) b h k = ground arith

abs_pos :
    (a : ℤ)
    → (if leb_ℤ a (pos 0) then leb_ℤ (pos 0) a else false) ≡ false
    → ltb_ℤ (pos 0) (abs_ℤ a) ≡ true
abs_pos a h = ground arith

neg_nonpos : (a : ℤ) → leb_ℤ (pos 0) a ≡ true → leb_ℤ (neg_ℤ a) (pos 0) ≡ true
neg_nonpos a h = ground arith

le_refl : (a : ℤ) → leb_ℤ a a ≡ true
le_refl a = ground arith

le_trans : (a b c : ℤ) → leb_ℤ a b ≡ true → leb_ℤ b c ≡ true → leb_ℤ a c ≡ true
le_trans a b c h k = ground arith

not_lt-le : (a b : ℤ) → ltb_ℤ a b ≡ true → leb_ℤ b a ≡ false
not_lt-le a b h = ground arith

pub thousandths_laws : FloatLaws thousandths
thousandths_laws = record {
  finite_zero = refl;
  le_refl = λ a h. le_refl a;
  le_trans = le_trans;
  not_lt-le = not_lt-le;
  le_total = λ a b f g. le_total a b;
  sub_nonneg = λ a b f g. sub_nonneg a b;
  div_nonneg = λ a b h f. div_nonneg a b h;
  abs_pos = λ a f. abs_pos a;
  abs_finite = λ a h. refl;
  neg_nonpos = neg_nonpos;
}
