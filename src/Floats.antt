-- ===== src/Floats.antt =====
-- Python's `float` as the components use it: an abstract type with the operations that they call, and,
-- apart, the IEEE 754 facts that some theorems rely on. Comparisons with a NaN are false, so the laws
-- ask for finite values where they need them.
pub mod Scaled
use euboulia.Prelude.{◌≡◌, Bool, true, false, List}

pub record FloatOps : Type 1 where
  pub Float : Type 0
  pub zero_float : Float
  pub one_float : Float
  pub le : Float → Float → Bool
  pub lt : Float → Float → Bool
  pub eq : Float → Float → Bool
  pub sub : Float → Float → Float
  pub div : Float → Float → Float
  pub neg : Float → Float
  pub abs : Float → Float
  pub larger : Float → Float → Float  -- max(a, b)
  pub is_finite : Float → Bool  -- math.isfinite
  pub is_close : Float → Float → Bool  -- math.isclose with rel_tol=1e-12, abs_tol=1e-15
  pub tiny : Float  -- 1e-12
  pub median : List Float → Float  -- statistics.median, on a list that is not empty

module _ (F : FloatOps) where
  open F use {Float, zero_float, le, lt, eq, sub, div, neg, abs, is_finite}

  pub record FloatLaws : Type 0 where
    pub finite_zero : is_finite zero_float ≡ true
    pub le_refl : (a : Float) → is_finite a ≡ true → le a a ≡ true
    pub le_trans : (a b c : Float) → le a b ≡ true → le b c ≡ true → le a c ≡ true
    pub not_lt-le : (a b : Float) → lt a b ≡ true → le b a ≡ false
    pub le_total :
        (a b : Float) → is_finite a ≡ true → is_finite b ≡ true → lt a b ≡ false → le b a ≡ true
    pub sub_nonneg :
        (a b : Float)
        → is_finite a ≡ true
        → is_finite b ≡ true
        → le b a ≡ true
        → le zero_float (sub a b) ≡ true
    pub div_nonneg :
        (a b : Float)
        → le zero_float a ≡ true
        → is_finite b ≡ true
        → lt zero_float b ≡ true
        → le zero_float (div a b) ≡ true
    pub abs_pos :
        (a : Float) → is_finite a ≡ true → eq a zero_float ≡ false → lt zero_float (abs a) ≡ true
    pub abs_finite : (a : Float) → is_finite a ≡ true → is_finite (abs a) ≡ true
    pub neg_nonpos : (a : Float) → le zero_float a ≡ true → le (neg a) zero_float ≡ true
