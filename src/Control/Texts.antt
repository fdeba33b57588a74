-- ===== src/Control/Texts.antt =====
-- The order of texts by their code points, which is that of SQLite's BINARY collation on UTF-8: a
-- strict total order.
use Prim.Native.Char.{code}
use Prim.Native.String.{[], ◌∷◌}
use text.Mathlib.TextEquality.{Char-path}
use euboulia.Prelude.{◌≡◌, refl, arith, Bool, true, false, String, ◌||◌, ◌&&◌, ℕ, ltb, leb}
use euboulia.Control.Queue.{TextOrder}

unfoldable pub by_code_points : String → String → Bool
by_code_points s [] = false
by_code_points [] (d ∷ t) = true
by_code_points (c ∷ s) (d ∷ t) =
    ltb (code c) (code d) || (leb (code c) (code d) && by_code_points s t)

irreflexive : (a : String) → by_code_points a a ≡ false
unfolding by_code_points
irreflexive [] = refl
irreflexive (c ∷ s) = grind (arith, irreflexive s)

transitive :
    (a b c : String)
    → by_code_points a b ≡ true
    → by_code_points b c ≡ true
    → by_code_points a c ≡ true
unfolding by_code_points
transitive a [] c h k = cc
transitive a (d ∷ t) [] h k = cc
transitive [] (d ∷ t) (e ∷ u) h k = refl
transitive (c ∷ s) (d ∷ t) (e ∷ u) h k = let ih = transitive s t u in grind arith

neither :
    (m n : ℕ) (x y : Bool)
    → (ltb m n || (leb m n && x)) ≡ false
    → (ltb n m || (leb n m && y)) ≡ false
    → (m ≡ n) × (x ≡ false) × (y ≡ false)
neither m n x y h k = grind arith

total : (a b : String) → by_code_points a b ≡ false → by_code_points b a ≡ false → a ≡ b
unfolding by_code_points
total [] [] h k = refl
total [] (d ∷ t) h k = cc
total (c ∷ s) [] h k = cc
total (c ∷ s) (d ∷ t) h k =
    let (codes, rest, back) =
      neither (code c) (code d) (by_code_points s t) (by_code_points t s) h k in
    λ i. Char-path c d codes i ∷ total s t rest back i

pub by_code_points-TextOrder : TextOrder by_code_points
by_code_points-TextOrder = record {
  irreflexive = irreflexive;
  transitive = transitive;
  total = total;
}
