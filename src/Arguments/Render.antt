-- ===== src/Arguments/Render.antt =====
-- What a walk over a command line finds can be written down and walked over again.
use euboulia.Prelude.{
  subst, ◌≡◌, refl, arith, Bool, true, false, Option, none, some, List, [], ◌∷◌, ◌++◌, All,
  if◌then◌else◌,
}
use euboulia.Arguments.{ok_inj, Token, Result, ok, err, ◌>>=◌}
use euboulia.Arguments.Walk.{
  Item, positional, option, is_dashes, parse_long_option, is_value, item_of, takes, prepend, walk,
  value_tokens,
}

unfoldable pub GoodValue : Option Token → Option Token → Type 0
GoodValue inline none = Unit
GoodValue none (some value) = is_value value ≡ true
GoodValue (some inline) (some value) = true ≡ false

-- An item that the walk reads back from its tokens.
unfoldable pub Good : Item → Type 0
Good (positional token) = (is_dashes token ≡ false) × (parse_long_option token ≡ ok none)
Good (option token name inline value) =
    (is_dashes token ≡ false)
    × (parse_long_option token ≡ ok (some (name, inline)))
    × GoodValue inline value

-- The end of the walk.
unfoldable pub Ended : List Token → Type 0
Ended [] = Unit
Ended (token ∷ rest) = is_dashes token ≡ true

-- Tokens that an option before them takes no value from.
Shut : List Token → Type 0
Shut [] = Unit
Shut (token ∷ rest) = is_value token ≡ false

walk_positional :
    (token : Token) (tokens : List Token) {items : List Item} {rest : List Token}
    → Good (positional token)
    → walk tokens ≡ ok (items, rest)
    → walk (token ∷ tokens) ≡ ok (positional token ∷ items, rest)
unfolding walk Good
walk_positional token [] good h = grind arith
walk_positional token (next ∷ rest) good h = grind arith

walk_flag :
    (token name : Token) (inline : Option Token) (tokens : List Token) {items : List Item}
    {rest : List Token}
    → Good (option token name inline none)
    → Shut tokens
    → walk tokens ≡ ok (items, rest)
    → walk (token ∷ tokens) ≡ ok (option token name inline none ∷ items, rest)
unfolding walk Good Shut
walk_flag token name inline [] good shut h = grind arith
walk_flag token name none (next ∷ rest) good shut h = grind arith
walk_flag token name (some i) (next ∷ rest) good shut h = grind arith

walk_value :
    (token name value : Token) (tokens : List Token) {items : List Item} {rest : List Token}
    → Good (option token name none (some value))
    → walk tokens ≡ ok (items, rest)
    → walk (token ∷ (value ∷ tokens)) ≡ ok (option token name none (some value) ∷ items, rest)
unfolding walk Good GoodValue
walk_value token name value tokens good h = grind arith

unfoldable pub Walked : List Item × List Token → Type 0
Walked walked = All Good walked.0 × Ended walked.1

prepend-Walked :
    (item : Item) (first : Result (List Item × List Token)) {walked : List Item × List Token}
    → Good item
    → ((inner : List Item × List Token) → first ≡ ok inner → Walked inner)
    → (first >>= prepend item) ≡ ok walked
    → Walked walked
unfolding Walked
prepend-Walked item (err e) good ih h = cc
prepend-Walked item (ok inner) good ih h =
    subst Walked (ok_inj h) ((good, (ih inner refl).0), (ih inner refl).1)

item_of-Good :
    (token : Token) (parsed : Option (Token × Option Token))
    → is_dashes token ≡ false
    → parse_long_option token ≡ ok parsed
    → Good (item_of token parsed none)
unfolding Good GoodValue
item_of-Good token none d p = (d, p)
item_of-Good token (some (name, inline)) d p = (d, p, tt)

taken-Good :
    (token next : Token) (parsed : Option (Token × Option Token))
    → is_dashes token ≡ false
    → parse_long_option token ≡ ok parsed
    → takes parsed next ≡ true
    → Good (item_of token parsed (some next))
unfolding Good GoodValue
taken-Good token next none d p t = cc
taken-Good token next (some (name, none)) d p t = (d, p, t)
taken-Good token next (some (name, some inline)) d p t = cc

dashes-Walked :
    (token : Token) (rest : List Token) → is_dashes token ≡ true → Walked ([], token ∷ rest)
unfolding Walked Ended
dashes-Walked token rest d = (tt, d)

-- What a walk finds can be walked over again.
pub walk-Walked :
    (tokens : List Token) (walked : List Item × List Token)
    → walk tokens ≡ ok walked
    → Walked walked
unfolding walk Walked Ended
walk-Walked [] walked h = subst Walked (ok_inj h) (tt, tt)
walk-Walked (token ∷ []) walked h = by_step (is_dashes token) refl (parse_long_option token) refl h
  where
    by_step :
        (d : Bool)
        → is_dashes token ≡ d
        → (p : Result (Option (Token × Option Token))) → parse_long_option token ≡ p
        → (if d
            then ok ([], token ∷ [])
            else (p >>= λ parsed. ok (item_of token parsed none ∷ [], [])))
          ≡ ok walked
        → Walked walked
    by_step true d p e h' = subst Walked (ok_inj h') (dashes-Walked token [] d)
    by_step false d (err e') e h' = cc
    by_step false d (ok parsed) e h' =
        subst Walked (ok_inj h') ((item_of-Good token parsed d e, tt), tt)
walk-Walked (token ∷ (next ∷ rest)) walked h =
    by_step (is_dashes token) refl (parse_long_option token) refl (λ inner. walk-Walked rest inner)
      (λ inner. walk-Walked (next ∷ rest) inner) h
  where
    by_step :
        (d : Bool)
        → is_dashes token ≡ d
        → (p : Result (Option (Token × Option Token))) → parse_long_option token ≡ p
        → ((inner : List Item × List Token) → walk rest ≡ ok inner → Walked inner)
        → ((inner : List Item × List Token) → walk (next ∷ rest) ≡ ok inner → Walked inner)
        → elim d [
          | true ↦ ok ([], token ∷ next ∷ rest)
          | false ↦ p >>= λ parsed. elim (takes parsed next) [
            | true ↦ walk rest >>= prepend (item_of token parsed (some next))
            | false ↦ walk (next ∷ rest) >>= prepend (item_of token parsed none)
          ]
        ]
          ≡ ok walked
        → Walked walked
    by_step true d p e ih1 ih2 h' = subst Walked (ok_inj h') (dashes-Walked token (next ∷ rest) d)
    by_step false d (err e') e ih1 ih2 h' = cc
    by_step false d (ok parsed) e ih1 ih2 h' = taken (takes parsed next) refl h'
      where
        taken :
            (b : Bool)
            → takes parsed next ≡ b
            → elim b [
              | true ↦ walk rest >>= prepend (item_of token parsed (some next))
              | false ↦ walk (next ∷ rest) >>= prepend (item_of token parsed none)
            ]
              ≡ ok walked
            → Walked walked
        taken true t h'' = prepend-Walked _ (walk rest) (taken-Good token next parsed d e t) ih1 h''
        taken false t h'' =
            prepend-Walked _ (walk (next ∷ rest)) (item_of-Good token parsed d e) ih2 h''

-- An item as the code writes it.
unfoldable pub tokens_of : Item → List Token
tokens_of (positional token) = token ∷ []
tokens_of (option token name inline value) = token ∷ value_tokens value

unfoldable pub render : List Item → List Token
render [] = []
render (item ∷ items) = tokens_of item ++ render items

-- Every item is an option.
unfoldable pub Options : List Item → Type 0
Options [] = Unit
Options (positional token ∷ items) = true ≡ false
Options (option token name inline value ∷ items) = Options items

-- No token that is no option follows an option.
unfoldable pub Leading : List Item → Type 0
Leading [] = Unit
Leading (positional token ∷ items) = Leading items
Leading (option token name inline value ∷ items) = Options items

Ended-Shut : (rest : List Token) → Ended rest → Shut rest
unfolding Ended Shut is_value
Ended-Shut [] h = tt
Ended-Shut (token ∷ rest) h = grind arith

parsed-Shut :
    (token name : Token) (inline : Option Token)
    → parse_long_option token ≡ ok (some (name, inline))
    → is_value token ≡ false
unfolding parse_long_option is_value
parsed-Shut token name inline h = ground arith

Options-Shut :
    (items : List Item) (rest : List Token)
    → Options items
    → All Good items
    → Ended rest
    → Shut (render items ++ rest)
unfolding Options Good render tokens_of Shut
Options-Shut [] rest o g e = Ended-Shut rest e
Options-Shut (positional token ∷ items) rest o g e = cc
Options-Shut (option token name inline value ∷ items) rest o g e =
    parsed-Shut token name inline g.0.1

Ended-walk : (rest : List Token) → Ended rest → walk rest ≡ ok ([], rest)
unfolding Ended walk
Ended-walk [] e = refl
Ended-walk (token ∷ []) e = grind arith
Ended-walk (token ∷ (next ∷ rest)) e = grind arith

Options-walk :
    (items : List Item) (rest : List Token)
    → Options items
    → All Good items
    → Ended rest
    → walk (render items ++ rest) ≡ ok (items, rest)
unfolding Options Good render tokens_of
Options-walk [] rest o g e = Ended-walk rest e
Options-walk (positional token ∷ items) rest o g e = cc
Options-walk (option token name inline none ∷ items) rest o g e =
    walk_flag token name inline (render items ++ rest) g.0 (Options-Shut items rest o g.1 e)
      (Options-walk items rest o g.1 e)
Options-walk (option token name none (some value) ∷ items) rest o g e =
    walk_value token name value (render items ++ rest) g.0 (Options-walk items rest o g.1 e)
Options-walk (option token name (some inline) (some value) ∷ items) rest o g e = nonsense g.0.2
  where
    nonsense :
        GoodValue (some inline) (some value)
        → walk (render (option token name (some inline) (some value) ∷ items) ++ rest)
          ≡ ok (option token name (some inline) (some value) ∷ items, rest)
    nonsense h = unfold GoodValue in cc

-- What is written item by item is read back.
pub Leading-walk :
    (items : List Item) (rest : List Token)
    → Leading items
    → All Good items
    → Ended rest
    → walk (render items ++ rest) ≡ ok (items, rest)
unfolding Leading render tokens_of Options
Leading-walk [] rest l g e = Ended-walk rest e
Leading-walk (positional token ∷ items) rest l g e =
    walk_positional token (render items ++ rest) g.0 (Leading-walk items rest l g.1 e)
Leading-walk (option token name inline value ∷ items) rest l g e =
    Options-walk (option token name inline value ∷ items) rest l g e
