-- ===== src/Workspace/Actions.antt =====
-- The workspace's code as actions on the world around it, which raise a Rejection.
use euboulia.Prelude.{◌≡◌, ◌∙◌, refl, sym, ap, Bool, true, false}
use euboulia.Workspace.{Result, ok, err, reject_if, Rejection}

abbrev pub Action {ℓ} : Type 0 → Type ℓ → Type ℓ
Action W A = W → Result A × W

module _ {W : Type 0} where
  infixl 5 ◌>>=◌ ◌>>◌
  unfoldable pub after {ℓ κ} :
      {A : Type ℓ} {B : Type κ} → Result A × W → (A → Action W B) → Result B × W
  after (ok a, w) next = next a w
  after (err e, w) next = (err e, w)

  unfoldable pub ◌>>=◌ {ℓ κ} :
      {A : Type ℓ} {B : Type κ} → Action W A → (A → Action W B) → Action W B
  unfolding after
  ◌>>=◌ action next w = after (action w) next

  unfoldable pub ◌>>◌ {ℓ} : {B : Type ℓ} → Action W (Unit {0}) → Action W B → Action W B
  unfolding ◌>>=◌
  ◌>>◌ first rest = first >>= λ done. rest

  abbrev pub return {ℓ} : {A : Type ℓ} → Result A → Action W A
  return result w = (result, w)

  abbrev pub tell : (W → W) → Action W (Unit {0})
  tell change w = (ok tt, change w)

  -- try: action; except (PatchRejected, WorkspaceError) as exc: handler(exc); raise
  unfoldable pub handled {ℓ} : {A : Type ℓ} → Result A × W → (Rejection → W → W) → Result A × W
  handled (ok a, w) handler = (ok a, w)
  handled (err e, w) handler = (err e, handler e w)

  -- What a chain that succeeded has passed on.
  pub after-ok {ℓ κ} :
      {A : Type ℓ} {B : Type κ} (first : Result A × W) (next : A → Action W B) {out : B} {w' : W}
      → after first next ≡ (ok out, w')
      → (between : A) × (w : W) × (first ≡ (ok between, w)) × (next between w ≡ (ok out, w'))
  unfolding after
  after-ok (ok between, w) next whole = (between, w, refl, whole)
  after-ok (err e, w) next whole = cc

  -- A test that let the code go on had failed.
  pub test-ok {ℓ} :
      {B : Type ℓ} (b : Bool) (e : Rejection) (w0 : W) (rest : Action W B) {out : B} {w' : W}
      → after (reject_if b e, w0) (λ done. rest) ≡ (ok out, w')
      → (b ≡ false) × (rest w0 ≡ (ok out, w'))
  unfolding after
  test-ok true e w0 rest whole = cc
  test-ok false e w0 rest whole = (refl, whole)

  -- A result that is no change of the world.
  pub given-ok {ℓ κ} :
      {A : Type ℓ} {B : Type κ} (first : Result A) (w : W) (next : A → Action W B) {out : B}
      {w' : W}
      → after (first, w) next ≡ (ok out, w')
      → (between : A) × (first ≡ ok between) × (next between w ≡ (ok out, w'))
  unfolding after
  given-ok (ok between) w next whole = (between, refl, whole)
  given-ok (err e) w next whole = cc

  pub handled-ok {ℓ} :
      {A : Type ℓ} (result : Result A × W) (handler : Rejection → W → W) {out : A} {w' : W}
      → handled result handler ≡ (ok out, w')
      → result ≡ (ok out, w')
  unfolding handled
  handled-ok (ok a, w) handler h = h
  handled-ok (err e, w) handler h = cc

module _ {W Tree : Type 0} (tree : W → Tree) where
  -- An action that leaves the tree as it was, whatever its result.
  unfoldable pub Keeps {ℓ} : {A : Type ℓ} → Action W A → Type 0
  Keeps action = (w : W) → tree (action w).1 ≡ tree w

  pub >>=-Keeps {ℓ κ} :
      {A : Type ℓ} {B : Type κ} (first : Action W A) (next : A → Action W B)
      → Keeps first
      → ((a : A) → Keeps (next a))
      → Keeps (first >>= next)
  unfolding after Keeps ◌>>=◌
  >>=-Keeps {A = A} first next h k w = chained (first w) refl
    where
      chained : (r : Result A × W) → first w ≡ r → tree (after r next).1 ≡ tree w
      chained (ok a, w1) e = k a w1 ∙ ap (λ s. tree s.1) (sym e) ∙ h w
      chained (err e', w1) e = ap (λ s. tree s.1) (sym e) ∙ h w

  pub >>-Keeps {ℓ} :
      {B : Type ℓ} (first : Action W (Unit {0})) (rest : Action W B)
      → Keeps first
      → Keeps rest
      → Keeps (first >> rest)
  unfolding ◌>>◌
  >>-Keeps first rest h k = >>=-Keeps first (λ done. rest) h (λ done. k)

  pub return-Keeps {ℓ} : {A : Type ℓ} (result : Result A) → Keeps (return result)
  unfolding Keeps
  return-Keeps result w = refl

  pub Keeps-world {ℓ} :
      {A : Type ℓ} (action : Action W A) → Keeps action → (w : W) → tree (action w).1 ≡ tree w
  unfolding Keeps
  Keeps-world action keeps w = keeps w
