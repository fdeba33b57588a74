-- ===== src/Evaluator/Stages/Order.antt =====
-- The commands of a tier run in order and stop at the first that fails (optimization/evaluator.py).
use euboulia.Prelude.{
  ℕ, ◌+◌, ◌≡◌, refl, String, Bool, true, false, List, [], ◌∷◌, ◌++◌, Bool-cases, inl, inr, subst,
  sym, ◌∙◌,
}
use mathlib.Core.List.{append-nil, append_assoc}
use euboulia.Floats.{FloatOps}
use euboulia.Evaluator.{EvaluationStage, ExecutionResult, succeeded, CommandSpec, Host}
use euboulia.Evaluator.Stages.{run_from, run_commands, with_evidence}

module _ (F : FloatOps) (H : Host F.Float) where
  open F use {Float}
  open H use {World, run}

  -- The tier as a relation: each command runs in the world that the one before it left, and after a
  -- command that fails there are no more.
  pub data Tier (stage : EvaluationStage) (workspace dir : String)
      : ℕ → List (CommandSpec Float) → World → Bool → List ExecutionResult → World → Type 0 where
    finished : {i : ℕ} {w : World} → Tier stage workspace dir i [] w true [] w
    stopped :
        {i : ℕ} {c : CommandSpec Float} {cs : List (CommandSpec Float)} {w w' : World}
        {e : ExecutionResult}
        → run dir stage workspace (with_evidence F H dir stage i c) w ≡ (e, w')
        → succeeded e ≡ false
        → Tier stage workspace dir i (c ∷ cs) w false (e ∷ []) w'
    went_on :
        {i : ℕ} {c : CommandSpec Float} {cs : List (CommandSpec Float)} {w v w' : World}
        {e : ExecutionResult} {b : Bool} {es : List ExecutionResult}
        → run dir stage workspace (with_evidence F H dir stage i c) w ≡ (e, v)
        → succeeded e ≡ true
        → Tier stage workspace dir (i + 1) cs v b es w'
        → Tier stage workspace dir i (c ∷ cs) w b (e ∷ es) w'

  run_from-Tier :
      (stage : EvaluationStage) (workspace dir : String) (i : ℕ) (acc : List ExecutionResult)
      (cs : List (CommandSpec Float)) (w : World)
      → let (s, w') = run_from F H stage workspace dir i acc cs w in
        (es : List ExecutionResult) × (s.executions ≡ acc ++ es)
        × Tier stage workspace dir i cs w s.succeeded es w'
        × (s.stage ≡ stage)
  unfolding run_from
  run_from-Tier stage workspace dir i acc [] w = ([], sym (append-nil acc), finished, refl)
  run_from-Tier stage workspace dir i acc (c ∷ cs) w =
      let e = (run dir stage workspace (with_evidence F H dir stage i c) w).0 in
      let v = (run dir stage workspace (with_evidence F H dir stage i c) w).1 in
      let (es, same, tier, at) = run_from-Tier stage workspace dir (i + 1) (acc ++ e ∷ []) cs v in
      elim (Bool-cases (succeeded e)) [
        | inl fine ↦
            rw fine (e ∷ es, same ∙ append_assoc acc (e ∷ []) es, went_on refl fine tier, at)
        | inr bad ↦ rw bad (e ∷ [], refl, stopped refl bad, refl)
      ]

  -- A tier runs its commands as `Tier` says: in order, each in the world that the one before it left,
  -- up to the first that fails, and the result records those that ran and whether all succeeded.
  pub run_commands-Tier :
      (stage : EvaluationStage) (cs : List (CommandSpec Float)) (workspace dir : String) (w : World)
      → let (s, w') = run_commands F H stage cs workspace dir w in
        Tier stage workspace dir 1 cs w s.succeeded s.executions w' × (s.stage ≡ stage)
  unfolding run_commands
  run_commands-Tier stage cs workspace dir w =
      let (es, same, tier, at) = run_from-Tier stage workspace dir 1 [] cs w in
      (
        subst
            (λ (l : List ExecutionResult).
              Tier stage workspace dir 1 cs w
                (run_from F H stage workspace dir 1 [] cs w).0.succeeded l
                (run_from F H stage workspace dir 1 [] cs w).1)
            (sym same) tier,
        at,
      )
