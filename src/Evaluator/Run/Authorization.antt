-- ===== src/Evaluator/Run/Authorization.antt =====
-- Authorizations of `TieredEvaluator` (optimization/evaluator.py) are used once, for what was approved.
use euboulia.Prelude.{inr, inl, Option-cases, ◌≡◌, String, Bool, true, some, arith, eq_iff}
use euboulia.Prelude.Dict.{insert, lookup, lookup-insert, lookup-remove}
use euboulia.Floats.{FloatOps}
use euboulia.Evaluator.{EvaluationPlan, AuthorizedEvaluation, TieredEvaluationResult, Host}
use euboulia.Evaluator.Run.{
  TieredEvaluator, done, refused, unknown_authorization, execute, authorize,
}

module _ (F : FloatOps) (H : Host F.Float) where
  open F use {Float}
  open H use {World, digest}

  -- Whatever came of executing an authorization, an authorization with the same id is refused as unknown
  -- afterwards, and nothing happens to the world.
  pub single_use :
      (self : TieredEvaluator) (first second : AuthorizedEvaluation Float) (w w' : World)
      → second.authorization_id ≡ first.authorization_id
      → let again = execute F H (execute F H self first w).1 second w' in
        (again.0 ≡ refused unknown_authorization) × (again.2 ≡ w')
  unfolding execute
  single_use self first second w w' same = ground (
    arith,
    lookup-remove second.authorization_id first.authorization_id self.authorizations,
    eq_iff first.authorization_id second.authorization_id,
  )

  expected_digest :
      (self : TieredEvaluator) (a : AuthorizedEvaluation Float) (w : World)
      (r : TieredEvaluationResult Float)
      → (execute F H self a w).0 ≡ done r
      → (lookup a.authorization_id self.authorizations ≡ some (digest a.plan))
        × (a.plan_digest ≡ digest a.plan)
  unfolding execute
  expected_digest self a w r h =
      elim (Option-cases (lookup a.authorization_id self.authorizations)) [
        | inl missing ↦ cc
        | inr (e, found) ↦ ground (arith, eq_iff e a.plan_digest, eq_iff e (digest a.plan))
      ]

  -- Only an approved plan is authorized, and what is recorded is the digest of that plan.
  authorize-done :
      (self : TieredEvaluator) (plan : EvaluationPlan Float) (approved : Bool) (id : String)
      (w : World) (minted : AuthorizedEvaluation Float)
      → (authorize F H self plan approved id w).0 ≡ done minted
      → (approved ≡ true)
        × ((authorize F H self plan approved id w).1.authorizations
            ≡ insert id (digest plan) self.authorizations)
  unfolding authorize
  authorize-done self plan approved id w minted h = ground arith

  -- If an evaluator authorizes a plan under an id, and then executes an authorization with that id to a
  -- result, then the plan was approved and the plan that was executed has its digest.
  pub executed_as_approved :
      (self : TieredEvaluator) (plan : EvaluationPlan Float) (approved : Bool) (id : String)
      (w w' : World) (minted executed : AuthorizedEvaluation Float)
      (r : TieredEvaluationResult Float)
      → (authorize F H self plan approved id w).0 ≡ done minted
      → executed.authorization_id ≡ id
      → (execute F H (authorize F H self plan approved id w).1 executed w').0 ≡ done r
      → (approved ≡ true) × (digest executed.plan ≡ digest plan)
  executed_as_approved self plan approved id w w' minted executed r h same ran =
      let (yes_approved, recorded) = authorize-done self plan approved id w minted h in
      let (found, own) =
        expected_digest (authorize F H self plan approved id w).1 executed w' r ran in
      (
        yes_approved,
        ground (
          arith,
          found,
          recorded,
          same,
          eq_iff id executed.authorization_id,
          lookup-insert executed.authorization_id id (digest plan) self.authorizations,
        ),
      )
