-- ===== src/Runner/Suite/Verdict.antt =====
-- When the result of a workload suite makes a candidate accepted.
use euboulia.Prelude.{
  if◌then◌else◌, sym, subst, Memᴰ, ◌↔◌, ◌≡◌, refl, ap, ◌∙◌, Bool, true, false, ◌||◌, none, some,
  List, [], ◌∷◌, String, All, arith,
}
use euboulia.Prelude.Dict.{Dict, lookup}
use euboulia.Floats.{FloatOps}
use euboulia.Evaluator.{
  EvaluationOutcome, TieredEvaluationResult, failed, passed, rejected, profile_only,
}
use euboulia.Runner.{accepted, PromotionConfig}
use euboulia.Runner.Suite.{
  any_failed, is_failed, is_rejected, is_passed, names_where, outcome_status, point_failed,
  required_names, suite_outcome, suite_result,
}

or-false : (a b : Bool) → (a || b) ≡ false → (a ≡ false) × (b ≡ false)
or-false true b h = ground arith
or-false false b h = (refl, h)

module _ (P : String → Type 0) where
  All-at : (xs : List String) (x : String) → All P xs → Memᴰ x xs → P x
  All-at [] x h m = elim m [ ]
  All-at (y ∷ ys) x h (Memᴰ.head e) = subst P (sym e) h.0
  All-at (y ∷ ys) x h (Memᴰ.tail m) = All-at ys x h.1 m

  All-of : (xs : List String) → ((x : String) → Memᴰ x xs → P x) → All P xs
  All-of [] f = tt
  All-of (x ∷ xs) f = (f x (Memᴰ.head refl), All-of xs (λ y m. f y (Memᴰ.tail m)))

status-passed : (o : EvaluationOutcome) → outcome_status o (is_passed o) ≡ accepted → o ≡ passed
unfolding outcome_status
status-passed passed h = refl
status-passed rejected h = cc
status-passed failed h = cc
status-passed profile_only h = cc

module _ {Float : Type 0} where
  -- The point has a result, which is no failure.
  abbrev pub Evaluated : Dict (TieredEvaluationResult Float) → String → Type 0
  Evaluated results name =
      (r : TieredEvaluationResult Float) × (lookup name results ≡ some r)
      × (is_failed r.outcome ≡ false)

  abbrev pub Unrejected : Dict (TieredEvaluationResult Float) → Type 0
  Unrejected results = All (λ entry. is_rejected entry.1.outcome ≡ false) results

  pub record Checked (results : Dict (TieredEvaluationResult Float)) (required : List String)
      : Type 0 where
    pub evaluated : All (Evaluated results) required
    pub unrejected : Unrejected results

  found :
      (results : Dict (TieredEvaluationResult Float)) (name : String)
      → point_failed results name ≡ false
      → Evaluated results name
  unfolding point_failed
  found results name h =
      elim (lookup name results) as (λ x. lookup name results ≡ x → Evaluated results name) [
        | none ↦ λ e. cc
        | some r ↦ λ e. (r, e, cc)
      ]
        refl

  not_failed :
      (results : Dict (TieredEvaluationResult Float)) (name : String)
      → Evaluated results name
      → point_failed results name ≡ false
  unfolding point_failed
  not_failed results name (r, e, h) = cc

  all_found :
      (results : Dict (TieredEvaluationResult Float)) (required : List String)
      → any_failed results required ≡ false
      → All (Evaluated results) required
  unfolding any_failed
  all_found results [] h = tt
  all_found results (name ∷ names) h =
      let (first, rest) = or-false (point_failed results name) (any_failed results names) h in
      (found results name first, all_found results names rest)

  none_failed :
      (results : Dict (TieredEvaluationResult Float)) (required : List String)
      → All (Evaluated results) required
      → any_failed results required ≡ false
  unfolding any_failed
  none_failed results [] h = refl
  none_failed results (name ∷ names) (e, h) =
      ap (λ b. b || any_failed results names) (not_failed results name e)
      ∙ none_failed results names h

  abbrev rejected_names : Dict (TieredEvaluationResult Float) → List String
  rejected_names results = names_where (λ r. is_rejected r.outcome) results

  unrejected :
      (results : Dict (TieredEvaluationResult Float))
      → rejected_names results ≡ []
      → Unrejected results
  unfolding names_where
  unrejected [] h = tt
  unrejected ((name, r) ∷ rest) h =
      elim (is_rejected r.outcome)
          as (λ b. is_rejected r.outcome ≡ b → Unrejected ((name, r) ∷ rest)) [
            | true ↦ λ e. grind arith
            | false ↦ λ e. (e, unrejected rest grind arith)
          ]
        refl

  no_names :
      (results : Dict (TieredEvaluationResult Float))
      → Unrejected results
      → rejected_names results ≡ []
  unfolding names_where
  no_names [] h = refl
  no_names ((name, r) ∷ rest) (e, h) = let k = no_names rest h in grind arith

  suite_outcome-Checked :
      (results : Dict (TieredEvaluationResult Float)) (required : List String)
      → (suite_outcome results required).0 ≡ passed
      → Checked results required
  unfolding suite_outcome
  suite_outcome-Checked results required h =
      elim (any_failed results required)
          as (λ b. any_failed results required ≡ b → Checked results required) [
            | true ↦ λ e. absurd (grind arith)
            | false ↦ λ e.
                elim (rejected_names results)
                    as (λ ns. rejected_names results ≡ ns → Checked results required) [
                      | [] ↦ λ k. record {
                        evaluated = all_found results required e;
                        unrejected = unrejected results k;
                      }
                      | name ∷ names ↦ λ k. absurd (grind arith)
                    ]
                  refl
          ]
        refl

  Checked-suite_outcome :
      (results : Dict (TieredEvaluationResult Float)) (required : List String)
      → Checked results required
      → (suite_outcome results required).0 ≡ passed
  unfolding suite_outcome
  Checked-suite_outcome results required valid =
      let e = none_failed results required valid.evaluated in
      let k = no_names results valid.unrejected in grind arith

module _ (F : FloatOps) where
  open F use {Float}

  -- A point that the suite has to evaluate without failure, if `gate` says that a candidate is
  -- measured, and not the baseline.
  pub data Required (promotion : PromotionConfig) (gate : Bool) (points : List String)
      (name : String) : Type 0 where
    of_baseline : gate ≡ false → Memᴰ name points → Required promotion gate points name
    of_all :
        promotion.require_all_points_valid ≡ true
        → Memᴰ name points
        → Required promotion gate points name
    of_primary :
        gate ≡ true
        → promotion.require_all_points_valid ≡ false
        → Memᴰ name promotion.primary_points
        → Required promotion gate points name

  pub record Valid (promotion : PromotionConfig) (gate : Bool) (points : List String)
      (results : Dict (TieredEvaluationResult Float)) : Type 0 where
    pub evaluated : (name : String) → Required promotion gate points name → Evaluated results name
    pub unrejected : Unrejected results

  Required-listed :
      (promotion : PromotionConfig) (gate : Bool) (points : List String) (name : String)
      → Required promotion gate points name
      → Memᴰ name (required_names F promotion gate points)
  unfolding required_names
  Required-listed promotion gate points name (of_baseline e m) = ground (arith, m)
  Required-listed promotion gate points name (of_all e m) = ground (arith, m)
  Required-listed promotion gate points name (of_primary e k m) = ground (arith, m)

  listed-Required :
      (promotion : PromotionConfig) (gate : Bool) (points : List String) (name : String)
      → Memᴰ name (required_names F promotion gate points)
      → Required promotion gate points name
  unfolding required_names
  listed-Required promotion false points name m = of_baseline refl m
  listed-Required promotion true points name m =
      elim promotion.require_all_points_valid
          as (λ b.
            promotion.require_all_points_valid ≡ b
            → Memᴰ name (if b then points else promotion.primary_points)
            → Required promotion true points name) [
              | true ↦ λ e k. of_all e k
              | false ↦ λ e k. of_primary refl e k
            ]
        refl m

  -- A suite that was measured makes its candidate accepted exactly when each required point was
  -- evaluated without failure and no point at all was rejected: every point of the lane is required
  -- where the baseline is measured or the configuration wants all of them valid, else the primary ones.
  pub suite_result-accepted :
      (promotion : PromotionConfig) (gate : Bool) (points : List String)
      (results : Dict (TieredEvaluationResult Float))
      → let r = suite_result F promotion gate points results in
        (outcome_status r.outcome r.promotable ≡ accepted) ↔ Valid promotion gate points results
  unfolding suite_result outcome_status
  suite_result-accepted promotion gate points results =
      let required = required_names F promotion gate points in
      (
        λ h.
            let checked = suite_outcome-Checked results required (status-passed _ h) in
            record {
              evaluated = λ name r.
                  All-at (Evaluated results) required name checked.evaluated
                    (Required-listed promotion gate points name r);
              unrejected = checked.unrejected;
            },
        λ valid.
            ap (λ o. outcome_status o (is_passed o))
              (Checked-suite_outcome results required (record {
                evaluated =
                    All-of (Evaluated results) required (λ name m.
                      valid.evaluated name (listed-Required promotion gate points name m));
                unrejected = valid.unrejected;
              })),
      )
