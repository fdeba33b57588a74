-- ===== src/Evaluator/Metrics/Gate.antt =====
-- The gate on one objective (optimization/evaluator.py).
use euboulia.Prelude.{
  refl, if◌then◌else◌, inr, inl, Bool-cases, Option-cases, ◌≡◌, ◌↔◌, true, false, Option, none,
  some, arith,
}
use euboulia.Floats.{FloatOps, FloatLaws}
use euboulia.Evaluator.{ObjectiveDirection, minimize, maximize, ObjectiveSpec}
use euboulia.Evaluator.Metrics.{relative_to, relative_improvement, passes, gate}

module _ (F : FloatOps) where
  open F use {Float, zero_float, le, lt, eq, sub, div, abs, is_finite}

  -- What an objective asks of a value, for each direction: that it is no worse than the threshold, if
  -- there is one, and that it improves the baseline, if there is one that is not zero, by no less than
  -- the objective's minimum, relative to the baseline.
  pub record Meets (objective : ObjectiveSpec Float) (value : Float) : Type 0 where
    pub high_enough :
        (t : Float)
        → objective.direction ≡ maximize
        → objective.absolute_threshold ≡ some t
        → le t value ≡ true
    pub low_enough :
        (t : Float)
        → objective.direction ≡ minimize
        → objective.absolute_threshold ≡ some t
        → le value t ≡ true
    pub gained :
        (b : Float)
        → objective.direction ≡ maximize
        → objective.baseline ≡ some b
        → eq b zero_float ≡ false
        → lt (div (sub value b) (abs b)) objective.minimum_relative_improvement ≡ false
    pub saved :
        (b : Float)
        → objective.direction ≡ minimize
        → objective.baseline ≡ some b
        → eq b zero_float ≡ false
        → lt (div (sub b value) (abs b)) objective.minimum_relative_improvement ≡ false

  -- The same by the code's own tests.
  record Tested (objective : ObjectiveSpec Float) (value : Float) : Type 0 where
    threshold_met :
        (t : Float)
        → objective.absolute_threshold ≡ some t
        → passes F objective.direction value t ≡ true
    improvement_met :
        (r : Float)
        → relative_improvement F value objective ≡ some r
        → lt r objective.minimum_relative_improvement ≡ false

  Meets-Tested :
      (objective : ObjectiveSpec Float) (value : Float)
      → Meets objective value
      → Tested objective value
  unfolding passes relative_improvement relative_to
  Meets-Tested objective value m = record {
    threshold_met = λ t e. ground (arith, m.high_enough t, m.low_enough t);
    improvement_met = λ r e. improved objective.baseline refl objective.direction refl e;
  }
    where
      improved :
          {r : Float} (o : Option Float)
          → objective.baseline ≡ o
          → (d : ObjectiveDirection) → objective.direction ≡ d
          → elim o [
            | none ↦ none
            | some b ↦ if eq b zero_float then none else some (relative_to F d value b)
          ]
            ≡ some r
          → lt r objective.minimum_relative_improvement ≡ false
      improved none e d e' h = cc
      improved (some b) e maximize e' h = ground (arith, m.gained b e' e)
      improved (some b) e minimize e' h = ground (arith, m.saved b e' e)

  Tested-Meets :
      (objective : ObjectiveSpec Float) (value : Float)
      → Tested objective value
      → Meets objective value
  unfolding passes relative_improvement relative_to
  Tested-Meets objective value m = record {
    high_enough = λ t d e. ground (arith, m.threshold_met t);
    low_enough = λ t d e. ground (arith, m.threshold_met t);
    gained = λ b d e z. ground (arith, m.improvement_met (relative_to F maximize value b));
    saved = λ b d e z. ground (arith, m.improvement_met (relative_to F minimize value b));
  }

  gate-Tested :
      (objective : ObjectiveSpec Float) (value : Float)
      → Tested objective value
      → (gate F value (relative_improvement F value objective) objective).0 ≡ true
  unfolding gate
  gate-Tested objective value m =
      let relative = relative_improvement F value objective in
      elim (Option-cases objective.absolute_threshold) [
        | inl free ↦ elim (Option-cases relative) [
          | inl alone ↦ ground arith
          | inr (r, at) ↦ ground (arith, m.improvement_met r at)
        ]
        | inr (t, bound) ↦ elim (Option-cases relative) [
          | inl alone ↦ ground (arith, m.threshold_met t bound)
          | inr (r, at) ↦ ground (arith, m.threshold_met t bound, m.improvement_met r at)
        ]
      ]

  Tested-gate :
      (objective : ObjectiveSpec Float) (value : Float)
      → (gate F value (relative_improvement F value objective) objective).0 ≡ true
      → Tested objective value
  unfolding gate
  Tested-gate objective value h = record {
    threshold_met = λ t e. ground arith;
    improvement_met = λ r e. ground arith;
  }

  pub gate_reason :
      (objective : ObjectiveSpec Float) (value : Float) (relative : Option Float)
      → ((gate F value relative objective).0 ≡ true) ↔ ((gate F value relative objective).1 ≡ none)
  unfolding gate
  gate_reason objective value relative = ground arith

  -- The gate lets a value pass exactly when it meets its objective, and gives a reason exactly when it
  -- does not let it pass.
  pub gate_lem :
      (objective : ObjectiveSpec Float) (value : Float)
      → let outcome = gate F value (relative_improvement F value objective) objective in
        ((outcome.0 ≡ true) ↔ Meets objective value) × ((outcome.0 ≡ true) ↔ (outcome.1 ≡ none))
  gate_lem objective value = (
    (
      λ h. Tested-Meets objective value (Tested-gate objective value h),
      λ m. gate-Tested objective value (Meets-Tested objective value m),
    ),
    gate_reason objective value (relative_improvement F value objective),
  )

  module _ (laws : FloatLaws F) where
    relative_nonneg :
        (d : ObjectiveDirection) (value b : Float)
        → is_finite value ≡ true
        → is_finite b ≡ true
        → eq b zero_float ≡ false
        → passes F d value b ≡ true
        → le zero_float (relative_to F d value b) ≡ true
    unfolding relative_to passes
    relative_nonneg maximize value b fv fb nz h =
        laws.div_nonneg _ _ (laws.sub_nonneg value b fv fb h) (laws.abs_finite b fb)
          (laws.abs_pos b fb nz)
    relative_nonneg minimize value b fv fb nz h =
        laws.div_nonneg _ _ (laws.sub_nonneg b value fb fv h) (laws.abs_finite b fb)
          (laws.abs_pos b fb nz)

    not_below :
        (r minimum : Float)
        → le minimum zero_float ≡ true
        → le zero_float r ≡ true
        → lt r minimum ≡ false
    not_below r minimum h k = elim (Bool-cases (lt r minimum)) [
      | inl below ↦ cc (laws.not_lt-le r minimum below, laws.le_trans minimum zero_float r h k)
      | inr above ↦ above
    ]

    -- Under the laws of `FloatLaws`, a finite value that is at least as good as a finite baseline that
    -- is not zero passes an objective with no absolute threshold and a required improvement of at most
    -- zero.
    no_regression_passes :
        (objective : ObjectiveSpec Float) (value b : Float)
        → objective.baseline ≡ some b
        → objective.absolute_threshold ≡ none
        → le objective.minimum_relative_improvement zero_float ≡ true
        → is_finite value ≡ true
        → is_finite b ≡ true
        → eq b zero_float ≡ false
        → passes F objective.direction value b ≡ true
        → (gate F value (relative_improvement F value objective) objective).0 ≡ true
    unfolding relative_improvement
    no_regression_passes objective value b base free small fv fb nz good =
        let r = relative_to F objective.direction value b in
        gate-Tested objective value (record {
          threshold_met = λ t e. cc;
          improvement_met = λ q e. ground (
            arith,
            not_below r objective.minimum_relative_improvement small
                (relative_nonneg objective.direction value b fv fb nz good),
          );
        })
