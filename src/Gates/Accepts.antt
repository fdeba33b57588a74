-- ===== src/Gates/Accepts.antt =====
-- What the gates of gates.py accept, and when they raise instead of giving a verdict.
use euboulia.Prelude.{◌⊎◌, ◌↔◌, ◌≡◌, refl, arith, true, false, Option, none, some}
use euboulia.Floats.{FloatLaws, FloatOps}
use euboulia.Gates.{
  maximize, minimize, minimize, MetricDirection, not_finite, ◌>>=◌, CompositeDetails,
  PerformanceDetails, Reason, of_metrics, scalar, CompositeGate, PerformanceGate, other, null,
  accepted, ok, real, CorrectnessDetails, Verdict, boolean, Value, from_metrics, lookup,
  CorrectnessGate, String, Metrics, Result,
}
use euboulia.Gates.Compare.{
  judge_pair, evaluate_performance, evaluate_composite, combine, compare_values, signed_delta,
  suffices, by_ratio,
}
use euboulia.Gates.Evaluate.{
  judge_correctness, evaluate_correctness, raw_correctness, extract_metric, reaches, extract_metric,
  judge_correctness, checked,
}

module _ (F : FloatOps) where
  open F use {Float, zero_float, le, lt, eq, sub, div, neg, abs, is_finite, is_close}

  -- A value of the candidate that counts as correct.
  pub data Correct (g : CorrectnessGate Float) : Value Float → Type 0 where
    by_flag : Correct g (boolean true)
    by_number :
        (x : Float)
        → is_finite x ≡ true
        → reaches F g.direction x g.threshold ≡ true
        → Correct g (real x)

  -- A finite value that stands under the name.
  pub record Reads (m : Metrics Float) (name : String) (x : Float) : Type 0 where
    pub present : lookup name m.values ≡ some x
    pub finite : is_finite x ≡ true

  judge_correctness-Correct :
      (g : CorrectnessGate Float) (value : Value Float)
      (v : Verdict Float (CorrectnessDetails Float))
      → judge_correctness F g value ≡ ok v
      → accepted v.status ≡ true
      → Correct g value
  unfolding judge_correctness checked
  judge_correctness-Correct g null v e h = ground arith
  judge_correctness-Correct g other v e h = ground arith
  judge_correctness-Correct g (boolean true) v e h = by_flag
  judge_correctness-Correct g (boolean false) v e h = ground arith
  judge_correctness-Correct g (real x) v e h = by_number x (ground arith) (ground arith)

  extract_metric-Reads :
      (m : Metrics Float) (name : String) (x : Float)
      → extract_metric F (from_metrics m) name ≡ (some x, none)
      → Reads m name x
  unfolding extract_metric
  extract_metric-Reads m name x e = record { present = ground arith; finite = ground arith }

  accepted_pair :
      (g : PerformanceGate Float) (b c : Option Float × Option Reason)
      (v : Verdict Float (PerformanceDetails Float))
      → judge_pair F g b c ≡ ok v
      → accepted v.status ≡ true
      → (x : Float) × (y : Float) × (b ≡ (some x, none))
        × (c ≡ (some y, none))
        × ((compare_values F g x y).0 ≡ true)
  unfolding judge_pair checked
  accepted_pair g (b, some e) (c, some f) v r h = ground arith
  accepted_pair g (b, some e) (c, none) v r h = ground arith
  accepted_pair g (b, none) (c, some f) v r h = ground arith
  accepted_pair g (some b, none) (some c, none) v r h = (b, c, refl, refl, ground arith)
  accepted_pair g (none, none) (c, none) v r h = ground arith
  accepted_pair g (some b, none) (none, none) v r h = ground arith

  -- The composite gate's candidate is correct and passes the comparison of two finite values.
  pub record Promoted (g : CompositeGate Float) (baseline candidate : Metrics Float) : Type 0 where
    pub correct :
        Correct g.correctness (raw_correctness F g.correctness.metric (of_metrics candidate))
    pub before : Float
    pub after : Float
    pub baseline_reads : Reads baseline g.performance.metric before
    pub candidate_reads : Reads candidate g.performance.metric after
    pub passes : (compare_values F g.performance before after).0 ≡ true

  accepted_performance :
      (g : PerformanceGate Float) (baseline candidate : Metrics Float)
      (w : Verdict Float (PerformanceDetails Float))
      → evaluate_performance F g (from_metrics baseline) (from_metrics candidate) ≡ ok w
      → accepted w.status ≡ true
      → (x : Float) × (y : Float) × Reads baseline g.metric x
        × Reads candidate g.metric y
        × ((compare_values F g x y).0 ≡ true)
  unfolding evaluate_performance
  accepted_performance g baseline candidate w e h =
      let (x, y, b, c, p) =
        accepted_pair g (extract_metric F (from_metrics baseline) g.metric)
          (extract_metric F (from_metrics candidate) g.metric) w e h in
      (
        x,
        y,
        extract_metric-Reads baseline g.metric x b,
        extract_metric-Reads candidate g.metric y c,
        p,
      )

  combined :
      (g : CompositeGate Float) (v : Verdict Float (CorrectnessDetails Float))
      (performance : Result (Verdict Float (PerformanceDetails Float)))
      (u : Verdict Float (CompositeDetails Float))
      → combine F g v performance ≡ ok u
      → accepted u.status ≡ true
      → (accepted v.status ≡ true)
        × ((w : Verdict Float (PerformanceDetails Float)) × (performance ≡ ok w)
            × (accepted w.status ≡ true))
  unfolding combine checked
  combined g v (ok w) u e h = (ground arith, (w, refl, ground arith))
  combined g v not_finite u e h = ground arith

  composed :
      (g : CompositeGate Float) (first : Result (Verdict Float (CorrectnessDetails Float)))
      (performance : Result (Verdict Float (PerformanceDetails Float)))
      (u : Verdict Float (CompositeDetails Float))
      → (first >>= λ v. combine F g v performance) ≡ ok u
      → accepted u.status ≡ true
      → (v : Verdict Float (CorrectnessDetails Float)) × (first ≡ ok v)
        × (accepted v.status ≡ true)
        × ((w : Verdict Float (PerformanceDetails Float)) × (performance ≡ ok w)
            × (accepted w.status ≡ true))
  composed g (ok v) performance u e h =
      let (a, b) = combined g v performance u e h in (v, refl, a, b)
  composed g not_finite performance u e h = cc

  -- When the composite gate accepts a candidate, the candidate carries a correctness flag that is true
  -- or a finite number that reaches the threshold, both metrics are finite numbers under the gate's
  -- name, and their comparison passes.
  pub accepts-Promoted :
      (g : CompositeGate Float) (baseline candidate : Metrics Float)
      (u : Verdict Float (CompositeDetails Float))
      → evaluate_composite F g baseline candidate ≡ ok u
      → accepted u.status ≡ true
      → Promoted g baseline candidate
  unfolding evaluate_composite evaluate_correctness
  accepts-Promoted g baseline candidate u e h =
      let (v, a, b, (w, c, d)) =
        composed g (evaluate_correctness F g.correctness (of_metrics candidate))
          (evaluate_performance F g.performance (from_metrics baseline) (from_metrics candidate)) u
          e h in
      let (x, y, p, q, r) = accepted_performance g.performance baseline candidate w c d in
      record {
        correct =
            judge_correctness-Correct g.correctness
              (raw_correctness F g.correctness.metric (of_metrics candidate)) v a b;
        before = x;
        after = y;
        baseline_reads = p;
        candidate_reads = q;
        passes = r;
      }

  -- The gate's own numbers are finite, as its constructor checks.
  pub record Settled (g : PerformanceGate Float) : Type 0 where
    pub finite_min : is_finite g.min_relative_improvement ≡ true
    pub finite_allowed : is_finite g.allowed_relative_regression ≡ true
    pub finite_noise : is_finite g.noise_tolerance ≡ true

  -- On finite values of both sides and with a baseline that is not zero, a settled performance gate
  -- gives no verdict exactly when the difference or its ratio to the baseline is not finite, and then
  -- it raises a `ValueError`.
  pub overflow_raises :
      (g : PerformanceGate Float) (x y : Float)
      → Settled g
      → is_finite x ≡ true
      → is_finite y ≡ true
      → eq x zero_float ≡ false
      → let delta = signed_delta F g.direction x y in
        (evaluate_performance F g (scalar (real x)) (scalar (real y)) ≡ not_finite)
        ↔ ((is_finite delta ≡ false) ⊎ (is_finite (div delta (abs x)) ≡ false))
  unfolding evaluate_performance judge_pair compare_values by_ratio extract_metric checked
  overflow_raises g x y s fx fy nz = ground (arith, s.finite_min, s.finite_allowed, s.finite_noise)

  module _ (laws : FloatLaws F) where
    delta_nonneg :
        (d : MetricDirection) (x y : Float)
        → is_finite x ≡ true
        → is_finite y ≡ true
        → reaches F d y x ≡ true
        → le zero_float (signed_delta F d x y) ≡ true
    unfolding signed_delta reaches
    delta_nonneg minimize x y fx fy h = laws.sub_nonneg x y fx fy h
    delta_nonneg maximize x y fx fy h = laws.sub_nonneg y x fy fx h

    ratio_suffices :
        (g : PerformanceGate Float) (r : Float)
        → lt zero_float g.min_relative_improvement ≡ false
        → le zero_float g.allowed_relative_regression ≡ true
        → le zero_float r ≡ true
        → suffices F g r ≡ true
    unfolding suffices
    ratio_suffices g r h k l =
        let below = laws.neg_nonpos g.allowed_relative_regression k in
        ground
          (arith, below, laws.le_trans (neg g.allowed_relative_regression) zero_float r below l)

    -- Under the laws of `FloatLaws`, a finite value that is at least as good as a finite baseline that
    -- is not zero passes a gate that asks for no improvement and allows a regression of at least zero.
    no_worse_passes :
        (g : PerformanceGate Float) (x y : Float)
        → lt zero_float g.min_relative_improvement ≡ false
        → le zero_float g.allowed_relative_regression ≡ true
        → is_finite x ≡ true
        → is_finite y ≡ true
        → eq x zero_float ≡ false
        → reaches F g.direction y x ≡ true
        → (compare_values F g x y).0 ≡ true
    unfolding compare_values by_ratio
    no_worse_passes g x y h k fx fy nz good =
        let delta = signed_delta F g.direction x y in
        let r = div delta (abs x) in
        ground (
          arith,
          ratio_suffices g r h k (
              laws.div_nonneg delta (abs x) (delta_nonneg g.direction x y fx fy good)
                (laws.abs_finite x fx) (laws.abs_pos x fx nz)),
        )
