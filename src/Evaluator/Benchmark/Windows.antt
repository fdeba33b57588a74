-- ===== src/Evaluator/Benchmark/Windows.antt =====
-- The bounds of the measurement (optimization/evaluator.py): how many commands and windows there are,
-- and what a benchmark that succeeds has measured.
use euboulia.Prelude.{
  sym, subst, ℕ, zero, suc, ◌+◌, ◌≤◌, ◌≡◌, refl, String, Bool, true, false, Option, some, List, [],
  ◌∷◌, ◌++◌, arith, length, length-append, if-elim,
}
use euboulia.Prelude.Dict.{Dict, insert, lookup, lookup-insert}
use text.Mathlib.TextPositions.{eq_refl}
use euboulia.Floats.{FloatOps}
use euboulia.Evaluator.{
  >>=-ok, warmup_budget_expired, benchmark, EvaluationStage, ExecutionResult, EvaluationPlan,
  StabilitySpec, CommandSpec, Host, ok, err, Result,
}
use euboulia.Evaluator.Metrics.Finite.{benchmark_metrics-ok}
use euboulia.Evaluator.Metrics.{benchmark_metrics}
use euboulia.Evaluator.Stages.{run_commands}
use euboulia.Evaluator.Benchmark.{
  run_policy, median_metrics, resolve_metrics_path, after_window, measurement_command, BenchmarkRun,
  values_stable, last, read_benchmark_metrics, failed_run, metrics_failure, Warmup, warm, abandoned,
  warm_up, Measured, broken_off, measured, enough, measure, conclude, after_warm_up, run_benchmark,
}

module _ (F : FloatOps) (H : Host F.Float) where
  open F use {Float, median, is_finite, le, sub}
  open H use {World}

  one_command :
      (stage : EvaluationStage) (c : CommandSpec Float) (workspace dir : String) (w : World)
      → length (run_commands F H stage (c ∷ []) workspace dir w).0.executions ≡ 1
  unfolding run_commands
  one_command stage c workspace dir w = ground arith

  -- What holds when the warm-up is over.
  abbrev WarmupFits : ℕ → Warmup F H → Type 0
  WarmupFits bound (warm es) = length es ≤ bound
  WarmupFits bound (abandoned r) =
      (length r.result.executions ≤ bound) × (r.result.succeeded ≡ false)

  warm_up-fits :
      (plan : EvaluationPlan Float) (s : StabilitySpec Float) (started : Float)
      (workspace dir : String) (left index : ℕ) (es : List ExecutionResult) (w : World) (bound : ℕ)
      → length es + left ≤ bound
      → WarmupFits bound (warm_up F H plan s started workspace dir left index es w).0
  unfolding warm_up failed_run
  warm_up-fits plan s started workspace dir zero index es w bound h = omega arith
  warm_up-fits plan s started workspace dir (suc left) index es w bound h =
      let command = measurement_command F H plan.benchmark.command "warmup" index in
      let (stage, w') = run_commands F H benchmark (command ∷ []) workspace dir w in
      let now = (H.monotonic w').0 in
      let w'' = (H.monotonic w').1 in
      let es' = es ++ stage.executions in
      let grown : length (es ++ stage.executions) ≡ length es + 1 =
        omega (
          arith,
          length-append es stage.executions,
          one_command benchmark command workspace dir w,
        ) in
      if-elim (λ (p : Warmup F H × World). WarmupFits bound p.0) stage.succeeded _ _
        (λ fine.
          if-elim (λ (p : Warmup F H × World). WarmupFits bound p.0)
            (le s.max_seconds (sub now started))
            (abandoned (failed_run F H es' (some warmup_budget_expired) [] (some false)), w'') _
            (λ late. (omega (arith, grown), refl))
            (λ soon.
              warm_up-fits plan s started workspace dir left (index + 1) (es ++ stage.executions)
                w'' bound (omega (arith, grown))))
        (λ bad. (omega (arith, grown), refl))

  abbrev AllFiniteValues : List Float → Type 0
  AllFiniteValues [] = Unit
  AllFiniteValues (x ∷ xs) = (is_finite x ≡ true) × AllFiniteValues xs

  finite-append :
      (xs : List Float) (x : Float)
      → AllFiniteValues xs
      → is_finite x ≡ true
      → AllFiniteValues (xs ++ x ∷ [])
  finite-append [] x a f = (f, tt)
  finite-append (y ∷ xs) x a f = (a.0, finite-append xs x a.1 f)

  -- What holds of the windows when the measurement is over.
  record Fits (s : StabilitySpec Float) (bound : ℕ) (es : List ExecutionResult)
      (ms : List (Dict Float)) (vs : List Float) (stable : Bool) : Type 0 where
    commands : length es ≤ bound
    at_most : length vs ≤ s.max_windows
    as_many : length ms ≡ length vs
    all_finite : AllFiniteValues vs
    settled : stable ≡ true → enough F H s vs ≡ true

  abbrev MeasuredFits : StabilitySpec Float → ℕ → Measured F H → Type 0
  MeasuredFits s bound (broken_off r) =
      (length r.result.executions ≤ bound) × (r.result.succeeded ≡ false)
  MeasuredFits s bound (measured es ms vs stable) = Fits s bound es ms vs stable

  read_finite :
      (plan : EvaluationPlan Float) (workspace : String) (w : World) (m : Dict Float) (x : Float)
      → read_benchmark_metrics F H plan workspace w ≡ ok (m, x)
      → is_finite x ≡ true
  unfolding read_benchmark_metrics
  read_finite plan workspace w m x h =
      let (path, inside, read) =
        >>=-ok
          (λ p.
            benchmark_metrics F (H.read_file p w) plan.benchmark.required_metrics
              plan.objective.metric)
          (resolve_metrics_path F H plan.benchmark.metrics_path workspace w) h in
      (benchmark_metrics-ok F (H.read_file path w) plan.benchmark.required_metrics
        plan.objective.metric m x read).0

  Fits-append :
      (s : StabilitySpec Float) (bound : ℕ) (es : List ExecutionResult) (ms : List (Dict Float))
      (vs : List Float) (m : Dict Float) (x : Float) (stable : Bool)
      → length es ≤ bound
      → length vs + 1 ≤ s.max_windows
      → length ms ≡ length vs
      → AllFiniteValues vs
      → is_finite x ≡ true
      → (stable ≡ true → enough F H s (vs ++ x ∷ []) ≡ true)
      → Fits s bound es (ms ++ m ∷ []) (vs ++ x ∷ []) stable
  Fits-append s bound es ms vs m x stable few room same all fx settled = record {
    commands = few;
    at_most = omega (arith, length-append vs (x ∷ []));
    as_many = omega (arith, length-append vs (x ∷ []), length-append ms (m ∷ []));
    all_finite = finite-append vs x all fx;
    settled = settled;
  }

  abbrev FirstFits : StabilitySpec Float → ℕ → Measured F H × World → Type 0
  FirstFits s bound p = MeasuredFits s bound p.0

  after_window-fits :
      (plan : EvaluationPlan Float) (s : StabilitySpec Float) (bound : ℕ)
      (es : List ExecutionResult) (ms : List (Dict Float)) (vs : List Float) (w' w'' : World)
      (is_late : Bool) (go_on : List (Dict Float) → List Float → Measured F H × World)
      (r : Result (Dict Float × Float))
      → length es ≤ bound
      → length vs + 1 ≤ s.max_windows
      → length ms ≡ length vs
      → AllFiniteValues vs
      → ((m : Dict Float) (x : Float) → r ≡ ok (m, x) → is_finite x ≡ true)
      → ((m : Dict Float) (x : Float)
          → is_finite x ≡ true
          → FirstFits s bound (go_on (ms ++ m ∷ []) (vs ++ x ∷ [])))
      → FirstFits s bound (after_window F H plan s es ms vs w' w'' is_late go_on r)
  unfolding after_window metrics_failure
  after_window-fits plan s bound es ms vs w' w'' is_late go_on (err e) few room same all fin next =
      (few, refl)
  after_window-fits plan s bound es ms vs w' w'' is_late go_on (ok (m, x)) few room same all fin
        next =
      let fx = fin m x refl in
      if-elim (FirstFits s bound) (enough F H s (vs ++ x ∷ []))
        (measured es (ms ++ m ∷ []) (vs ++ x ∷ []) true, w') _
        (λ settled. Fits-append s bound es ms vs m x true few room same all fx (λ h. settled))
        (λ unsettled.
          if-elim (FirstFits s bound) is_late (measured es (ms ++ m ∷ []) (vs ++ x ∷ []) false, w'')
            _ (λ late. Fits-append s bound es ms vs m x false few room same all fx (λ h. cc))
            (λ soon. next m x fx))

  measure-fits :
      (plan : EvaluationPlan Float) (s : StabilitySpec Float) (started : Float)
      (workspace dir : String) (left index : ℕ) (es : List ExecutionResult) (ms : List (Dict Float))
      (vs : List Float) (w : World) (bound : ℕ)
      → length es + left ≤ bound
      → length vs + left ≤ s.max_windows
      → length ms ≡ length vs
      → AllFiniteValues vs
      → FirstFits s bound (measure F H plan s started workspace dir left index es ms vs w)
  unfolding measure failed_run
  measure-fits plan s started workspace dir zero index es ms vs w bound few room same all = record {
    commands = omega arith;
    at_most = omega arith;
    as_many = same;
    all_finite = all;
    settled = λ h. cc;
  }
  measure-fits plan s started workspace dir (suc left) index es ms vs w bound few room same all =
      let command = measurement_command F H plan.benchmark.command "measurement" index in
      let (stage, w') = run_commands F H benchmark (command ∷ []) workspace dir w in
      let w'' = (H.monotonic w').1 in
      let es' = es ++ stage.executions in
      let grown : length (es ++ stage.executions) ≡ length es + 1 =
        omega (
          arith,
          length-append es stage.executions,
          one_command benchmark command workspace dir w,
        ) in
      if-elim (FirstFits s bound) stage.succeeded _
        (broken_off (failed_run F H es' stage.reason vs (some false)), w')
        (λ fine.
          after_window-fits plan s bound es' ms vs w' w'' _ _
            (read_benchmark_metrics F H plan workspace w') (omega (arith, grown)) (omega arith) same
            all (read_finite plan workspace w')
            (λ m x fx.
              measure-fits plan s started workspace dir left (index + 1) es' (ms ++ m ∷ [])
                (vs ++ x ∷ []) w'' bound (omega (arith, grown))
                (omega (arith, length-append vs (x ∷ [])))
                (omega (arith, length-append vs (x ∷ []), length-append ms (m ∷ [])))
                (finite-append vs x all fx)))
        (λ bad. (omega (arith, grown), refl))

  -- What a benchmark under a stability policy has measured, if its result says that it succeeded.
  pub record IsStable (plan : EvaluationPlan Float) (s : StabilitySpec Float)
      (r : BenchmarkRun Float) : Type 0 where
    pub at_least : s.min_windows ≤ length r.measurement_values
    pub at_most : length r.measurement_values ≤ s.max_windows
    pub all_finite : AllFiniteValues r.measurement_values
    pub settled :
        values_stable F (last s.stable_windows r.measurement_values) s.relative_tolerance ≡ true
    pub marked : r.stable ≡ some true
    pub is_median : r.objective_value ≡ median r.measurement_values
    pub in_metrics : lookup plan.objective.metric r.metrics ≡ some r.objective_value

  abbrev RunFits :
      EvaluationPlan Float → StabilitySpec Float → ℕ → BenchmarkRun Float × World → Type 0
  RunFits plan s bound p =
      (length p.0.result.executions ≤ bound) × (p.0.result.succeeded ≡ true → IsStable plan s p.0)

  enough_parts :
      (s : StabilitySpec Float) (vs : List Float)
      → enough F H s vs ≡ true
      → (s.min_windows ≤ length vs)
        × (values_stable F (last s.stable_windows vs) s.relative_tolerance ≡ true)
  unfolding enough
  enough_parts s vs h = ground arith

  lookup-insert_self : (k : String) (x : Float) (m : Dict Float) → lookup k (insert k x m) ≡ some x
  lookup-insert_self k x m = simp (lookup-insert, eq_refl)

  conclude-fits :
      (plan : EvaluationPlan Float) (s : StabilitySpec Float) (bound : ℕ) (dir : String)
      (m : Measured F H) (w : World)
      → MeasuredFits s bound m
      → RunFits plan s bound (conclude F H plan s dir m w)
  unfolding conclude failed_run
  conclude-fits plan s bound dir (broken_off r) w h = (h.0, λ e. cc)
  conclude-fits plan s bound dir (measured es ms vs true) w h =
      let (least, settled) = enough_parts s vs (h.settled refl) in
      (
        h.commands,
        λ e. record {
          at_least = least;
          at_most = h.at_most;
          all_finite = h.all_finite;
          settled = settled;
          marked = refl;
          is_median = refl;
          in_metrics = lookup-insert_self plan.objective.metric (median vs) (median_metrics F ms);
        },
      )
  conclude-fits plan s bound dir (measured es ms vs false) w h = (h.commands, λ e. cc)

  after_warm_up-fits :
      (plan : EvaluationPlan Float) (s : StabilitySpec Float) (started : Float)
      (workspace dir : String) (u : Warmup F H) (w : World)
      → WarmupFits s.warmup_runs u
      → RunFits plan s
          (s.warmup_runs + s.max_windows)
          (after_warm_up F H plan s started workspace dir u w)
  unfolding after_warm_up
  after_warm_up-fits plan s started workspace dir (abandoned r) w h = (omega arith, λ e. cc)
  after_warm_up-fits plan s started workspace dir (warm es) w h =
      let m = measure F H plan s started workspace dir s.max_windows 1 es [] [] w in
      conclude-fits plan s (s.warmup_runs + s.max_windows) dir m.0 m.1 (
        measure-fits plan s started workspace dir s.max_windows 1 es [] [] w
          (s.warmup_runs + s.max_windows) (omega arith) (omega arith) refl tt)

  run_policy-fits :
      (plan : EvaluationPlan Float) (s : StabilitySpec Float) (workspace dir : String) (w : World)
      → RunFits plan s
          (s.warmup_runs + s.max_windows)
          (run_policy F H (some s) plan workspace dir w)
  unfolding run_policy
  run_policy-fits plan s workspace dir w =
      let started = (H.monotonic w).0 in
      let w₀ = (H.monotonic w).1 in
      let u = warm_up F H plan s started workspace dir s.warmup_runs 1 [] w₀ in
      after_warm_up-fits plan s started workspace dir u.0 u.1 (
        warm_up-fits plan s started workspace dir s.warmup_runs 1 [] w₀ s.warmup_runs (omega arith))

  -- Under a stability policy a benchmark runs at most the warm-up runs and the windows of the policy,
  -- one command each. If it succeeds, then the number of windows lies within the policy, their values
  -- are finite, the last of them are stable to the tolerance, and the objective value is the median of
  -- all and stands in the metrics under the objective's name.
  pub run_benchmark-IsStable :
      (plan : EvaluationPlan Float) (s : StabilitySpec Float) (workspace dir : String) (w : World)
      → plan.benchmark.stability ≡ some s
      → let r = (run_benchmark F H plan workspace dir w).0 in
        (length r.result.executions ≤ s.warmup_runs + s.max_windows)
        × (r.result.succeeded ≡ true → IsStable plan s r)
  unfolding run_benchmark
  run_benchmark-IsStable plan s workspace dir w policy =
      subst
        (λ (o : Option (StabilitySpec Float)).
          RunFits plan s (s.warmup_runs + s.max_windows) (run_policy F H o plan workspace dir w))
        (sym policy) (run_policy-fits plan s workspace dir w)
