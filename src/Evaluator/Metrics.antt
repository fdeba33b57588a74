-- ===== src/Evaluator/Metrics.antt =====
-- `parse_metrics` and the gate on one objective (optimization/evaluator.py).
pub mod Finite
pub mod Gate
use Prim.Native.String.{◌++◌ as append}
use euboulia.Prelude.{
  String, Bool, true, false, Option, none, some, List, [], ◌∷◌, str_eq, if◌then◌else◌,
}
use euboulia.Prelude.Dict.{Dict, insert, lookup, has_key}
use euboulia.Floats.{FloatOps}
use euboulia.Evaluator.{
  Json, Fields, null, boolean, text, number, array, object, end, field, MetricsError, not_an_object,
  empty_key, no_values, not_finite, unreadable, empty_file, invalid_json, required_missing,
  key_missing, Result, ok, err, ◌>>=◌, FileText, cannot_read, blank, not_json, document,
  ObjectiveDirection, minimize, maximize, ObjectiveSpec, Reason, objective_gate_failed,
  relative_gate_failed,
}

-- f"{prefix}.{raw_key}" if prefix else raw_key
abbrev dotted : String → String → String
dotted prefix key = if str_eq prefix "" then key else append prefix (append "." key)

module _ (F : FloatOps) where
  open F use {Float, zero_float, le, lt, eq, sub, div, abs, is_finite}

  unfoldable mutual
    pub collect_value : Json Float → String → Dict Float → Result (Dict Float)
    collect_value null key output = ok output
    collect_value (boolean b) key output = ok output
    collect_value (text s) key output = ok output
    collect_value array key output = ok output
    collect_value (number x) key output =
        if is_finite x then ok (insert key x output) else err (not_finite key)
    collect_value (object fs) key output = collect_metrics fs key output

    pub collect_metrics : Fields Float → String → Dict Float → Result (Dict Float)
    collect_metrics end prefix output = ok output
    collect_metrics (field k v fs) prefix output =
        if str_eq k ""
        then err empty_key
        else (collect_value v (dotted prefix k) output >>= λ o. collect_metrics fs prefix o)

  -- payload.get("metrics")
  unfoldable pub get_field : String → Fields Float → Option (Json Float)
  get_field k end = none
  get_field k (field j v fs) = if str_eq j k then some v else get_field k fs

  nested_metrics : Option (Json Float) → Result (Dict Float)
  unfolding collect_value
  nested_metrics (some (object fs)) = collect_metrics fs "" []
  nested_metrics _ = ok []

  -- The loop over `payload.items()`, which passes over the nested object.
  other_metrics : Fields Float → Dict Float → Result (Dict Float)
  unfolding collect_value
  other_metrics end output = ok output
  other_metrics (field k v fs) output =
      if str_eq k "metrics"
      then other_metrics fs output
      else if str_eq k ""
      then err empty_key
      else (collect_value v k output >>= λ o. other_metrics fs o)

  nonempty : Dict Float → Result (Dict Float)
  nonempty [] = err no_values
  nonempty m = ok m

  unfoldable pub parse_metrics : FileText Float → Result (Dict Float)
  unfolding nested_metrics other_metrics nonempty get_field
  parse_metrics cannot_read = err unreadable
  parse_metrics blank = err empty_file
  parse_metrics not_json = err invalid_json
  parse_metrics (document (object fs)) = do
    nested ← nested_metrics (get_field "metrics" fs)
    all ← other_metrics fs nested
    nonempty all
  parse_metrics (document _) = err not_an_object

  unfoldable pub missing_keys : List String → Dict Float → List String
  missing_keys [] m = []
  missing_keys (k ∷ ks) m = let rest = missing_keys ks m in if has_key m k then rest else k ∷ rest

  require_keys : List String → Dict Float → Result (Dict Float)
  require_keys [] m = ok m
  require_keys missing m = err (required_missing missing)

  -- metrics[key], whose `KeyError` the callers catch
  unfoldable pub value_at : String → Dict Float → Result Float
  value_at key m = elim (lookup key m) [ none ↦ err (key_missing key) | some x ↦ ok x ]

  -- _read_benchmark_metrics, from the text of the file on
  unfoldable pub benchmark_metrics :
      FileText Float → List String → String → Result (Dict Float × Float)
  unfolding require_keys value_at
  benchmark_metrics contents required objective = do
    metrics ← parse_metrics contents
    complete ← require_keys (missing_keys required metrics) metrics
    value ← value_at objective complete
    ok (complete, value)

  relative_to : ObjectiveDirection → Float → Float → Float
  relative_to maximize value baseline = div (sub value baseline) (abs baseline)
  relative_to minimize value baseline = div (sub baseline value) (abs baseline)

  unfoldable pub relative_improvement : Float → ObjectiveSpec Float → Option Float
  unfolding relative_to
  relative_improvement value objective = elim objective.baseline [
    | none ↦ none
    | some b ↦ if eq b zero_float then none else some (relative_to objective.direction value b)
  ]

  -- value >= threshold, or value <= threshold
  unfoldable pub passes : ObjectiveDirection → Float → Float → Bool
  passes maximize value threshold = le threshold value
  passes minimize value threshold = le value threshold

  relative_gate : Option Float → ObjectiveSpec Float → Bool × Option (Reason Float)
  relative_gate none objective = (true, none)
  relative_gate (some r) objective =
      if lt r objective.minimum_relative_improvement
      then (false, some (relative_gate_failed r objective.minimum_relative_improvement))
      else (true, none)

  unfoldable pub gate : Float → Option Float → ObjectiveSpec Float → Bool × Option (Reason Float)
  unfolding passes relative_gate
  gate value relative objective = elim objective.absolute_threshold [
    | none ↦ relative_gate relative objective
    | some threshold ↦
        if passes objective.direction value threshold
        then relative_gate relative objective
        else (false, some (objective_gate_failed value objective.direction threshold))
  ]
