-- ===== src/Runner/Service/Examples.antt =====
-- A managed service on a host whose world is the list of the services that run, and whose stop raises.
use euboulia.Prelude.{true, false, none, some, List, [], ◌∷◌, ℕ}
use euboulia.Floats.Scaled.{ℤ, pos}
use euboulia.Evaluator.{TieredEvaluationResult, passed}
use euboulia.Runner.{
  threw, other_error, RunnerHost, RunConfig, Answer, answer, candidate, Proposal, ManagedWorkspace,
}
use euboulia.Runner.Exec.{Session}
use euboulia.Runner.Service.{without, ServiceRequest}
use euboulia.Runner.Candidate.{candidate_states}

abbrev done : List ℕ → Answer (Unit {0}) × List ℕ
done w = (answer tt, w)

abbrev measured : ℤ → TieredEvaluationResult ℤ
measured value = record {
  trial_id = "trial";
  outcome = passed;
  stages = [];
  metrics = ("output_throughput", value) ∷ [];
  objective_value = some value;
  relative_improvement = none;
  gate_passed = true;
  profiler_trial = false;
  promotable = true;
  artifact_dir = "runs/trial";
  measurement_values = [];
  measurement_stable = none;
  accuracy_metrics = [];
  accuracy_value = none;
  failure_stage = none;
  reason = none;
}

abbrev workspace : ManagedWorkspace
workspace = record { path = "workspaces/0001"; base_commit = "f00d" }

abbrev chunked_prefill : Proposal
chunked_prefill = record {
  proposal_id = "chunked-prefill";
  patch_path = none;
  server_args = some (("--chunked-prefill-size", some "8192") ∷ [], []);
  change_sha256 = none;
  patch_sha256 = none;
}

abbrev host : RunnerHost ℤ
host = record {
  World = List ℕ;
  monotonic = λ w. (pos 0, w);
  append = λ e w. done w;
  require_lock = done;
  open_ledger = done;
  has_run = λ w. (answer false, w);
  write_resolved_recipe = done;
  open_memory = done;
  prepare_models = done;
  recall_exact = λ w. (answer [], w);
  recall_compatible = λ w. (answer [], w);
  capture_profile = λ handle w. done w;
  deliberate = λ entries exact w. (answer (chunked_prefill ∷ []), w);
  prepare_workspace = λ role iteration revision w. (answer workspace, w);
  capture_provenance = λ role work w. done w;
  validate_runtime = λ role w. done w;
  validate_hardware = done;
  target_spec = λ role work w. done w;
  build = λ role work w. done w;
  argument_patch = λ set removed w. done w;
  prepare_patch = λ path work w. (answer (record { patch_path = path; sha256 = "beef" }), w);
  apply_patch = λ patch work w. done w;
  start = λ role work change w. (answer 7, 7 ∷ w);
  wait_ready = λ handle w. done w;
  stop = λ handle w. (threw (other_error "no process"), without handle w);
  preserve_log = λ handle w. done w;
  evaluate_point = λ request w. (answer (measured (pos 1200)), w);
  write_summary = done;
  new_outcome_id = λ w. (answer "outcome-1", w);
  remember = λ outcome w. (answer "memory-1", w);
  stable_digest = λ patch set removed. "cafe";
}

abbrev config : RunConfig ℤ
config = record {
  has_target = true;
  has_build_commands = true;
  has_workspace = true;
  has_runtime = true;
  has_metrics_path = true;
  is_version_two = false;
  has_repository = true;
  baseline_name = "baseline";
  baseline_metric_values = [];
  legacy_baseline = none;
  suite_points = "short" ∷ [];
  fast_points = "short" ∷ [];
  qualification_points = "short" ∷ [];
  promotion = some (record { primary_points = "short" ∷ []; require_all_points_valid = true });
  max_iterations = 3;
  max_consecutive_failures = 2;
  max_wall_time_seconds = pos 1000;
  no_improvement_patience = 2;
}

-- One service runs already.
abbrev session : Session (List ℕ)
session = record { events = []; services = 3 ∷ []; world = 3 ∷ [] }

abbrev request : ServiceRequest ℤ
request = record {
  role = candidate;
  iteration = 1;
  entity_id = "chunked-prefill";
  workspace = workspace;
  change_set = record {
    argument_set = ("--chunked-prefill-size", some "8192") ∷ [];
    argument_remove = [];
    source_patch_path = none;
  };
  states = candidate_states;
  baseline_values = ("short", pos 1000) ∷ [];
  apply_promotion_gate = true;
}
