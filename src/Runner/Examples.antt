-- ===== src/Runner/Examples.antt =====
-- A run on a host whose world counts the services it started, with one proposal of server arguments.
use euboulia.Prelude.{
  ◌↔◌, ◌≡◌, refl, true, false, Option, none, some, List, [], ◌∷◌, ℕ, suc, String,
}
use euboulia.Floats.Scaled.{ℤ, pos, thousandths}
use euboulia.Lifecycle.{building, stopping_service}
use euboulia.Evaluator.{TieredEvaluationResult, passed}
use euboulia.Runner.{
  accepted, PromotionConfig, RunnerHost, RunConfig, Answer, answer, Capability, benchmark_execution,
  build_execution, profile_execution, workspace_write, owned_service_lifecycle, candidate, Proposal,
  ManagedWorkspace, Result, ok, raised,
}
use euboulia.Runner.Exec.{Session}
use euboulia.Runner.Keeps.{Good, Keeps, Legal}
use euboulia.Prelude.Dict.{Dict}
use euboulia.Runner.Service.{ServiceRequest, evaluate_managed_service}
use euboulia.Runner.Service.Stops.{in_iteration, evaluate_managed_service-Keeps}
use euboulia.Runner.Candidate.{candidate_states}
use euboulia.Runner.Candidate.Stops.{candidate_states-Allowed}
use euboulia.Runner.Suite.{suite_result, outcome_status}
use euboulia.Runner.Suite.Verdict.{Valid, suite_result-accepted}
use euboulia.Runner.Loop.{run, RunResult}
use euboulia.Runner.Loop.Approval.{services, Asks, Waits, run-missing}
use euboulia.Runner.Loop.States.{Ended}
use euboulia.Runner.Loop.Ends.{run_lem}

abbrev done : ℕ → Answer (Unit {0}) × ℕ
done w = (answer tt, w)

abbrev measured : ℤ → TieredEvaluationResult ℤ
measured value = record {
  trial_id = "trial";
  outcome = passed;
  stages = [];
  metrics = ("output_throughput", value) ∷ [];
  objective_value = some value;
  relative_improvement = none;
  gate_passed = true;
  profiler_trial = false;
  promotable = true;
  artifact_dir = "runs/trial";
  measurement_values = [];
  measurement_stable = none;
  accuracy_metrics = [];
  accuracy_value = none;
  failure_stage = none;
  reason = none;
}

abbrev workspace : ManagedWorkspace
workspace = record { path = "workspaces/0001"; base_commit = "f00d" }

abbrev chunked_prefill : Proposal
chunked_prefill = record {
  proposal_id = "chunked-prefill";
  patch_path = none;
  server_args = some (("--chunked-prefill-size", some "8192") ∷ [], []);
  change_sha256 = none;
  patch_sha256 = none;
}

abbrev host : RunnerHost ℤ
host = record {
  World = ℕ;
  monotonic = λ w. (pos 0, w);
  append = λ e w. done w;
  require_lock = done;
  open_ledger = done;
  has_run = λ w. (answer false, w);
  write_resolved_recipe = done;
  open_memory = done;
  prepare_models = done;
  recall_exact = λ w. (answer [], w);
  recall_compatible = λ w. (answer [], w);
  capture_profile = λ handle w. done w;
  deliberate = λ entries exact w. (answer (chunked_prefill ∷ []), w);
  prepare_workspace = λ role iteration revision w. (answer workspace, w);
  capture_provenance = λ role work w. done w;
  validate_runtime = λ role w. done w;
  validate_hardware = done;
  target_spec = λ role work w. done w;
  build = λ role work w. done w;
  argument_patch = λ set removed w. done w;
  prepare_patch = λ path work w. (answer (record { patch_path = path; sha256 = "beef" }), w);
  apply_patch = λ patch work w. done w;
  start = λ role work change w. (answer w, suc w);
  wait_ready = λ handle w. done w;
  stop = λ handle w. done w;
  preserve_log = λ handle w. done w;
  evaluate_point = λ request w. (answer (measured (pos 1200)), w);
  write_summary = done;
  new_outcome_id = λ w. (answer "outcome-1", w);
  remember = λ outcome w. (answer "memory-1", w);
  stable_digest = λ patch set removed. "cafe";
}

abbrev config : RunConfig ℤ
config = record {
  has_target = true;
  has_build_commands = true;
  has_workspace = true;
  has_runtime = true;
  has_metrics_path = true;
  is_version_two = false;
  has_repository = true;
  baseline_name = "baseline";
  baseline_metric_values = [];
  legacy_baseline = none;
  suite_points = "short" ∷ [];
  fast_points = "short" ∷ [];
  qualification_points = "short" ∷ [];
  promotion = some (record { primary_points = "short" ∷ []; require_all_points_valid = true });
  max_iterations = 3;
  max_consecutive_failures = 2;
  max_wall_time_seconds = pos 1000;
  no_improvement_patience = 2;
}

abbrev all : List Capability
all =
    benchmark_execution ∷ build_execution ∷ owned_service_lifecycle ∷ profile_execution
    ∷ workspace_write ∷ []

abbrev session : Session ℕ
session = record { events = []; services = []; world = 0 }

-- The service of the candidate.
abbrev request : ServiceRequest ℤ
request = record {
  role = candidate;
  iteration = 1;
  entity_id = "chunked-prefill";
  workspace = workspace;
  change_set = record {
    argument_set = ("--chunked-prefill-size", some "8192") ∷ [];
    argument_remove = [];
    source_patch_path = none;
  };
  states = candidate_states;
  baseline_values = ("short", pos 1000) ∷ [];
  apply_promotion_gate = true;
}

evaluate_managed_service-Keeps_example :
    Keeps Legal
      (λ out. out.0 ≡ in_iteration stopping_service)
      (evaluate_managed_service thousandths host config request (in_iteration building))
evaluate_managed_service-Keeps_example =
    evaluate_managed_service-Keeps thousandths host config request candidate_states-Allowed

-- A suite of two points of which the second was not evaluated.
abbrev one_of_two : Dict (TieredEvaluationResult ℤ)
one_of_two = ("short", measured (pos 1200)) ∷ []

abbrev primary_only : PromotionConfig
primary_only = record { primary_points = "short" ∷ []; require_all_points_valid = false }

suite_result-accepted_example :
    let r = suite_result thousandths primary_only true ("short" ∷ "long" ∷ []) one_of_two in
    (outcome_status r.outcome r.promotable ≡ accepted)
    ↔ Valid thousandths primary_only true ("short" ∷ "long" ∷ []) one_of_two
suite_result-accepted_example =
    suite_result-accepted thousandths primary_only true ("short" ∷ "long" ∷ []) one_of_two

run_lem_example :
    ((run thousandths host config all session).1.services ≡ [])
    × Good Legal (Ended thousandths host config) (run thousandths host config all session).0
run_lem_example = run_lem thousandths host config all session

-- The world of this host counts services only: there is none before the approval.
run-missing_example :
    Waits thousandths host config (λ w. w ≡ 0) (run thousandths host config [] session).1
    × Good Legal (Asks thousandths host config) (run thousandths host config [] session).0
run-missing_example =
    run-missing thousandths host config (λ w. w ≡ 0)
      (record {
        monotonic = λ w h. h;
        append = λ e w h. h;
        require_lock = λ w h. h;
        open_ledger = λ w h. h;
        has_run = λ w h. h;
        write_resolved_recipe = λ w h. h;
        open_memory = λ w h. h;
      })
      [] owned_service_lifecycle (services refl) tt session (record { world = refl; events = tt })

abbrev champion_of : Result (RunResult ℤ) → Option String
champion_of (ok r) = some r.champion_id
champion_of (raised e) = none

abbrev ended : Option String × ℕ × List ℕ
ended = let (r, s) = run thousandths host config all session in (champion_of r, s.world, s.services)
