-- ===== src/Memory/Examples.antt =====
-- Examples for the index of outcomes: the JSON of an entry is its id.
use euboulia.Prelude.{ap, sym, ◌∙◌, str_eq, ◌≡◌, refl, Option, none, some, List, [], ◌∷◌, String}
use euboulia.Runner.{OutcomeStatus}
use euboulia.Control.Texts.{by_code_points}
use euboulia.Memory.{MemoryEntry, Row, Library, none_left}
use euboulia.Memory.Store.{ok, conflict, row_of, record_entry, rebuild}
use euboulia.Memory.Kept.{LibraryLaws, Unique, Recorded, record_entry-Recorded}

abbrev entry_of : String → String → MemoryEntry String (Unit {0})
entry_of memory outcome = record {
  memory_id = memory;
  outcome_id = outcome;
  run_uid = "run";
  iteration_id = "1";
  framework = "sglang";
  framework_revision = "r";
  hardware_fingerprint = "h";
  model_revision = "m";
  workload_digest = "w";
  benchmark_policy_digest = "b";
  spec_digest = "s";
  compatibility_digest = "c";
  proposal_id = "p";
  outcome = OutcomeStatus.accepted;
  summary = "text";
  compatibility_facets = none_left;
  patch_digest = none;
  relative_improvement = none;
  created_at = "2026";
  details = none_left;
}

abbrev first_row : List (Row String (Unit {0})) → Option (Row String (Unit {0}))
first_row [] = none
first_row (row ∷ rows) = some row

-- The JSON of an entry is its id, from which it is read back.
abbrev ids : Library String (Unit {0})
ids = record {
  to_json = λ e. e.memory_id;
  from_json = λ s. some (entry_of s s);
  fetchone = first_row;
  before = by_code_points;
  same_leaf = str_eq;
}

abbrev Twin : MemoryEntry String (Unit {0}) → Type 0
Twin e = (s : String) × (e ≡ entry_of s s)

ids_laws : LibraryLaws ids Twin
ids_laws = record {
  from_json-to_json =
      λ e v. ap (λ x. some (entry_of x.memory_id x.memory_id)) v.1 ∙ ap some (sym v.1);
  fetchone-one = λ P row rows h. (row, refl, h.0);
}

abbrev two : List (Row String (Unit {0}))
two = row_of ids (entry_of "a" "a") ∷ row_of ids (entry_of "b" "b") ∷ []

rebuilt : rebuild ids (entry_of "a" "a" ∷ entry_of "b" "b" ∷ entry_of "a" "a" ∷ []) [] ≡ (ok 3, two)
unfolding rebuild
rebuilt = refl

taken : record_entry ids (entry_of "c" "b") two ≡ (conflict, two)
unfolding record_entry
taken = refl

two-Unique : Unique ids Twin two
unfolding Unique
two-Unique = (
  (refl, ("a", refl)),
  (record { memory_ids = refl; outcome_ids = refl }, tt),
  ((refl, ("b", refl)), tt, tt),
)

record_entry-Recorded_example :
    Recorded ids Twin (entry_of "b" "b") two (record_entry ids (entry_of "b" "b") two)
    × Unique ids Twin (record_entry ids (entry_of "b" "b") two).1
record_entry-Recorded_example =
    record_entry-Recorded ids Twin ids_laws (entry_of "b" "b") two ("b", refl) two-Unique
