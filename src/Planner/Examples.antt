-- ===== src/Planner/Examples.antt =====
-- Examples for the planner.
use euboulia.Prelude.{
  arith, leb, ◌≡◌, refl, true, false, none, some, [], ◌∷◌, Memᴰ, ℕ, length, All, ◌≤◌, ltb,
}
use euboulia.Prelude.Dict.{lookup, insert, has_key}
use euboulia.Planner.{
  ok, none_left, item, end, sequence, number, quantity, text, AnalysisReport, PatchCatalogEntry,
  RulePlanner, entry, mapping, Library, Yaml, Entries,
}
use euboulia.Planner.Propose.{
  place, sort_findings, select, attempted, triggered, eligible, try_entry, scan_entries,
  scan_findings, propose,
}
use euboulia.Planner.Proposals.{propose-Justified, Justified, Apart}
use euboulia.Planner.Catalog.{
  unique_entries, change_of, overlaps, consistent, server_argument, removed_arguments,
  selected_arguments, read_remove, has_duplicates, read_set, from_mapping, server_arguments, load,
  get,
}
use euboulia.Planner.Disjoint.{get-load, server_arguments-Separate, Separate}

abbrev library : Library ℕ
library = record {
  strip = λ s. s;
  is_option = λ s. true;
  has_nul = λ s. false;
  is_finite = λ x. true;
  is_one = λ x. leb x 1;
  resolve = λ s. s;
  is_file = λ s. true;
  file_digest = λ s. s;
  change_digest = λ p r s. "change";
  proposal_digest = λ a e c. e;
}

abbrev arguments : Entries ℕ
arguments =
    entry "set" (mapping (entry "--page-size" (number 64) end))
      (entry "remove" (sequence (item (text "--disable-radix-cache") none_left)) end)

abbrev larger_pages : Entries ℕ
larger_pages = entry "id" (text "larger-pages") (
    entry "title" (text "Larger pages") (
      entry "rationale" (text "Fewer page tables") (
        entry "triggers" (sequence (item (text "memory") none_left))
          (entry "server_args" (mapping arguments) end))))

abbrev document : Yaml ℕ
document = mapping (
    entry "schema_version" (number 1)
      (entry "entries" (sequence (item (mapping larger_pages) none_left)) end))

abbrev pages_entry : PatchCatalogEntry ℕ
pages_entry = record {
  entry_id = "larger-pages";
  title = "Larger pages";
  rationale = "Fewer page tables";
  triggers = "memory" ∷ [];
  patch_path = none;
  patch_sha256 = none;
  server_args_set = ("--page-size", quantity 64) ∷ [];
  server_args_remove = "--disable-radix-cache" ∷ [];
  change_sha256 = "change";
  predicted_metric = none;
  risk = "medium";
}

server_arguments-Separate_example :
    Separate library (("--page-size", quantity 64) ∷ []) ("--disable-radix-cache" ∷ [])
unfolding server_arguments read_set read_remove selected_arguments removed_arguments server_argument
    consistent has_duplicates overlaps insert has_key lookup
server_arguments-Separate_example =
    server_arguments-Separate library (some (mapping arguments)) (("--page-size", quantity 64) ∷ [])
      ("--disable-radix-cache" ∷ []) refl

loaded : load library document ≡ ok (pages_entry ∷ [])
unfolding load from_mapping server_arguments read_set read_remove selected_arguments
    removed_arguments server_argument consistent has_duplicates overlaps insert has_key lookup
    change_of unique_entries
loaded = refl

get-load_example :
    ((e : PatchCatalogEntry ℕ)
      → Memᴰ e (pages_entry ∷ [])
      → get (pages_entry ∷ []) e.entry_id ≡ some e)
    × (has_duplicates ("change" ∷ []) ≡ false)
get-load_example = get-load library document (pages_entry ∷ []) loaded

abbrev planner : RulePlanner ℕ
planner = record { catalog = pages_entry ∷ []; max_proposals = 1; reject_duplicates = true }

abbrev report : AnalysisReport ℕ
report = record {
  analysis_id = "analysis";
  findings = record { finding_id = "f1"; category = "memory"; confidence = 900 } ∷ [];
}

-- One proposal comes out of this report.
proposed : length (propose ltb planner library report []) ≡ 1
unfolding propose scan_findings scan_entries try_entry eligible triggered attempted select
    sort_findings place
proposed = refl

propose-Justified_example :
    let chosen = propose ltb planner library report [] in
    (length chosen ≤ 1)
    × All (Justified ltb planner library report []) chosen
    × Apart ltb planner library report [] chosen
propose-Justified_example = propose-Justified ltb planner library report [] (omega arith)
