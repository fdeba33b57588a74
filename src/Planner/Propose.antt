-- ===== src/Planner/Propose.antt =====
-- `RulePlanner.propose` of planner.py.
use euboulia.Prelude.{
  String, Bool, true, false, not, ◌&&◌, ◌||◌, Option, none, some, List, [], ◌∷◌, ◌++◌,
  if◌then◌else◌, leb, length, map,
}
use euboulia.Planner.{
  Selection, ChangeKind, patch_catalog, server_parameter, composite, PatchCatalogEntry, Library,
  Finding, AnalysisReport, MemoryEntry, ChangeProposal, RulePlanner, among,
}

abbrev pub attempted_proposals : List MemoryEntry → List String
attempted_proposals recalled = map (λ m. m.proposal_id) recalled

abbrev pub attempted_patches : List MemoryEntry → List String
attempted_patches [] = []
attempted_patches (m ∷ ms) = elim m.patch_digest [
  | none ↦ attempted_patches ms
  | some d ↦ d ∷ attempted_patches ms
]

patch_of : Option String → Option String → Option (String × String)
patch_of (some path) (some digest) = some (path, digest)
patch_of _ _ = none

module _ {Float : Type 0} where
  -- bool(entry.server_args_set or entry.server_args_remove)
  has_arguments : PatchCatalogEntry Float → Bool
  has_arguments e = elim e.server_args_set [
    | [] ↦ elim e.server_args_remove [ [] ↦ false | r ∷ rs ↦ true ]
    | s ∷ ss ↦ true
  ]

  change_kind_of : PatchCatalogEntry Float → ChangeKind
  unfolding has_arguments
  change_kind_of e =
      if has_arguments e
      then elim e.patch_path [ none ↦ server_parameter | some p ↦ composite ]
      else patch_catalog

  unfoldable pub proposal_of :
      Library Float
      → AnalysisReport Float
      → Finding Float
      → PatchCatalogEntry Float
      → ChangeProposal Float
  unfolding change_kind_of has_arguments patch_of
  proposal_of L report f e = record {
    proposal_id = L.proposal_digest report.analysis_id e.entry_id e.change_sha256;
    analysis_id = report.analysis_id;
    title = e.title;
    rationale = e.rationale;
    change_kind = change_kind_of e;
    catalog_entry_id = some e.entry_id;
    predicted_metric = e.predicted_metric;
    risk = e.risk;
    metadata = record {
      finding_id = f.finding_id;
      finding_category = f.category;
      finding_confidence = f.confidence;
      change_sha256 = e.change_sha256;
      patch = patch_of e.patch_path e.patch_sha256;
      server_args =
          if has_arguments e then some (e.server_args_set, e.server_args_remove) else none;
    };
  }

  -- "*" in entry.triggers or finding.category in entry.triggers
  unfoldable pub triggered : Finding Float → PatchCatalogEntry Float → Bool
  triggered f e = among "*" e.triggers || among f.category e.triggers

  unfoldable pub attempted :
      Library Float → AnalysisReport Float → List MemoryEntry → PatchCatalogEntry Float → Bool
  attempted L report recalled e =
      among (L.proposal_digest report.analysis_id e.entry_id e.change_sha256)
        (attempted_proposals recalled)
      || among e.change_sha256 (attempted_patches recalled)

  -- The three `continue`s of the inner loop, the other way round.
  unfoldable pub eligible :
      RulePlanner Float
      → Library Float
      → AnalysisReport Float
      → List MemoryEntry
      → Finding Float
      → List String
      → PatchCatalogEntry Float
      → Bool
  unfolding triggered attempted
  eligible p L report recalled f selected e =
      not (among e.entry_id selected)
      && (triggered f e && not (p.reject_duplicates && attempted L report recalled e))

  unfoldable pub select :
      RulePlanner Float → ChangeProposal Float → String → Selection Float → Selection Float
  select p proposal own s =
      let chosen = s.proposals ++ (proposal ∷ []) in
      record {
        proposals = chosen;
        selected_entries = own ∷ s.selected_entries;
        returned = leb p.max_proposals (length chosen);
      }

  unfoldable pub try_entry :
      RulePlanner Float
      → Library Float
      → AnalysisReport Float
      → List MemoryEntry
      → Finding Float
      → PatchCatalogEntry Float
      → Selection Float
      → Selection Float
  unfolding eligible select proposal_of
  try_entry p L report recalled f e s =
      if s.returned
      then s
      else if eligible p L report recalled f s.selected_entries e
      then select p (proposal_of L report f e) e.entry_id s
      else s

  -- for entry in self.catalog.entries
  unfoldable pub scan_entries :
      RulePlanner Float
      → Library Float
      → AnalysisReport Float
      → List MemoryEntry
      → Finding Float
      → List (PatchCatalogEntry Float)
      → Selection Float
      → Selection Float
  unfolding try_entry
  scan_entries p L report recalled f [] s = s
  scan_entries p L report recalled f (e ∷ es) s =
      scan_entries p L report recalled f es (try_entry p L report recalled f e s)

  -- for finding in findings
  unfoldable pub scan_findings :
      RulePlanner Float
      → Library Float
      → AnalysisReport Float
      → List MemoryEntry
      → List (Finding Float)
      → Selection Float
      → Selection Float
  unfolding scan_entries
  scan_findings p L report recalled [] s = s
  scan_findings p L report recalled (f ∷ fs) s =
      scan_findings p L report recalled fs (scan_entries p L report recalled f p.catalog s)

  unfoldable pub place :
      (Float → Float → Bool) → Finding Float → List (Finding Float) → List (Finding Float)
  place lt f [] = f ∷ []
  place lt f (g ∷ gs) =
      let later = place lt f gs in if lt f.confidence g.confidence then g ∷ later else f ∷ (g ∷ gs)

  -- sorted by confidence with reverse=True, which keeps the order of equals
  unfoldable pub sort_findings :
      (Float → Float → Bool) → List (Finding Float) → List (Finding Float)
  unfolding place
  sort_findings lt [] = []
  sort_findings lt (f ∷ fs) = place lt f (sort_findings lt fs)

  abbrev pub nothing_selected : Selection Float
  nothing_selected = record { proposals = []; selected_entries = []; returned = false }

  unfoldable pub propose :
      (Float → Float → Bool)
      → RulePlanner Float
      → Library Float
      → AnalysisReport Float
      → List MemoryEntry
      → List (ChangeProposal Float)
  unfolding scan_findings sort_findings
  propose lt p L report recalled =
      (scan_findings p L report recalled (sort_findings lt report.findings)
        nothing_selected).proposals
