-- ===== src/Planner/Proposals.antt =====
-- What `RulePlanner.propose` returns: how many proposals, where they come from, and that no catalog
-- entry is proposed twice.
use euboulia.Prelude.{
  ◌∙◌, sym, ◌++◌, ◌≡◌, ◌≢◌, ◌≤◌, ◌<◌, refl, arith, true, false, if-elim, some, All, All-append,
  All-implies, All-Memᴰ, Memᴰ, length, length-append, eq_iff,
}
use euboulia.Planner.{
  [], PatchCatalogEntry, among, ◌∷◌, ChangeProposal, Finding, String, MemoryEntry, List,
  AnalysisReport, RulePlanner, Bool, Library, Selection,
}
use euboulia.Planner.Propose.{
  attempted, triggered, nothing_selected, place, proposal_of, eligible, scan_entries, scan_findings,
  select, sort_findings, try_entry, propose,
}

module _ {Float : Type 0} (lt : Float → Float → Bool) (p : RulePlanner Float) (L : Library Float)
    (report : AnalysisReport Float) (recalled : List MemoryEntry) where
  -- A proposal is built from an entry of the catalog and a finding of the report that triggers it; when
  -- repetitions are rejected, no recalled memory has its number or the digest of its change.
  pub record Justified (c : ChangeProposal Float) : Type 0 where
    pub entry : PatchCatalogEntry Float
    pub finding : Finding Float
    pub listed : Memᴰ entry p.catalog
    pub found : Memᴰ finding report.findings
    pub built : c ≡ proposal_of L report finding entry
    pub cause : triggered finding entry ≡ true
    pub fresh : p.reject_duplicates ≡ true → attempted L report recalled entry ≡ false

  -- The entry of the proposal is among the selected ones.
  Recorded : List String → ChangeProposal Float → Type 0
  Recorded selected c =
      (own : String) × (c.catalog_entry_id ≡ some own) × (among own selected ≡ true)

  -- No two proposals come from entries with the same id.
  pub Apart : List (ChangeProposal Float) → Type 0
  Apart [] = Unit {0}
  Apart (c ∷ cs) = All (λ d. c.catalog_entry_id ≢ d.catalog_entry_id) cs × Apart cs

  record Fine (s : Selection Float) : Type 0 where
    justified : All Justified s.proposals
    recorded : All (Recorded s.selected_entries) s.proposals
    apart : Apart s.proposals
    bounded : length s.proposals ≤ p.max_proposals
    open_below : s.returned ≡ false → length s.proposals < p.max_proposals

  Apart-append :
      (cs : List (ChangeProposal Float)) (d : ChangeProposal Float)
      → Apart cs
      → All (λ c. c.catalog_entry_id ≢ d.catalog_entry_id) cs
      → Apart (cs ++ (d ∷ []))
  unfolding Apart
  Apart-append [] d h k = (tt, tt)
  Apart-append (c ∷ cs) d h k = (
    All-append (λ x. c.catalog_entry_id ≢ x.catalog_entry_id) cs d h.0 k.0,
    Apart-append cs d h.1 k.1,
  )

  among_differs :
      (own other : String) (selected : List String)
      → among own selected ≡ true
      → among other selected ≡ false
      → some own ≢ some other
  among_differs own other selected h k e = ground arith

  among-add :
      (own new : String) (selected : List String)
      → among own selected ≡ true
      → among own (new ∷ selected) ≡ true
  among-add own new selected h = ground arith

  among_head : (own : String) (selected : List String) → among own (own ∷ selected) ≡ true
  among_head own selected = ground (arith, eq_iff own own)

  eligible-fresh :
      (f : Finding Float) (selected : List String) (e : PatchCatalogEntry Float)
      → eligible p L report recalled f selected e ≡ true
      → (among e.entry_id selected ≡ false)
        × (triggered f e ≡ true)
        × (p.reject_duplicates ≡ true → attempted L report recalled e ≡ false)
  unfolding eligible
  eligible-fresh f selected e h = (ground arith, ground arith, λ r. ground arith)

  select-Fine :
      (f : Finding Float) (e : PatchCatalogEntry Float) (s : Selection Float)
      → Memᴰ f report.findings
      → Memᴰ e p.catalog
      → Fine s
      → s.returned ≡ false
      → eligible p L report recalled f s.selected_entries e ≡ true
      → Fine (select p (proposal_of L report f e) e.entry_id s)
  unfolding select proposal_of Recorded
  select-Fine f e s found listed fine going h =
      let (unused, cause, fresh) = eligible-fresh f s.selected_entries e h in
      let own = e.entry_id in
      let c = proposal_of L report f e in
      record {
        justified = All-append Justified s.proposals c fine.justified (record {
          entry = e;
          finding = f;
          listed = listed;
          found = found;
          built = refl;
          cause = cause;
          fresh = fresh;
        });
        recorded =
            All-append (Recorded (own ∷ s.selected_entries)) s.proposals c
              (All-implies s.proposals
                (λ d (own', is, at). (own', is, among-add own' own s.selected_entries at))
                fine.recorded)
              (own, refl, among_head own s.selected_entries);
        apart = Apart-append s.proposals c fine.apart (
            All-implies s.proposals
              (λ d (own', is, at) same.
                among_differs own' own s.selected_entries at unused (sym is ∙ same))
              fine.recorded);
        bounded = omega (arith, length-append s.proposals (c ∷ []), fine.open_below going);
        open_below = λ r. ground (arith, length-append s.proposals (c ∷ []));
      }

  try_entry-Fine :
      (f : Finding Float) (e : PatchCatalogEntry Float) (s : Selection Float)
      → Memᴰ f report.findings
      → Memᴰ e p.catalog
      → Fine s
      → Fine (try_entry p L report recalled f e s)
  unfolding try_entry
  try_entry-Fine f e s found listed fine =
      if-elim Fine s.returned _ _ (λ done. fine)
        (λ going.
          if-elim Fine (eligible p L report recalled f s.selected_entries e) _ _
            (λ h. select-Fine f e s found listed fine going h) (λ h. fine))

  scan_entries-Fine :
      (f : Finding Float) (es : List (PatchCatalogEntry Float)) (s : Selection Float)
      → Memᴰ f report.findings
      → All (λ e. Memᴰ e p.catalog) es
      → Fine s
      → Fine (scan_entries p L report recalled f es s)
  unfolding scan_entries
  scan_entries-Fine f [] s found listed fine = fine
  scan_entries-Fine f (e ∷ es) s found listed fine =
      scan_entries-Fine f es (try_entry p L report recalled f e s) found listed.1
        (try_entry-Fine f e s found listed.0 fine)

  scan_findings-Fine :
      (fs : List (Finding Float)) (s : Selection Float)
      → All (λ f. Memᴰ f report.findings) fs
      → Fine s
      → Fine (scan_findings p L report recalled fs s)
  unfolding scan_findings
  scan_findings-Fine [] s found fine = fine
  scan_findings-Fine (f ∷ fs) s found fine =
      scan_findings-Fine fs (scan_entries p L report recalled f p.catalog s) found.1
        (scan_entries-Fine f p.catalog s found.0 (All-Memᴰ p.catalog) fine)

  module _ (P : Finding Float → Type 0) where
    All-place :
        (f : Finding Float) (gs : List (Finding Float)) → P f → All P gs → All P (place lt f gs)
    unfolding place
    All-place f [] h k = (h, tt)
    All-place f (g ∷ gs) h k =
        if-elim (All P) (lt f.confidence g.confidence) _ _ (λ b. (k.0, All-place f gs h k.1))
          (λ b. (h, k))

    All-sort_findings : (fs : List (Finding Float)) → All P fs → All P (sort_findings lt fs)
    unfolding sort_findings
    All-sort_findings [] h = tt
    All-sort_findings (f ∷ fs) h = All-place f (sort_findings lt fs) h.0 (All-sort_findings fs h.1)

  -- With a positive limit, the planner returns at most that many proposals. Each is built from an entry
  -- of the catalog and a finding of the report that triggers it and, when repetitions are rejected,
  -- repeats neither the number nor the change of a recalled memory. No two come from entries with the
  -- same id.
  pub propose-Justified :
      0 < p.max_proposals
      → let chosen = propose lt p L report recalled in
        (length chosen ≤ p.max_proposals) × All Justified chosen × Apart chosen
  unfolding propose Apart
  propose-Justified positive =
      let fine =
        scan_findings-Fine (sort_findings lt report.findings) nothing_selected
          (All-sort_findings (λ f. Memᴰ f report.findings) report.findings
            (All-Memᴰ report.findings))
          (record {
            justified = tt;
            recorded = tt;
            apart = tt;
            bounded = omega arith;
            open_below = λ r. positive;
          }) in
      (fine.bounded, fine.justified, fine.apart)
