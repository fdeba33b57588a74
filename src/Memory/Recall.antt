-- ===== src/Memory/Recall.antt =====
-- `recall` of `SQLiteMemoryStore`, and `_facets_contain`.
use euboulia.Prelude.{
  Bool, true, false, ◌||◌, ◌&&◌, Option, none, some, List, [], ◌∷◌, ℕ, zero, suc, String, str_eq,
  if◌then◌else◌,
}
use euboulia.Runner.{OutcomeStatus}
use euboulia.Memory.{
  MemoryEntry, MemoryQuery, Row, Library, Facet, leaf, mapping, Facets, none_left, entry,
}

abbrev outcome_eq : OutcomeStatus → OutcomeStatus → Bool
outcome_eq OutcomeStatus.accepted OutcomeStatus.accepted = true
outcome_eq OutcomeStatus.rejected OutcomeStatus.rejected = true
outcome_eq OutcomeStatus.invalid OutcomeStatus.invalid = true
outcome_eq OutcomeStatus.failed OutcomeStatus.failed = true
outcome_eq _ _ = false

abbrev any_outcome : OutcomeStatus → List OutcomeStatus → Bool
any_outcome outcome [] = false
any_outcome outcome (o ∷ os) = outcome_eq o outcome || any_outcome outcome os

-- outcome IN (...), if the query has outcomes
abbrev in_outcomes : OutcomeStatus → List OutcomeStatus → Bool
in_outcomes outcome [] = true
in_outcomes outcome (o ∷ os) = any_outcome outcome (o ∷ os)

-- column = ?, if the query has a value for it
abbrev is_asked : Option String → String → Bool
is_asked none column = true
is_asked (some value) column = str_eq column value

module _ {Leaf Float : Type 0} (L : Library Leaf Float) where
  -- The WHERE of the statement.
  unfoldable pub matches : MemoryQuery Leaf → MemoryEntry Leaf Float → Bool
  matches query columns =
      is_asked query.framework columns.framework
      && is_asked query.framework_revision columns.framework_revision
      && is_asked query.hardware_fingerprint columns.hardware_fingerprint
      && is_asked query.model_revision columns.model_revision
      && is_asked query.workload_digest columns.workload_digest
      && is_asked query.benchmark_policy_digest columns.benchmark_policy_digest
      && is_asked query.spec_digest columns.spec_digest
      && is_asked query.run_uid columns.run_uid
      && is_asked query.compatibility_digest columns.compatibility_digest
      && in_outcomes columns.outcome query.outcomes

  -- ORDER BY created_at DESC, memory_id DESC
  abbrev pub is_later : MemoryEntry Leaf Float → MemoryEntry Leaf Float → Bool
  is_later a b =
      L.before b.created_at a.created_at
      || (str_eq b.created_at a.created_at && L.before b.memory_id a.memory_id)

  unfoldable pub insert_row : Row Leaf Float → List (Row Leaf Float) → List (Row Leaf Float)
  insert_row row [] = row ∷ []
  insert_row row (other ∷ rows) =
      let rest = insert_row row rows in
      if is_later row.columns other.columns then row ∷ other ∷ rows else other ∷ rest

  unfoldable pub selected : MemoryQuery Leaf → List (Row Leaf Float) → List (Row Leaf Float)
  unfolding matches insert_row
  selected query [] = []
  selected query (row ∷ rows) =
      let rest = selected query rows in
      if matches query row.columns then insert_row row rest else rest

  abbrev facet_of : String → Facets Leaf → Option (Facet Leaf)
  facet_of key none_left = none
  facet_of key (entry own facet rest) = if str_eq own key then some facet else facet_of key rest

  abbrev same_as : Leaf → Option (Facet Leaf) → Bool
  same_as value none = false
  same_as value (some (leaf actual)) = L.same_leaf actual value
  same_as value (some (mapping actual)) = false

  abbrev mapping_of : Option (Facet Leaf) → Option (Facets Leaf)
  mapping_of none = none
  mapping_of (some (leaf actual)) = none
  mapping_of (some (mapping actual)) = some actual

  -- `_facets_contain`
  unfoldable pub facets_contain : Facets Leaf → Facets Leaf → Bool
  facets_contain actual none_left = true
  facets_contain actual (entry key (leaf value) rest) =
      same_as value (facet_of key actual) && facets_contain actual rest
  facets_contain actual (entry key (mapping expected) rest) =
      elim (mapping_of (facet_of key actual)) [
        | none ↦ false
        | some inner ↦ facets_contain inner expected && facets_contain actual rest
      ]

  -- The rows are read up to the limit and no further; `none` where from_json raises. Without facets
  -- every row passes, so that the LIMIT of the statement reads the same rows.
  unfoldable pub read_rows :
      ℕ → Facets Leaf → List (Row Leaf Float) → Option (List (MemoryEntry Leaf Float))
  unfolding facets_contain
  read_rows zero facets rows = some []
  read_rows (suc n) facets [] = some []
  read_rows (suc n) facets (row ∷ rows) = elim (L.from_json row.entry_json) [
    | none ↦ none
    | some e ↦ elim (facets_contain e.compatibility_facets facets) [
      | true ↦ elim (read_rows n facets rows) [ none ↦ none | some es ↦ some (e ∷ es) ]
      | false ↦ read_rows (suc n) facets rows
    ]
  ]

  unfoldable pub recall :
      MemoryQuery Leaf → List (Row Leaf Float) → Option (List (MemoryEntry Leaf Float))
  unfolding selected read_rows
  recall query rows = read_rows query.limit query.compatibility_facets (selected query rows)
