-- ===== src/Memory.antt =====
-- optimization/memory.py: the index of outcomes, `SQLiteMemoryStore`, with MemoryEntry and MemoryQuery
-- of optimization/contracts.py. A table is a list of rows.
pub mod Store
pub mod Recall
pub mod Kept
mod Examples
use euboulia.Runner.{OutcomeStatus}
use euboulia.Prelude.{Bool, Option, List, ℕ, String}

-- A value of a JSON mapping: what is no mapping is a leaf.
mutual
  pub data Facet (Leaf : Type 0) : Type 0 where
    leaf : Leaf → Facet Leaf
    mapping : Facets Leaf → Facet Leaf

  pub data Facets (Leaf : Type 0) : Type 0 where
    none_left : Facets Leaf
    entry : String → Facet Leaf → Facets Leaf → Facets Leaf

pub record MemoryEntry (Leaf Float : Type 0) : Type 0 where
  pub memory_id : String
  pub outcome_id : String
  pub run_uid : String
  pub iteration_id : String
  pub framework : String
  pub framework_revision : String
  pub hardware_fingerprint : String
  pub model_revision : String
  pub workload_digest : String
  pub benchmark_policy_digest : String
  pub spec_digest : String
  pub compatibility_digest : String
  pub proposal_id : String
  pub outcome : OutcomeStatus
  pub summary : String
  pub compatibility_facets : Facets Leaf
  pub patch_digest : Option String
  pub relative_improvement : Option Float
  pub created_at : String
  pub details : Facets Leaf

pub record MemoryQuery (Leaf : Type 0) : Type 0 where
  pub framework : Option String
  pub framework_revision : Option String
  pub hardware_fingerprint : Option String
  pub model_revision : Option String
  pub workload_digest : Option String
  pub benchmark_policy_digest : Option String
  pub spec_digest : Option String
  pub run_uid : Option String
  pub compatibility_digest : Option String
  pub compatibility_facets : Facets Leaf
  pub outcomes : List OutcomeStatus
  pub limit : ℕ

-- A row: the columns, which the entry has as its fields, and `entry_json`.
pub record Row (Leaf Float : Type 0) : Type 0 where
  pub columns : MemoryEntry Leaf Float
  pub entry_json : String

-- Python's json for an entry, the row that SQLite gives first of those that a SELECT without an
-- order finds, its order of texts, and Python's equality of what is no mapping.
pub record Library (Leaf Float : Type 0) : Type 0 where
  pub to_json : MemoryEntry Leaf Float → String
  pub from_json : String → Option (MemoryEntry Leaf Float)
  pub fetchone : List (Row Leaf Float) → Option (Row Leaf Float)
  pub before : String → String → Bool
  pub same_leaf : Leaf → Leaf → Bool
