-- ===== src/Planner.antt =====
-- planner.py of the optimization package, with the records of contracts.py that it reads and builds.
pub mod Catalog
pub mod Propose
pub mod Proposals
pub mod Options
pub mod Disjoint
mod Examples
use euboulia.Prelude.{
  [], ◌∷◌, true, false, str_eq, if◌then◌else◌, true, str_eq, if◌then◌else◌, ◌∷◌, false, String,
  Bool, Option, List, ℕ,
}
use euboulia.Prelude.Dict.{Dict}

pub data ChangeKind : Type 0 where
  patch_catalog server_parameter composite python triton cuda : ChangeKind

-- A value of a YAML document. Its integers are numbers too.
mutual
  pub data Yaml (Float : Type 0) : Type 0 where
    null : Yaml Float
    boolean : Bool → Yaml Float
    text : String → Yaml Float
    number : Float → Yaml Float
    sequence : Items Float → Yaml Float
    mapping : Entries Float → Yaml Float

  pub data Items (Float : Type 0) : Type 0 where
    none_left : Items Float
    item : Yaml Float → Items Float → Items Float

  -- `other_key` has a key that is not a string.
  pub data Entries (Float : Type 0) : Type 0 where
    end : Entries Float
    entry : String → Yaml Float → Entries Float → Entries Float
    other_key : Yaml Float → Entries Float → Entries Float

-- What a server option may be set to.
pub data ArgumentValue (Float : Type 0) : Type 0 where
  switch : ArgumentValue Float
  word : String → ArgumentValue Float
  quantity : Float → ArgumentValue Float

pub data PatchCatalogError : Type 0 where
  not_text not_texts not_an_option boolean_switch not_finite nul_byte not_a_scalar :
      PatchCatalogError
  not_a_mapping unknown_field not_a_list duplicate_remove set_and_removed : PatchCatalogError
  not_a_file no_change bad_version no_entries entry_not_a_mapping : PatchCatalogError
  duplicate_id duplicate_change : PatchCatalogError

pub data Result {ℓ} (A : Type ℓ) : Type ℓ where
  ok : A → Result A
  err : PatchCatalogError → Result A

infixl 5 ◌>>=◌
abbrev pub ◌>>=◌ {ℓ κ} : {A : Type ℓ} {B : Type κ} → Result A → (A → Result B) → Result B
err raised >>= next = err raised
ok value >>= next = next value

-- What the planner calls of Python's library and of the file system.
pub record Library (Float : Type 0) : Type 0 where
  pub strip : String → String
  pub is_option : String → Bool  -- _SERVER_ARGUMENT.fullmatch
  pub has_nul : String → Bool
  pub is_finite : Float → Bool
  pub is_one : Float → Bool  -- == 1
  pub resolve : String → String  -- expanduser, then against the folder of the catalog
  pub is_file : String → Bool
  pub file_digest : String → String  -- SHA-256 of the bytes of a file
  -- SHA-256 of the canonical JSON of a change
  pub change_digest : Option String → List String → Dict (ArgumentValue Float) → String
  pub proposal_digest : String → String → String → String  -- "proposal-" and 16 digits

pub record PatchCatalogEntry (Float : Type 0) : Type 0 where
  pub entry_id : String
  pub title : String
  pub rationale : String
  pub triggers : List String
  pub patch_path : Option String
  pub patch_sha256 : Option String
  pub server_args_set : Dict (ArgumentValue Float)
  pub server_args_remove : List String
  pub change_sha256 : String
  pub predicted_metric : Option String
  pub risk : String

pub record Finding (Float : Type 0) : Type 0 where
  pub finding_id : String
  pub category : String
  pub confidence : Float

pub record AnalysisReport (Float : Type 0) : Type 0 where
  pub analysis_id : String
  pub findings : List (Finding Float)

-- The two fields that the planner reads of a recalled memory.
pub record MemoryEntry : Type 0 where
  pub proposal_id : String
  pub patch_digest : Option String

pub record ProposalMetadata (Float : Type 0) : Type 0 where
  pub finding_id : String
  pub finding_category : String
  pub finding_confidence : Float
  pub change_sha256 : String
  pub patch : Option (String × String)
  pub server_args : Option (Dict (ArgumentValue Float) × List String)

pub record ChangeProposal (Float : Type 0) : Type 0 where
  pub proposal_id : String
  pub analysis_id : String
  pub title : String
  pub rationale : String
  pub change_kind : ChangeKind
  pub catalog_entry_id : Option String
  pub predicted_metric : Option String
  pub risk : String
  pub metadata : ProposalMetadata Float

pub record RulePlanner (Float : Type 0) : Type 0 where
  pub catalog : List (PatchCatalogEntry Float)
  pub max_proposals : ℕ
  pub reject_duplicates : Bool

-- The local variables `proposals` and `selected_entries`, and whether the function has returned.
pub record Selection (Float : Type 0) : Type 0 where
  pub proposals : List (ChangeProposal Float)
  pub selected_entries : List String
  pub returned : Bool

-- value in values, for texts
abbrev pub among : String → List String → Bool
among x [] = false
among x (y ∷ ys) = if str_eq y x then true else among x ys
