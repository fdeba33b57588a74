-- ===== src/Workspace/Apply.antt =====
-- `prepare_patch` and `apply_patch` of optimization/workspace.py, with the checks they share.
use euboulia.Prelude.{
  ◌≡◌, Bool, true, false, not, ◌&&◌, ◌||◌, Option, none, some, List, [], ◌∷◌, ◌++◌, ℕ, zero, suc,
  ltb, length, if◌then◌else◌,
}
use euboulia.Prelude.Chars.{is_space}
use euboulia.Workspace.{
  Result, ok, err, reject_if, Rejection, PatchLimits, PatchInspection, over_byte_budget,
  symlink_target, dirty_worktree, status_failed, check_failed, not_authorized, other_workspace,
  unreadable_artifact, changed_artifact, recheck_failed, apply_failed, diff_failed,
}
use euboulia.Workspace.Actions.{Action, ◌>>=◌, ◌>>◌, return, tell, handled}
use euboulia.Workspace.Paths.{posix_parts}
use euboulia.Workspace.Inspect.{Codec, inspect_patch}

-- The git commands that run in the worktree, by what they are asked.
pub data Command (Location : Type 0) : Type 0 where
  status : Command Location
  check : Location → Command Location
  apply : Location → Command Location
  diff : Command Location

-- `returncode` is `none` if the command did not end, and a code that is not 0 is some `suc n`;
-- `stdout` is the text of the file at `stdout_path`.
pub record CommandEvidence : Type 0 where
  pub returncode : Option ℕ
  pub timed_out : Bool
  pub error : Option (List ℕ)
  pub stdout : List ℕ

abbrev is_absent : Option (List ℕ) → Bool
is_absent none = true
is_absent (some x) = false

abbrev is_success : Option ℕ → Bool
is_success (some zero) = true
is_success (some (suc n)) = false
is_success none = false

unfoldable pub succeeded : CommandEvidence → Bool
succeeded e = is_success e.returncode && not e.timed_out && is_absent e.error

-- Whether str.strip leaves nothing.
unfoldable pub is_blank : List ℕ → Bool
is_blank [] = true
is_blank (c ∷ cs) = is_space c && is_blank cs

-- The file system, git and uuid4, as the workspace at `self_path` meets them.
pub record Host (Digest : Type 0) : Type 1 where
  pub World : Type 0
  pub Location : Type 0
  pub PatchId : Type 0
  pub self_path : Location
  pub location_eq : Discrete Location
  pub digest_eq : Discrete Digest
  pub new_id : Digest → World → PatchId × World
  pub patch_file : PatchId → Location
  pub write_bytes : Location → List ℕ → World → World
  pub read_bytes : Location → World → Option (List ℕ)
  pub write_patch_rejection : PatchId → Location → Rejection → World → World
  pub write_inspection : PatchId → PatchInspection Digest → World → World
  pub is_symlink : List (List ℕ) → World → Bool
  pub execute : Command Location → World → CommandEvidence × World

pub record PreparedPatch (Digest Location PatchId : Type 0) : Type 0 where
  pub patch_id : PatchId
  pub patch_path : Location
  pub workspace_path : Location
  pub inspection : PatchInspection Digest
  pub check_evidence : CommandEvidence

pub record PatchApplication (Digest Location PatchId : Type 0) : Type 0 where
  pub prepared : PreparedPatch Digest Location PatchId
  pub apply_evidence : CommandEvidence
  pub diff_evidence : CommandEvidence

abbrev pub is_same {ℓ} : {A : Type ℓ} {x y : A} → Dec (x ≡ y) → Bool
is_same (yes e) = true
is_same (no n) = false

abbrev pub read_result : Option (List ℕ) → Result (List ℕ)
read_result none = err unreadable_artifact
read_result (some patch_bytes) = ok patch_bytes

module _ (codec : Codec) (host : Host codec.Digest) where
  abbrev pub Prepared : Type 0
  Prepared = PreparedPatch codec.Digest host.Location host.PatchId

  abbrev pub Application : Type 0
  Application = PatchApplication codec.Digest host.Location host.PatchId

  abbrev pub evidence_of : CommandEvidence × host.World → Result CommandEvidence × host.World
  evidence_of (e, w) = (ok e, w)

  abbrev pub run : Command host.Location → Action host.World CommandEvidence
  run command w = evidence_of (host.execute command w)

  -- Whether a directory on the way from `cursor` is a symlink, or the last part is.
  unfoldable pub traverses_symlink : List (List ℕ) → List (List ℕ) → host.World → Bool
  traverses_symlink cursor [] w = false
  traverses_symlink cursor (component ∷ rest) w =
      host.is_symlink (cursor ++ (component ∷ [])) w
      || traverses_symlink (cursor ++ (component ∷ [])) rest w

  unfoldable pub any_symlink : List (List ℕ) → host.World → Bool
  unfolding traverses_symlink posix_parts
  any_symlink [] w = false
  any_symlink (relative ∷ files) w =
      traverses_symlink [] (posix_parts relative) w || any_symlink files w

  unfoldable pub reject_symlink_targets : List (List ℕ) → Action host.World (Unit {0})
  unfolding any_symlink
  reject_symlink_targets files w = (reject_if (any_symlink files w) symlink_target, w)

  unfoldable pub require_clean_worktree : Action host.World (Unit {0})
  unfolding succeeded is_blank
  require_clean_worktree = do
    status' ← run status
    return (reject_if (not (succeeded status')) status_failed)
    return (reject_if (not (is_blank status'.stdout)) dirty_worktree)

  -- What prepare_patch tries once the patch is written.
  unfoldable pub audited : List ℕ → PatchLimits → Action host.World (PatchInspection codec.Digest)
  unfolding reject_symlink_targets require_clean_worktree
  audited patch_bytes limits = do
    inspection ← return (inspect_patch codec patch_bytes limits)
    reject_symlink_targets inspection.files
    require_clean_worktree
    return (ok inspection)

  -- _write_patch_rejection, and the rejection raised.
  abbrev pub rejected {ℓ} : {A : Type ℓ} → host.PatchId → Rejection → Action host.World A
  rejected patch_id e w =
      (err e, host.write_patch_rejection patch_id (host.patch_file patch_id) e w)

  abbrev pub prepared_patch :
      host.PatchId → PatchInspection codec.Digest → CommandEvidence → Prepared
  prepared_patch patch_id inspection checked = record {
    patch_id = patch_id;
    patch_path = host.patch_file patch_id;
    workspace_path = host.self_path;
    inspection = inspection;
    check_evidence = checked;
  }

  -- The patch written, and its audit with the handler of its exceptions.
  unfoldable pub tried :
      host.PatchId → List ℕ → PatchLimits → Action host.World (PatchInspection codec.Digest)
  unfolding audited handled
  tried patch_id patch_bytes limits w =
      handled
        (audited patch_bytes limits (host.write_bytes (host.patch_file patch_id) patch_bytes w))
        (host.write_patch_rejection patch_id (host.patch_file patch_id))

  -- From the inspection's end on.
  unfoldable pub checked_patch :
      host.PatchId → PatchInspection codec.Digest → Action host.World Prepared
  unfolding succeeded
  checked_patch patch_id inspection = do
    tell (host.write_inspection patch_id inspection)
    checked ← run (check (host.patch_file patch_id))
    if succeeded checked
        then return (ok (prepared_patch patch_id inspection checked))
        else rejected patch_id check_failed

  -- From the choice of the id on.
  unfoldable pub kept_patch : host.PatchId → List ℕ → PatchLimits → Action host.World Prepared
  unfolding tried checked_patch
  kept_patch patch_id patch_bytes limits w =
      if ltb limits.max_bytes (length patch_bytes)
      then rejected patch_id over_byte_budget w
      else (tried patch_id patch_bytes limits >>= checked_patch patch_id) w

  unfoldable pub prepare_patch : List ℕ → PatchLimits → Action host.World Prepared
  unfolding kept_patch
  prepare_patch patch_bytes limits w =
      let (patch_id, w') = host.new_id (codec.sha256 patch_bytes) w in
      kept_patch patch_id patch_bytes limits w'

  abbrev pub read_artifact : host.Location → Action host.World (List ℕ)
  read_artifact path w = (read_result (host.read_bytes path w), w)

  -- What apply_patch asks before it runs git apply.
  unfoldable pub permitted : Prepared → Bool → Action host.World (Unit {0})
  unfolding reject_symlink_targets require_clean_worktree succeeded
  permitted prepared authorize = do
    return (reject_if (not authorize) not_authorized)
    return (
        reject_if (not (is_same (host.location_eq prepared.workspace_path host.self_path)))
          other_workspace)
    patch_bytes ← read_artifact prepared.patch_path
    return (
        reject_if
          (not (is_same (host.digest_eq (codec.sha256 patch_bytes) prepared.inspection.sha256)))
          changed_artifact)
    reject_symlink_targets prepared.inspection.files
    require_clean_worktree
    recheck ← run (check prepared.patch_path)
    return (reject_if (not (succeeded recheck)) recheck_failed)

  -- After the command git apply.
  unfoldable pub captured : Prepared → CommandEvidence → Action host.World Application
  unfolding succeeded
  captured prepared applied = do
    return (reject_if (not (succeeded applied)) apply_failed)
    diff' ← run diff
    return (reject_if (not (succeeded diff')) diff_failed)
    return (ok (record { prepared = prepared; apply_evidence = applied; diff_evidence = diff' }))

  unfoldable pub applied_patch : Prepared → Action host.World Application
  unfolding captured
  applied_patch prepared = run (apply prepared.patch_path) >>= captured prepared

  unfoldable pub apply_patch : Prepared → Bool → Action host.World Application
  unfolding permitted applied_patch
  apply_patch prepared authorize = permitted prepared authorize >> applied_patch prepared
