-- ===== src/Workspace.antt =====
-- optimization/workspace.py: the inspection of a patch, and how a patch is prepared and applied. Texts
-- are lists of code points, patches are lists of bytes.
pub mod Paths
pub mod Inspect
pub mod Actions
pub mod Apply
pub mod Safe
pub mod Grows
pub mod Counted
pub mod Sound
pub mod Names
pub mod Applied
pub mod Trees
mod Examples
use euboulia.Prelude.{refl, ◌≡◌, Bool, true, false, List, ℕ}

-- The texts of PatchRejected, and of WorkspaceError and WorkspaceAuthorizationError, by what they
-- report.
pub data Rejection : Type 0 where
  over_byte_budget not_utf8 nul_byte binary_patch : Rejection
  absolute_or_empty quoted_path no_prefix invalid_path not_normal git_path drive_path : Rejection
  quoted_header symbolic_link irregular_mode not_a_diff over_file_budget over_line_budget :
      Rejection
  symlink_target dirty_worktree status_failed check_failed : Rejection
  not_authorized other_workspace unreadable_artifact changed_artifact : Rejection
  recheck_failed apply_failed diff_failed : Rejection

pub data Result {ℓ} (A : Type ℓ) : Type ℓ where
  ok : A → Result A
  err : Rejection → Result A

infixl 5 ◌>>=◌ ◌>>◌
abbrev pub ◌>>=◌ {ℓ κ} : {A : Type ℓ} {B : Type κ} → Result A → (A → Result B) → Result B
err raised >>= next = err raised
ok value >>= next = next value

abbrev pub ◌>>◌ {ℓ} : {B : Type ℓ} → Result (Unit {0}) → Result B → Result B
first >> rest = first >>= λ done. rest

abbrev pub reject_if : Bool → Rejection → Result (Unit {0})
reject_if true e = err e
reject_if false e = ok tt

pub ok_inj {ℓ} : {A : Type ℓ} {x y : A} → ok x ≡ ok y → x ≡ y
ok_inj h = cc

-- What a chain that succeeded has passed on.
pub >>=-ok {ℓ κ} :
    {A : Type ℓ} {B : Type κ} (first : Result A) (next : A → Result B) {out : B}
    → (first >>= next) ≡ ok out
    → (between : A) × (first ≡ ok between) × (next between ≡ ok out)
>>=-ok (err e) next whole = cc
>>=-ok (ok between) next whole = (between, refl, whole)

-- A test that let the code go on had failed.
pub reject_if-ok {ℓ} :
    {B : Type ℓ} (b : Bool) (e : Rejection) (rest : Result B) {out : B}
    → (reject_if b e >> rest) ≡ ok out
    → (b ≡ false) × (rest ≡ ok out)
reject_if-ok true e rest whole = cc
reject_if-ok false e rest whole = (refl, whole)

pub record PatchLimits : Type 0 where
  pub max_bytes : ℕ
  pub max_files : ℕ
  pub max_changed_lines : ℕ

pub record PatchInspection (Digest : Type 0) : Type 0 where
  pub sha256 : Digest
  pub size_bytes : ℕ
  pub files : List (List ℕ)
  pub additions : ℕ
  pub deletions : ℕ
