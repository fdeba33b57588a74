-- ===== src/Workspace/Trees.antt =====
-- What preparing and applying a patch do to the worktree.
use euboulia.Prelude.{
  length, if◌then◌else◌, ltb, if-elim, ap, ◌≡◌, ◌∙◌, refl, sym, Bool, true, false, List, ℕ, ◌⊎◌,
  inl, inr,
}
use euboulia.Workspace.{
  over_byte_budget, check_failed, Result, ok, err, Rejection, PatchLimits, PatchInspection,
}
use euboulia.Workspace.Actions.{
  >>-Keeps, ◌>>=◌, ◌>>◌, Keeps-world, handled, tell, return-Keeps, >>=-Keeps, return, after, Keeps,
}
use euboulia.Workspace.Inspect.{Codec}
use euboulia.Workspace.Apply.{
  captured, rejected, prepared_patch, CommandEvidence, audited, checked_patch, tried, kept_patch,
  prepare_patch, Command, status, check, apply, diff, Host, succeeded, Prepared,
  reject_symlink_targets, require_clean_worktree, permitted, applied_patch, apply_patch,
  read_artifact, run, Application,
}
use euboulia.Workspace.Sound.{Sound, inspect_patch-Sound}
use euboulia.Workspace.Applied.{Permitted, permitted-Permitted, prepare_patch-inspected}

abbrev pub is_apply : {Location : Type 0} → Command Location → Bool
is_apply (apply path) = true
is_apply status = false
is_apply (check path) = false
is_apply diff = false

module _ {Tree : Type 0} (codec : Codec) (host : Host codec.Digest) (tree : host.World → Tree) where
  -- What leaves the tree as it was: every write of evidence, which goes to a directory outside the
  -- worktree, and every command but git apply.
  pub record Quiet : Type 0 where
    pub new_id : (d : codec.Digest) (w : host.World) → tree (host.new_id d w).1 ≡ tree w
    pub write_bytes :
        (i : host.PatchId) (bytes : List ℕ) (w : host.World)
        → tree (host.write_bytes (host.patch_file i) bytes w) ≡ tree w
    pub write_patch_rejection :
        (i : host.PatchId) (e : Rejection) (w : host.World)
        → tree (host.write_patch_rejection i (host.patch_file i) e w) ≡ tree w
    pub write_inspection :
        (i : host.PatchId) (insp : PatchInspection codec.Digest) (w : host.World)
        → tree (host.write_inspection i insp w) ≡ tree w
    pub execute :
        (command : Command host.Location) (w : host.World)
        → is_apply command ≡ false
        → tree (host.execute command w).1 ≡ tree w

  module _ (quiet : Quiet) where
    run-Keeps :
        (command : Command host.Location)
        → is_apply command ≡ false
        → Keeps tree (run codec host command)
    unfolding Keeps
    run-Keeps command h w = quiet.execute command w h

    require_clean_worktree-Keeps : Keeps tree (require_clean_worktree codec host)
    unfolding require_clean_worktree
    require_clean_worktree-Keeps =
        >>=-Keeps tree _ _ (run-Keeps status refl)
          (λ s. >>-Keeps tree _ _ (return-Keeps tree _) (return-Keeps tree _))

    reject_symlink_targets-Keeps :
        (files : List (List ℕ)) → Keeps tree (reject_symlink_targets codec host files)
    unfolding reject_symlink_targets Keeps
    reject_symlink_targets-Keeps files w = refl

    read_artifact-Keeps :
        (location : host.Location) → Keeps tree (read_artifact codec host location)
    unfolding Keeps
    read_artifact-Keeps location w = refl

    permitted-Keeps :
        (prepared : Prepared codec host) (authorize : Bool)
        → Keeps tree (permitted codec host prepared authorize)
    unfolding permitted
    permitted-Keeps prepared authorize = >>-Keeps tree _ _ (return-Keeps tree _) (
        >>-Keeps tree _ _ (return-Keeps tree _) (
          >>=-Keeps tree _ _ (read_artifact-Keeps prepared.patch_path) (λ bytes.
            >>-Keeps tree _ _ (return-Keeps tree _) (
              >>-Keeps tree _ _ (reject_symlink_targets-Keeps prepared.inspection.files) (
                >>-Keeps tree _ _ require_clean_worktree-Keeps (
                  >>=-Keeps tree _ _ (run-Keeps (check prepared.patch_path) refl)
                    (λ e. return-Keeps tree _)))))))

    handled-Keeps :
        (i : host.PatchId) {A : Type 0} (result : Result A × host.World)
        → tree (handled result (host.write_patch_rejection i (host.patch_file i))).1 ≡ tree result.1
    unfolding handled
    handled-Keeps i (ok a, w) = refl
    handled-Keeps i (err e, w) = quiet.write_patch_rejection i e w

    audited-Keeps :
        (patch_bytes : List ℕ) (limits : PatchLimits)
        → Keeps tree (audited codec host patch_bytes limits)
    unfolding audited
    audited-Keeps patch_bytes limits = >>=-Keeps tree _ _ (return-Keeps tree _) (λ inspection.
        >>-Keeps tree _ _ (reject_symlink_targets-Keeps inspection.files)
          (>>-Keeps tree _ _ require_clean_worktree-Keeps (return-Keeps tree _)))

    tried-Keeps :
        (i : host.PatchId) (patch_bytes : List ℕ) (limits : PatchLimits)
        → Keeps tree (tried codec host i patch_bytes limits)
    unfolding tried Keeps
    tried-Keeps i patch_bytes limits w =
        let written = host.write_bytes (host.patch_file i) patch_bytes w in
        handled-Keeps i (audited codec host patch_bytes limits written)
        ∙ Keeps-world tree (audited codec host patch_bytes limits)
            (audited-Keeps patch_bytes limits) written
        ∙ quiet.write_bytes i patch_bytes w

    tell_inspection-Keeps :
        (i : host.PatchId) (inspection : PatchInspection codec.Digest)
        → Keeps tree (tell (host.write_inspection i inspection))
    unfolding Keeps
    tell_inspection-Keeps i inspection w = quiet.write_inspection i inspection w

    verdict-Keeps :
        (i : host.PatchId) (inspection : PatchInspection codec.Digest) (checked : CommandEvidence)
        (b : Bool)
        → Keeps tree (
            if b
            then return (ok (prepared_patch codec host i inspection checked))
            else rejected codec host i check_failed)
    unfolding Keeps
    verdict-Keeps i inspection checked true w = refl
    verdict-Keeps i inspection checked false w = quiet.write_patch_rejection i check_failed w

    checked_patch-Keeps :
        (i : host.PatchId) (inspection : PatchInspection codec.Digest)
        → Keeps tree (checked_patch codec host i inspection)
    unfolding checked_patch
    checked_patch-Keeps i inspection = >>-Keeps tree _ _ (tell_inspection-Keeps i inspection) (
        >>=-Keeps tree _ _ (run-Keeps (check (host.patch_file i)) refl)
          (λ checked. verdict-Keeps i inspection checked (succeeded checked)))

    kept_patch-tree :
        (i : host.PatchId) (patch_bytes : List ℕ) (limits : PatchLimits) (w : host.World)
        → tree (kept_patch codec host i patch_bytes limits w).1 ≡ tree w
    unfolding kept_patch
    kept_patch-tree i patch_bytes limits w =
        if-elim (λ (r : Result (Prepared codec host) × host.World). tree r.1 ≡ tree w)
          (ltb limits.max_bytes (length patch_bytes)) _ _
          (λ over. quiet.write_patch_rejection i over_byte_budget w)
          (λ within.
            Keeps-world tree _
              (>>=-Keeps tree _ _ (tried-Keeps i patch_bytes limits) (checked_patch-Keeps i)) w)

    -- Preparing a patch leaves the worktree as it was, whether it is rejected or not.
    pub prepare_patch-tree :
        (patch_bytes : List ℕ) (limits : PatchLimits) (w : host.World)
        → tree (prepare_patch codec host patch_bytes limits w).1 ≡ tree w
    unfolding prepare_patch
    prepare_patch-tree patch_bytes limits w =
        let chosen = host.new_id (codec.sha256 patch_bytes) w in
        kept_patch-tree chosen.0 patch_bytes limits chosen.1
        ∙ quiet.new_id (codec.sha256 patch_bytes) w

    captured-Keeps :
        (prepared : Prepared codec host) (applied : CommandEvidence)
        → Keeps tree (captured codec host prepared applied)
    unfolding captured
    captured-Keeps prepared applied = >>-Keeps tree _ _ (return-Keeps tree _) (
        >>=-Keeps tree _ _ (run-Keeps diff refl)
          (λ d. >>-Keeps tree _ _ (return-Keeps tree _) (return-Keeps tree _)))

    applied_patch-tree :
        (prepared : Prepared codec host) (w : host.World)
        → tree (applied_patch codec host prepared w).1
          ≡ tree (host.execute (apply prepared.patch_path) w).1
    unfolding applied_patch after ◌>>=◌ ◌>>◌
    applied_patch-tree prepared w =
        let applied = host.execute (apply prepared.patch_path) w in
        Keeps-world tree (captured codec host prepared applied.0)
          (captured-Keeps prepared applied.0) applied.1

    -- Where git apply alone changes the worktree, either apply_patch raises and leaves the worktree as
    -- it was, or git apply has run in a world that every check has permitted, whose worktree was still
    -- as before, and the worktree is as git apply left it.
    pub apply_patch-tree :
        (prepared : Prepared codec host) (authorize : Bool) (w : host.World)
        → ((e : Rejection) × ((apply_patch codec host prepared authorize w).0 ≡ err e)
            × (tree (apply_patch codec host prepared authorize w).1 ≡ tree w))
          ⊎ ((w' : host.World) × Permitted codec host prepared authorize w w'
              × (tree w' ≡ tree w)
              × (tree (apply_patch codec host prepared authorize w).1
                  ≡ tree (host.execute (apply prepared.patch_path) w').1))
    unfolding apply_patch after ◌>>=◌ ◌>>◌
    apply_patch-tree prepared authorize w =
        by_permit (permitted codec host prepared authorize w) refl
      where
        by_permit :
            (r : Result (Unit {0}) × host.World)
            → permitted codec host prepared authorize w ≡ r
            → ((e : Rejection) × ((after r (λ done. applied_patch codec host prepared)).0 ≡ err e)
                × (tree (after r (λ done. applied_patch codec host prepared)).1 ≡ tree w))
              ⊎ ((w' : host.World) × Permitted codec host prepared authorize w w'
                  × (tree w' ≡ tree w)
                  × (tree (after r (λ done. applied_patch codec host prepared)).1
                      ≡ tree (host.execute (apply prepared.patch_path) w').1))
        by_permit (err e, w') h = inl (
          e,
          refl,
          ap (λ r. tree r.1) (sym h) ∙ Keeps-world tree _ (permitted-Keeps prepared authorize) w,
        )
        by_permit (ok tt, w') h = inr (
          w',
          permitted-Permitted codec host prepared authorize w h,
          ap (λ r. tree r.1) (sym h) ∙ Keeps-world tree _ (permitted-Keeps prepared authorize) w,
          applied_patch-tree prepared w',
        )

    -- Where git apply alone changes the worktree: if a patch was prepared, and apply_patch of what was
    -- prepared, in whatever world, returns a result or leaves another worktree than it found, even if
    -- it raises, then the inspection of the bytes that were given was sound and apply_patch was
    -- permitted: it was authorized, by the workspace that prepared the patch; the file of the patch held
    -- bytes of the digest of those that were given; no inspected file was reached through a symlink; git
    -- status had succeeded and printed nothing; and git apply --check had succeeded again.
    pub apply_patch-Sound :
        (patch_bytes : List ℕ) (limits : PatchLimits) (w1 w2 : host.World) (authorize : Bool)
        {prepared : Prepared codec host} {w1' : host.World}
        → prepare_patch codec host patch_bytes limits w1 ≡ (ok prepared, w1')
        → ((application : Application codec host) × ((apply_patch codec host prepared authorize
                w2).0
              ≡ ok application))
          ⊎ ¬ (tree (apply_patch codec host prepared authorize w2).1 ≡ tree w2)
        → Sound codec patch_bytes limits prepared.inspection
          × (w : host.World) × (p : Permitted codec host prepared authorize w2 w) × (codec.sha256
                p.patch_bytes
              ≡ codec.sha256 patch_bytes)
    apply_patch-Sound patch_bytes limits w1 w2 authorize {prepared} h applied =
        (sound, reached.0, reached.1, reached.2)
      where
        sound : Sound codec patch_bytes limits prepared.inspection
        sound =
            inspect_patch-Sound codec patch_bytes limits
              (prepare_patch-inspected codec host patch_bytes limits w1 h)

        reached :
            (w : host.World) × (p : Permitted codec host prepared authorize w2 w) × (codec.sha256
                p.patch_bytes
              ≡ codec.sha256 patch_bytes)
        reached = elim (apply_patch-tree prepared authorize w2) [
          | inl (e, refused, same) ↦ elim applied [
            | inl (application, k) ↦ cc
            | inr changed ↦ absurd (changed same)
          ]
          | inr (w, p, before, made) ↦ (w, p, p.unchanged ∙ sound.same_digest)
        ]
