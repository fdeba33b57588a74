-- ===== src/Workspace/Applied.antt =====
-- When a patch reaches the worktree, and what is known of it then.
use euboulia.Prelude.{
  length, if◌then◌else◌, ltb, if-elim, ap, subst, ◌≡◌, ◌∙◌, refl, sym, Bool, true, false, not, List,
  ℕ, some, none, Option,
}
use euboulia.Workspace.{
  check_failed, recheck_failed, symlink_target, changed_artifact, dirty_worktree, status_failed,
  other_workspace, not_authorized, ok, reject_if, Rejection, PatchLimits, PatchInspection,
}
use euboulia.Workspace.Actions.{◌>>=◌, ◌>>◌, handled-ok, given-ok, return, after, after-ok, test-ok}
use euboulia.Workspace.Inspect.{Codec, inspect_patch}
use euboulia.Workspace.Apply.{
  rejected, prepared_patch, CommandEvidence, audited, checked_patch, tried, kept_patch,
  prepare_patch, read_result, status, check, Host, succeeded, is_blank, Prepared, any_symlink,
  reject_symlink_targets, require_clean_worktree, permitted, is_same,
}

module _ (codec : Codec) (host : Host codec.Digest) where
  -- What holds when apply_patch goes on to git apply: from the world w to the world w'.
  pub record Permitted (prepared : Prepared codec host) (authorize : Bool) (w w' : host.World)
      : Type 0 where
    pub authorized : authorize ≡ true
    pub own_workspace : prepared.workspace_path ≡ host.self_path
    pub patch_bytes : List ℕ
    pub readable : host.read_bytes prepared.patch_path w ≡ some patch_bytes
    pub unchanged : codec.sha256 patch_bytes ≡ prepared.inspection.sha256
    pub no_symlinks : any_symlink codec host prepared.inspection.files w ≡ false
    pub status_succeeded : succeeded (host.execute status w).0 ≡ true
    pub clean : is_blank (host.execute status w).0.stdout ≡ true
    pub rechecked :
        succeeded (host.execute (check prepared.patch_path) (host.execute status w).1).0 ≡ true
    pub then_applied : w' ≡ (host.execute (check prepared.patch_path) (host.execute status w).1).1

  same-yes : {A : Type 0} {x y : A} (d : Dec (x ≡ y)) → not (is_same d) ≡ false → x ≡ y
  same-yes (yes e) h = e
  same-yes (no n) h = cc

  not-false : (b : Bool) → not b ≡ false → b ≡ true
  not-false true h = refl
  not-false false h = cc

  read_result-ok :
      (o : Option (List ℕ)) {bytes : List ℕ} → read_result o ≡ ok bytes → o ≡ some bytes
  read_result-ok none h = cc
  read_result-ok (some bytes') h = cc

  -- A test at the end of a chain.
  ended :
      (b : Bool) (e : Rejection) (w : host.World) {out : Unit {0}} {w' : host.World}
      → return (reject_if (not b) e) w ≡ (ok out, w')
      → (b ≡ true) × (w ≡ w')
  ended true e w h = (refl, cc)
  ended false e w h = cc

  require_clean_worktree-ok :
      (w : host.World) {done : Unit {0}} {w' : host.World}
      → require_clean_worktree codec host w ≡ (ok done, w')
      → (succeeded (host.execute status w).0 ≡ true)
        × (is_blank (host.execute status w).0.stdout ≡ true)
        × (w' ≡ (host.execute status w).1)
  unfolding require_clean_worktree after ◌>>=◌ ◌>>◌
  require_clean_worktree-ok w h =
      let (good, h1) =
        test-ok (not (succeeded (host.execute status w).0)) status_failed (host.execute status w).1
          _ h in
      let (blank, same) =
        ended (is_blank (host.execute status w).0.stdout) dirty_worktree (host.execute status w).1
          h1 in
      (not-false (succeeded (host.execute status w).0) good, blank, sym same)

  pub permitted-Permitted :
      (prepared : Prepared codec host) (authorize : Bool) (w : host.World) {w' : host.World}
      → permitted codec host prepared authorize w ≡ (ok tt, w')
      → Permitted prepared authorize w w'
  unfolding permitted reject_symlink_targets after ◌>>=◌ ◌>>◌
  permitted-Permitted prepared authorize w h =
      let (authorized', h1) = test-ok (not authorize) not_authorized w _ h in
      let (own, h2) =
        test-ok (not (is_same (host.location_eq prepared.workspace_path host.self_path)))
          other_workspace w _ h1 in
      let (bytes, read, h3) =
        given-ok (read_result (host.read_bytes prepared.patch_path w)) w _ h2 in
      let (same_bytes, h4) =
        test-ok (not (is_same (host.digest_eq (codec.sha256 bytes) prepared.inspection.sha256)))
          changed_artifact w _ h3 in
      let (links, h5) =
        test-ok (any_symlink codec host prepared.inspection.files w) symlink_target w _ h4 in
      let (done, w1, required, h6) = after-ok (require_clean_worktree codec host w) _ h5 in
      let (status', blank, after_status) = require_clean_worktree-ok w required in
      let (recheck, h7) =
        ended (succeeded (host.execute (check prepared.patch_path) w1).0) recheck_failed
          (host.execute (check prepared.patch_path) w1).1 h6 in
      record {
        authorized = not-false authorize authorized';
        own_workspace = same-yes (host.location_eq prepared.workspace_path host.self_path) own;
        patch_bytes = bytes;
        readable = read_result-ok (host.read_bytes prepared.patch_path w) read;
        unchanged =
            same-yes (host.digest_eq (codec.sha256 bytes) prepared.inspection.sha256) same_bytes;
        no_symlinks = links;
        status_succeeded = status';
        clean = blank;
        rechecked =
            subst (λ v. succeeded (host.execute (check prepared.patch_path) v).0 ≡ true)
              after_status recheck;
        then_applied =
            sym h7 ∙ ap (λ v. (host.execute (check prepared.patch_path) v).1) after_status;
      }

  audited-inspected :
      (patch_bytes : List ℕ) (limits : PatchLimits) (w : host.World)
      {inspection : PatchInspection codec.Digest} {w' : host.World}
      → audited codec host patch_bytes limits w ≡ (ok inspection, w')
      → inspect_patch codec patch_bytes limits ≡ ok inspection
  unfolding audited after ◌>>=◌ ◌>>◌
  audited-inspected patch_bytes limits w h =
      let (inspection', inspected, h1) = given-ok (inspect_patch codec patch_bytes limits) w _ h in
      let (done, w1, targets, h2) =
        after-ok (reject_symlink_targets codec host inspection'.files w) _ h1 in
      let (done', w2, required, h3) = after-ok (require_clean_worktree codec host w1) _ h2 in
      inspected ∙ cc h3

  checked_patch-inspection :
      (i : host.PatchId) (inspection : PatchInspection codec.Digest) (w : host.World)
      {prepared : Prepared codec host} {w' : host.World}
      → checked_patch codec host i inspection w ≡ (ok prepared, w')
      → inspection ≡ prepared.inspection
  unfolding checked_patch after ◌>>=◌ ◌>>◌
  checked_patch-inspection i inspection w {prepared} {w'} h = by_check (succeeded checked.0) h
    where
      checked : CommandEvidence × host.World
      checked = host.execute (check (host.patch_file i)) (host.write_inspection i inspection w)

      by_check :
          (b : Bool)
          → (if b
                then return (ok (prepared_patch codec host i inspection checked.0))
                else rejected codec host i check_failed)
              checked.1
            ≡ (ok prepared, w')
          → inspection ≡ prepared.inspection
      by_check true h' = cc h'
      by_check false h' = cc

  kept_patch-inspected :
      (i : host.PatchId) (patch_bytes : List ℕ) (limits : PatchLimits) (w : host.World)
      {prepared : Prepared codec host} {w' : host.World}
      → kept_patch codec host i patch_bytes limits w ≡ (ok prepared, w')
      → inspect_patch codec patch_bytes limits ≡ ok prepared.inspection
  unfolding kept_patch tried after ◌>>=◌ ◌>>◌
  kept_patch-inspected i patch_bytes limits w {prepared} {w'} =
      if-elim
        (λ r.
          r ≡ (ok prepared, w') → inspect_patch codec patch_bytes limits ≡ ok prepared.inspection)
        (ltb limits.max_bytes (length patch_bytes)) _ _ (λ over h. cc)
        (λ within h.
          let (inspection, w1, audit, h1) =
            after-ok (tried codec host i patch_bytes limits w) _ h in
          let written = host.write_bytes (host.patch_file i) patch_bytes w in
          audited-inspected patch_bytes limits written
            (handled-ok (audited codec host patch_bytes limits written) _ audit)
          ∙ ap ok (checked_patch-inspection i inspection w1 h1))

  -- The inspection that a patch which is prepared has passed.
  pub prepare_patch-inspected :
      (patch_bytes : List ℕ) (limits : PatchLimits) (w : host.World)
      {prepared : Prepared codec host} {w' : host.World}
      → prepare_patch codec host patch_bytes limits w ≡ (ok prepared, w')
      → inspect_patch codec patch_bytes limits ≡ ok prepared.inspection
  unfolding prepare_patch
  prepare_patch-inspected patch_bytes limits w h =
      let chosen = host.new_id (codec.sha256 patch_bytes) w in
      kept_patch-inspected chosen.0 patch_bytes limits chosen.1 h
