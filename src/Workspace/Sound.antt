-- ===== src/Workspace/Sound.antt =====
-- What the inspection of a patch that passes has established.
use euboulia.Prelude.{
  not_ltb→le, ltb, ◌<◌, subst, ◌≡◌, refl, subst, ltb, arith, false, Option, none, some, List, ℕ,
  ◌+◌, ◌≤◌, All, length,
}
use euboulia.Prelude.Chars.{has_char, lines_from}
use euboulia.Workspace.{
  binary_patch, nul_byte, over_line_budget, over_byte_budget, over_file_budget, not_a_diff,
  reject_if-ok, ok_inj, ok, >>=-ok, PatchLimits, PatchInspection,
}
use euboulia.Workspace.Safe.{SafePath}
use euboulia.Workspace.Inspect.{
  has_none, is_binary, Tally, inspect_lines, no_lines, Codec, decoded, within_limits, inspect_patch,
}
use euboulia.Workspace.Grows.{inspect_lines-Grows}
use euboulia.Workspace.Counted.{inspect_lines-Counts, added_lines, deleted_lines}

some_files : (t : Tally) → has_none t ≡ false → 0 < length t.files
some_files t h = ground arith

module _ (codec : Codec) where
  -- The steps of an inspection that has passed.
  pub inspect_patch-steps :
      (patch : List ℕ) (limits : PatchLimits) {insp : PatchInspection codec.Digest}
      → inspect_patch codec patch limits ≡ ok insp
      → (length patch ≤ limits.max_bytes)
        × (text : List ℕ) × (codec.decode patch ≡ some text)
        × (t : Tally) × (inspect_lines (lines_from text) no_lines ≡ ok t)
        × (within_limits codec patch limits t ≡ ok insp)
  unfolding inspect_patch
  inspect_patch-steps patch limits h =
      let (bytes, h1) = reject_if-ok (ltb limits.max_bytes (length patch)) over_byte_budget _ h in
      let (text, read, h2) = >>=-ok (decoded (codec.decode patch)) _ h1 in
      let (nul, h3) = reject_if-ok (has_char 0 text) nul_byte _ h2 in
      let (binary, h4) = reject_if-ok (is_binary text) binary_patch _ h3 in
      let (t, counted, h5) = >>=-ok (inspect_lines (lines_from text) no_lines) _ h4 in
      (
        not_ltb→le limits.max_bytes (length patch) bytes,
        text,
        decoded-some (codec.decode patch) read,
        t,
        counted,
        h5,
      )
    where
      decoded-some : (o : Option (List ℕ)) {text : List ℕ} → decoded o ≡ ok text → o ≡ some text
      decoded-some none h = cc
      decoded-some (some text) h = grind arith

  -- What the limits and the other tests at the end leave.
  pub within_limits-ok :
      (patch : List ℕ) (limits : PatchLimits) (t : Tally) {insp : PatchInspection codec.Digest}
      → within_limits codec patch limits t ≡ ok insp
      → (0 < length t.files)
        × (length t.files ≤ limits.max_files)
        × (t.additions + t.deletions ≤ limits.max_changed_lines)
        × (record {
          sha256 = codec.sha256 patch;
          size_bytes = length patch;
          files = t.files;
          additions = t.additions;
          deletions = t.deletions;
        }
            ≡ insp)
  unfolding within_limits
  within_limits-ok patch limits t h =
      let (some_file, h1) = reject_if-ok (has_none t) not_a_diff _ h in
      let (files, h2) =
        reject_if-ok (ltb limits.max_files (length t.files)) over_file_budget _ h1 in
      let (lines, h3) =
        reject_if-ok (ltb limits.max_changed_lines (t.additions + t.deletions)) over_line_budget _
          h2 in
      (
        some_files t some_file,
        not_ltb→le limits.max_files (length t.files) files,
        not_ltb→le limits.max_changed_lines (t.additions + t.deletions) lines,
        ok_inj h3,
      )

  -- What an inspection that passes promises of its patch.
  pub record Sound (patch : List ℕ) (limits : PatchLimits) (insp : PatchInspection codec.Digest)
      : Type 0 where
    pub safe : All SafePath insp.files
    pub not_empty : 0 < length insp.files
    pub few_files : length insp.files ≤ limits.max_files
    pub few_lines : insp.additions + insp.deletions ≤ limits.max_changed_lines
    pub few_bytes : insp.size_bytes ≤ limits.max_bytes
    pub text : List ℕ
    pub is_decoded : codec.decode patch ≡ some text
    pub all_additions : insp.additions ≡ added_lines (lines_from text)
    pub all_deletions : insp.deletions ≡ deleted_lines (lines_from text)
    pub same_size : insp.size_bytes ≡ length patch
    pub same_digest : insp.sha256 ≡ codec.sha256 patch

  -- If the inspection of a patch passes, each file of the inspection has a safe path and there is one
  -- at least; its additions are the number of lines of the patch's text that begin with "+", but not
  -- with "+++", and its deletions the number of those that begin with "-", but not with "---"; its
  -- size and digest are the patch's; and its files, the sum of its additions and deletions, and its
  -- size are within the limits.
  pub inspect_patch-Sound :
      (patch : List ℕ) (limits : PatchLimits) {insp : PatchInspection codec.Digest}
      → inspect_patch codec patch limits ≡ ok insp
      → Sound patch limits insp
  inspect_patch-Sound patch limits h =
      let (bytes, text, read, t, counted, ending) = inspect_patch-steps patch limits h in
      let (some_file, files, lines, made) = within_limits-ok patch limits t ending in
      let counts = inspect_lines-Counts (lines_from text) no_lines counted in
      subst (Sound patch limits) made (record {
        safe = (inspect_lines-Grows (lines_from text) no_lines counted).safe tt;
        not_empty = some_file;
        few_files = files;
        few_lines = lines;
        few_bytes = bytes;
        text = text;
        is_decoded = read;
        all_additions = omega (arith, counts.additions);
        all_deletions = omega (arith, counts.deletions);
        same_size = refl;
        same_digest = refl;
      })
