-- ===== src/Workspace/Examples.antt =====
-- Examples for the inspection of patches, and for their application to a worktree that counts how
-- often git apply has run.
use euboulia.Prelude.{
  arith, ◌∙◌, sym, ap, inr, ◌⊎◌, length, subst, ◌≡◌, refl, true, false, Option, none, some, List,
  [], ◌∷◌, ℕ, suc, Memᴰ,
}
use native.Mathlib.Decide.{ℕ_discrete}
use euboulia.Prelude.Chars.{codes, partition, lines_from, split_words, split_on, eq_chars, has_char}
use euboulia.Workspace.{
  ok, err, PatchLimits, PatchInspection, not_normal, over_line_budget, symbolic_link, Rejection,
}
use euboulia.Workspace.Paths.{safe_patch_path}
use euboulia.Workspace.Inspect.{Codec, add_file, inspect_patch}
use euboulia.Workspace.Sound.{Sound, inspect_patch-Sound}
use euboulia.Workspace.Names.{Names, new_file, inspect_patch-Names}
use euboulia.Workspace.Actions.{◌>>=◌, ◌>>◌}
use euboulia.Workspace.Applied.{Permitted}
use euboulia.Workspace.Trees.{is_apply, Quiet, apply_patch-tree, apply_patch-Sound}
use euboulia.Workspace.Apply.{
  prepared_patch, Command, status, check, apply, diff, CommandEvidence, Host, prepare_patch,
  apply_patch, Prepared, Application,
}

abbrev patch : List ℕ
patch =
    codes
      "diff --git a/src/x b/src/x\nindex 0a..1b 100644\n--- a/src/x\n+++ b/src/x\n@@ -1 +1,2 @@\n-a\n+b\n+c\n"

-- A digest that is the number of bytes, and texts of one byte a character.
abbrev plain : Codec
plain = record { Digest = ℕ; decode = λ bytes. some bytes; sha256 = length }

abbrev limits : PatchLimits
limits = record { max_bytes = 200; max_files = 2; max_changed_lines = 3 }

abbrev found : PatchInspection ℕ
found = record {
  sha256 = 94;
  size_bytes = 94;
  files = codes "src/x" ∷ [];
  additions = 2;
  deletions = 1;
}

inspected : inspect_patch plain patch limits ≡ ok found
unfolding inspect_patch split_words safe_patch_path split_on eq_chars add_file
inspected = refl

too_many_lines :
    inspect_patch plain patch (record limits { max_changed_lines = 2 }) ≡ err over_line_budget
unfolding inspect_patch split_words safe_patch_path split_on eq_chars add_file
too_many_lines = refl

outside : safe_patch_path (codes "b/../x") (some (codes "b/")) ≡ err not_normal
unfolding safe_patch_path has_char split_on eq_chars
outside = refl

link_mode :
    inspect_patch plain
      (codes "diff --git a/x b/x\nnew file mode 120000\n--- /dev/null\n+++ b/x\n+y\n")
      limits
    ≡ err symbolic_link
unfolding inspect_patch split_words safe_patch_path split_on eq_chars add_file
link_mode = refl

inspect_patch-Sound_example : Sound plain patch limits found
inspect_patch-Sound_example = inspect_patch-Sound plain patch limits inspected

new_file-Names : Names (codes "src/x") (codes "+++ b/src/x")
unfolding partition
new_file-Names = new_file (codes "src/x") refl refl

abbrev patch_lines : List (List ℕ)
patch_lines =
    codes "diff --git a/src/x b/src/x"
    ∷ codes "index 0a..1b 100644"
    ∷ codes "--- a/src/x"
    ∷ codes "+++ b/src/x"
    ∷ codes "@@ -1 +1,2 @@"
    ∷ codes "-a"
    ∷ codes "+b"
    ∷ codes "+c"
    ∷ []

same_lines : patch_lines ≡ lines_from patch
unfolding lines_from
same_lines = refl

in_lines : Memᴰ (codes "+++ b/src/x") patch_lines
in_lines = Memᴰ.tail (Memᴰ.tail (Memᴰ.tail (Memᴰ.head refl)))

in_patch : Memᴰ (codes "+++ b/src/x") (lines_from patch)
in_patch = subst (λ lines. Memᴰ (codes "+++ b/src/x") lines) same_lines in_lines

inspect_patch-Names_example : Memᴰ (codes "src/x") (codes "src/x" ∷ [])
inspect_patch-Names_example =
    inspect_patch-Names plain patch limits inspected refl in_patch new_file-Names

-- The artifact that is kept, the times git apply has run, and the rejections written.
record World : Type 0 where
  artifact : Option (List ℕ)
  applied : ℕ
  rejections : List Rejection

abbrev answer : CommandEvidence
answer = record { returncode = some 0; timed_out = false; error = none; stdout = [] }

abbrev execute : Command (Unit {0}) → World → CommandEvidence × World
execute (apply location) w = (answer, record w { applied = suc w.applied })
execute status w = (answer, w)
execute (check location) w = (answer, w)
execute diff w = (answer, w)

abbrev host : Host ℕ
host = record {
  World = World;
  Location = Unit {0};
  PatchId = Unit {0};
  self_path = tt;
  location_eq = λ a b. yes refl;
  digest_eq = ℕ_discrete;
  new_id = λ d w. (tt, w);
  patch_file = λ i. tt;
  write_bytes = λ l bytes w. record w { artifact = some bytes };
  read_bytes = λ l w. w.artifact;
  write_patch_rejection = λ i l e w. record w { rejections = e ∷ w.rejections };
  write_inspection = λ i insp w. w;
  is_symlink = λ cursor w. false;
  execute = execute;
}

abbrev start : World
start = record { artifact = none; applied = 0; rejections = [] }

abbrev prepared : Prepared plain host
prepared = prepared_patch plain host tt found answer

abbrev kept : World
kept = record start { artifact = some patch }

prepared_ok : prepare_patch plain host patch limits start ≡ (ok prepared, kept)
unfolding prepare_patch ◌>>=◌ ◌>>◌ inspect_patch split_words safe_patch_path split_on eq_chars
    add_file
prepared_ok = refl

abbrev application : Application plain host
application = record { prepared = prepared; apply_evidence = answer; diff_evidence = answer }

applied_ok :
    apply_patch plain host prepared true kept ≡ (ok application, record kept { applied = 1 })
unfolding apply_patch ℕ_discrete ◌>>◌ split_on eq_chars
applied_ok = refl

quiet : Quiet plain host World.applied
quiet = record {
  new_id = λ d w. refl;
  write_bytes = λ i bytes w. refl;
  write_patch_rejection = λ i e w. refl;
  write_inspection = λ i insp w. refl;
  execute = quiet_command;
}
  where
    quiet_command :
        (command : Command (Unit {0})) (w : World)
        → is_apply command ≡ false
        → (execute command w).1.applied ≡ w.applied
    quiet_command status w h = refl
    quiet_command (check location) w h = refl
    quiet_command (apply location) w h = cc
    quiet_command diff w h = refl

abbrev later : World
later = (apply_patch plain host prepared true kept).1

apply_patch-tree_example :
    ((e : Rejection) × ((apply_patch plain host prepared true kept).0 ≡ err e)
      × (later.applied ≡ 0))
    ⊎ ((w' : World) × Permitted plain host prepared true kept w'
        × (w'.applied ≡ 0)
        × (later.applied ≡ suc w'.applied))
apply_patch-tree_example = apply_patch-tree plain host World.applied quiet prepared true kept

one_not_zero : ¬ (◌≡◌ {A = ℕ} 1 0)
one_not_zero e = omega arith

has_changed : ¬ (later.applied ≡ 0)
has_changed same = one_not_zero (ap (λ r. r.1.applied) (sym applied_ok) ∙ same)

apply_patch-Sound_example :
    Sound plain patch limits found
    × (w : World) × (p : Permitted plain host prepared true kept w) × (plain.sha256 p.patch_bytes
        ≡ length patch)
apply_patch-Sound_example =
    apply_patch-Sound plain host World.applied quiet patch limits start kept true prepared_ok
      (inr has_changed)
