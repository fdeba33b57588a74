-- ===== src/Workspace/Names.antt =====
-- No file that a line of a patch names escapes its inspection.
use euboulia.Prelude.{
  ◌+◌, inr, ◌⊎◌, inl, ◌∙◌, ◌≡◌, refl, ap, sym, subst, arith, Option, none, some, List, [], ◌∷◌,
  ◌++◌, Memᴰ, ℕ,
}
use euboulia.Prelude.Chars.{split_words, codes, after_prefix, lines_from, partition, eq_chars}
use euboulia.Workspace.{ok, >>=-ok, ok_inj, PatchLimits, PatchInspection}
use euboulia.Workspace.Safe.{safe_patch_path-SafePath}
use euboulia.Workspace.Paths.{without_prefix}
use euboulia.Workspace.Grows.{
  named-Grows, Grows, Grows-trans, named-ok, moved_file-Grows, count_change-Grows,
  inspect_lines-Grows, add_file-new,
}
use euboulia.Workspace.Sound.{inspect_patch-steps, within_limits-ok}
use euboulia.Workspace.Inspect.{
  diff_header, Tally, add_file, named, file_header, moved_file, check_mode, mode_of, other_line,
  inspect_line, inspect_lines, no_lines, Codec, inspect_patch,
}

-- The file that a header of a patch is about, by the headers that `_inspect_patch` reads.
pub data Names (path line : List ℕ) : Type 0 where
  diff_old :
      (rest a b new : List ℕ)
      → line ≡ codes "diff --git " ++ rest
      → split_words line ≡ a ∷ b ∷ (codes "a/" ++ path) ∷ new ∷ []
      → Names path line
  diff_new :
      (rest a b old : List ℕ)
      → line ≡ codes "diff --git " ++ rest
      → split_words line ≡ a ∷ b ∷ old ∷ (codes "b/" ++ path) ∷ []
      → Names path line
  old_file :
      (rest : List ℕ)
      → line ≡ codes "--- a/" ++ rest
      → path ≡ (partition 9 rest).0
      → Names path line
  new_file :
      (rest : List ℕ)
      → line ≡ codes "+++ b/" ++ rest
      → path ≡ (partition 9 rest).0
      → Names path line
  renamed_from : line ≡ codes "rename from " ++ path → Names path line
  renamed_to : line ≡ codes "rename to " ++ path → Names path line
  copied_from : line ≡ codes "copy from " ++ path → Names path line
  copied_to : line ≡ codes "copy to " ++ path → Names path line

named-Memᴰ :
    (expected : Option (List ℕ)) (raw : List ℕ) (t : Tally) {t' : Tally} {path : List ℕ}
    → named expected raw t ≡ ok t'
    → without_prefix expected raw ≡ ok path
    → Memᴰ path t'.files
named-Memᴰ expected raw t {t'} {path} h w =
    let (found, checked, made) = named-ok expected raw t h in
    let same = ok_inj (sym w ∙ (safe_patch_path-SafePath raw expected checked).1) in
    subst (λ u. Memᴰ path u.files) made
      (subst (λ p. Memᴰ p (add_file found t.files)) (sym same) (add_file-new found t.files))

-- The path after a prefix has been collected.
Collected : List ℕ → List ℕ → Tally → Type 0
Collected prefix line t = (path : List ℕ) → after_prefix prefix line ≡ some path → Memᴰ path t.files

moved_file-Collected :
    (prefix line : List ℕ) (t : Tally) {t' : Tally}
    → moved_file prefix line t ≡ ok t'
    → Collected prefix line t'
unfolding Collected moved_file
moved_file-Collected prefix line t {t'} h path e =
    named-Memᴰ none path t {t' = t'} (grind arith) refl

Collected-Grows :
    (prefix line : List ℕ) {t t' : Tally}
    → Grows t t'
    → Collected prefix line t
    → Collected prefix line t'
unfolding Collected
Collected-Grows prefix line g c path e = g.keeps path (c path e)

-- The four prefixes of a line that is no header.
other_line-Collected :
    (line : List ℕ) (t : Tally) {t' : Tally}
    → other_line line t ≡ ok t'
    → Collected (codes "rename from ") line t'
      × Collected (codes "copy from ") line t'
      × Collected (codes "rename to ") line t'
      × Collected (codes "copy to ") line t'
unfolding other_line
other_line-Collected line t {t'} h =
    let (t1, e1, h1) = >>=-ok (moved_file (codes "rename from ") line t) _ h in
    let (t2, e2, h2) = >>=-ok (moved_file (codes "copy from ") line t1) _ h1 in
    let (t3, e3, h3) = >>=-ok (moved_file (codes "rename to ") line t2) _ h2 in
    let (t4, e4, h4) = >>=-ok (moved_file (codes "copy to ") line t3) _ h3 in
    let (done, passed, made) = >>=-ok (check_mode (mode_of line)) _ h4 in
    let g4 = subst (Grows t4) (ok_inj made) (count_change-Grows line t4) in
    let g3 = Grows-trans (moved_file-Grows (codes "copy to ") line t3 e4) g4 in
    let g2 = Grows-trans (moved_file-Grows (codes "rename to ") line t2 e3) g3 in
    let g1 = Grows-trans (moved_file-Grows (codes "copy from ") line t1 e2) g2 in
    (
      kept (codes "rename from ") t t1 g1 e1,
      kept (codes "copy from ") t1 t2 g2 e2,
      kept (codes "rename to ") t2 t3 g3 e3,
      kept (codes "copy to ") t3 t4 g4 e4,
    )
  where
    kept :
        (prefix : List ℕ) (before after : Tally)
        → Grows after t'
        → moved_file prefix line before ≡ ok after
        → Collected prefix line t'
    kept prefix before after g e =
        Collected-Grows prefix line g (moved_file-Collected prefix line before e)

old_header :
    (rest : List ℕ) (t : Tally) {t' : Tally}
    → inspect_line (codes "--- a/" ++ rest) t ≡ ok t'
    → Memᴰ (partition 9 rest).0 t'.files
unfolding inspect_line file_header partition eq_chars after_prefix
old_header rest t h = named-Memᴰ (some (codes "a/")) (codes "a/" ++ (partition 9 rest).0) t h refl

new_header :
    (rest : List ℕ) (t : Tally) {t' : Tally}
    → inspect_line (codes "+++ b/" ++ rest) t ≡ ok t'
    → Memᴰ (partition 9 rest).0 t'.files
unfolding inspect_line file_header partition eq_chars after_prefix
new_header rest t h = named-Memᴰ (some (codes "b/")) (codes "b/" ++ (partition 9 rest).0) t h refl

diff_header-Memᴰ :
    (a b old new path : List ℕ) (t : Tally) {t' : Tally}
    → (old ≡ codes "a/" ++ path) ⊎ (new ≡ codes "b/" ++ path)
    → diff_header (a ∷ b ∷ old ∷ new ∷ []) t ≡ ok t'
    → Memᴰ path t'.files
unfolding diff_header after_prefix
diff_header-Memᴰ a b old new path t {t'} which h =
    let (t1, one, two) =
      >>=-ok (named (some (codes "a/")) old t) (named (some (codes "b/")) new) h in
    by_side which t1 one two
  where
    by_side :
        (old ≡ codes "a/" ++ path) ⊎ (new ≡ codes "b/" ++ path)
        → (t1 : Tally) → named (some (codes "a/")) old t ≡ ok t1
        → named (some (codes "b/")) new t1 ≡ ok t'
        → Memᴰ path t'.files
    by_side (inl e) t1 one two =
        (named-Grows (some (codes "b/")) new t1 two).keeps path
          (named-Memᴰ (some (codes "a/")) old t one (ap (without_prefix (some (codes "a/"))) e))
    by_side (inr e) t1 one two =
        named-Memᴰ (some (codes "b/")) new t1 two (ap (without_prefix (some (codes "b/"))) e)

diff_line-Memᴰ :
    (rest line a b old new path : List ℕ) (t : Tally) {t' : Tally}
    → line ≡ codes "diff --git " ++ rest
    → split_words line ≡ a ∷ b ∷ old ∷ new ∷ []
    → (old ≡ codes "a/" ++ path) ⊎ (new ≡ codes "b/" ++ path)
    → inspect_line line t ≡ ok t'
    → Memᴰ path t'.files
unfolding inspect_line after_prefix
diff_line-Memᴰ rest line a b old new path t {t'} e parts which h =
    diff_header-Memᴰ a b old new path counted which (
      ap (λ ws. diff_header ws counted) (sym parts ∙ ap split_words e)
      ∙ ap (λ l. inspect_line l t) (sym e)
      ∙ h)
  where
    counted : Tally
    counted = record t { diff_headers = t.diff_headers + 1 }

rename_from_header :
    (path : List ℕ) (t : Tally) {t' : Tally}
    → inspect_line (codes "rename from " ++ path) t ≡ ok t'
    → Memᴰ path t'.files
unfolding inspect_line after_prefix Collected
rename_from_header path t h =
    let (renamed_from', copied_from', renamed_to', copied_to') =
      other_line-Collected (codes "rename from " ++ path) t h in
    renamed_from' path refl

copy_from_header :
    (path : List ℕ) (t : Tally) {t' : Tally}
    → inspect_line (codes "copy from " ++ path) t ≡ ok t'
    → Memᴰ path t'.files
unfolding inspect_line after_prefix Collected
copy_from_header path t h =
    let (renamed_from', copied_from', renamed_to', copied_to') =
      other_line-Collected (codes "copy from " ++ path) t h in
    copied_from' path refl

rename_to_header :
    (path : List ℕ) (t : Tally) {t' : Tally}
    → inspect_line (codes "rename to " ++ path) t ≡ ok t'
    → Memᴰ path t'.files
unfolding inspect_line after_prefix Collected
rename_to_header path t h =
    let (renamed_from', copied_from', renamed_to', copied_to') =
      other_line-Collected (codes "rename to " ++ path) t h in
    renamed_to' path refl

copy_to_header :
    (path : List ℕ) (t : Tally) {t' : Tally}
    → inspect_line (codes "copy to " ++ path) t ≡ ok t'
    → Memᴰ path t'.files
unfolding inspect_line after_prefix Collected
copy_to_header path t h =
    let (renamed_from', copied_from', renamed_to', copied_to') =
      other_line-Collected (codes "copy to " ++ path) t h in
    copied_to' path refl

inspect_line-Memᴰ :
    {path line : List ℕ} (t : Tally) {t' : Tally}
    → Names path line
    → inspect_line line t ≡ ok t'
    → Memᴰ path t'.files
inspect_line-Memᴰ {path} {line} t (diff_old rest a b new e parts) h =
    diff_line-Memᴰ rest line a b (codes "a/" ++ path) new path t e parts (inl refl) h
inspect_line-Memᴰ {path} {line} t (diff_new rest a b old e parts) h =
    diff_line-Memᴰ rest line a b old (codes "b/" ++ path) path t e parts (inr refl) h
inspect_line-Memᴰ t {t'} (old_file rest e p) h =
    subst (λ x. Memᴰ x t'.files) (sym p)
      (old_header rest t (ap (λ l. inspect_line l t) (sym e) ∙ h))
inspect_line-Memᴰ t {t'} (new_file rest e p) h =
    subst (λ x. Memᴰ x t'.files) (sym p)
      (new_header rest t (ap (λ l. inspect_line l t) (sym e) ∙ h))
inspect_line-Memᴰ t (renamed_from e) h =
    rename_from_header _ t (ap (λ l. inspect_line l t) (sym e) ∙ h)
inspect_line-Memᴰ t (renamed_to e) h = rename_to_header _ t (ap (λ l. inspect_line l t) (sym e) ∙ h)
inspect_line-Memᴰ t (copied_from e) h =
    copy_from_header _ t (ap (λ l. inspect_line l t) (sym e) ∙ h)
inspect_line-Memᴰ t (copied_to e) h = copy_to_header _ t (ap (λ l. inspect_line l t) (sym e) ∙ h)

inspect_lines-Memᴰ :
    {path line : List ℕ} (lines : List (List ℕ)) (t : Tally) {t' : Tally}
    → Names path line
    → Memᴰ line lines
    → inspect_lines lines t ≡ ok t'
    → Memᴰ path t'.files
unfolding inspect_lines
inspect_lines-Memᴰ [] t n m h = elim m [ ]
inspect_lines-Memᴰ {path} (line ∷ lines) t {t'} n (Memᴰ.head e) h =
    let (next, one, rest) = >>=-ok (inspect_line line t) (inspect_lines lines) h in
    (inspect_lines-Grows lines next rest).keeps path
      (inspect_line-Memᴰ t n (ap (λ l. inspect_line l t) e ∙ one))
inspect_lines-Memᴰ (line ∷ lines) t n (Memᴰ.tail m) h =
    let (next, one, rest) = >>=-ok (inspect_line line t) (inspect_lines lines) h in
    inspect_lines-Memᴰ lines next n m rest

-- If the inspection of a patch passes, its files contain both paths of every line "diff --git", the
-- path of every line "--- a/" and "+++ b/", and the path after every "rename from", "rename to",
-- "copy from" and "copy to" at the start of a line.
pub inspect_patch-Names :
    (codec : Codec) (patch : List ℕ) (limits : PatchLimits) {insp : PatchInspection codec.Digest}
    {text line path : List ℕ}
    → inspect_patch codec patch limits ≡ ok insp
    → codec.decode patch ≡ some text
    → Memᴰ line (lines_from text)
    → Names path line
    → Memᴰ path insp.files
inspect_patch-Names codec patch limits {insp} {text} {line} {path} h read m n =
    let (bytes, text', read', t, counted, ending) = inspect_patch-steps codec patch limits h in
    let (some_file, files, lines, made) = within_limits-ok codec patch limits t ending in
    let same = some_inj (sym read ∙ read') in
    subst (λ i. Memᴰ path i.files) made
      (inspect_lines-Memᴰ (lines_from text') no_lines n
        (subst (λ x. Memᴰ line (lines_from x)) same m) counted)
  where
    some_inj : {x y : List ℕ} → some x ≡ some y → x ≡ y
    some_inj h = cc
