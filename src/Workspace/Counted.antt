-- ===== src/Workspace/Counted.antt =====
-- What `_inspect_patch` counts is what the lines of the patch's text say.
use euboulia.Prelude.{
  ◌∙◌, ◌≡◌, refl, ap, subst, arith, Bool, false, not, ◌&&◌, Option, none, some, List, [], ◌∷◌, ℕ,
  ◌+◌, if◌then◌else◌, if-elim,
}
use euboulia.Prelude.Chars.{codes, after_prefix, starts_with, split_words, partition, eq_chars}
use euboulia.Workspace.{ok, >>=-ok, ok_inj}
use euboulia.Workspace.Grows.{named-ok}
use euboulia.Workspace.Inspect.{
  Tally, named, diff_header, file_header, moved_file, check_mode, mode_of, count_change, other_line,
  inspect_line, inspect_lines,
}

-- The line begins with a sign, and not with three of them.
abbrev pub is_signed : List ℕ → List ℕ → List ℕ → Bool
is_signed sign three line = starts_with sign line && not (starts_with three line)

-- How many of the lines do.
unfoldable pub signed_lines : List ℕ → List ℕ → List (List ℕ) → ℕ
unfolding starts_with
signed_lines sign three [] = 0
signed_lines sign three (line ∷ lines) =
    let rest = signed_lines sign three lines in if is_signed sign three line then 1 + rest else rest

abbrev pub added_lines : List (List ℕ) → ℕ
added_lines lines = signed_lines (codes "+") (codes "+++") lines

abbrev pub deleted_lines : List (List ℕ) → ℕ
deleted_lines lines = signed_lines (codes "-") (codes "---") lines

-- From one tally to the next these lines were counted.
pub record Counts (lines : List (List ℕ)) (t t' : Tally) : Type 0 where
  pub additions : t'.additions ≡ t.additions + added_lines lines
  pub deletions : t'.deletions ≡ t.deletions + deleted_lines lines

-- None was.
record Same (t t' : Tally) : Type 0 where
  additions : t'.additions ≡ t.additions
  deletions : t'.deletions ≡ t.deletions

Same-trans : {t t' t'' : Tally} → Same t t' → Same t' t'' → Same t t''
Same-trans g h = record {
  additions = h.additions ∙ g.additions;
  deletions = h.deletions ∙ g.deletions;
}

named-Same :
    (expected : Option (List ℕ)) (raw : List ℕ) (t : Tally) {t' : Tally}
    → named expected raw t ≡ ok t'
    → Same t t'
named-Same expected raw t h =
    let (path, found, made) = named-ok expected raw t h in
    subst (Same t) made (record { additions = refl; deletions = refl })

diff_header-Same :
    (parts : List (List ℕ)) (t : Tally) {t' : Tally} → diff_header parts t ≡ ok t' → Same t t'
unfolding diff_header
diff_header-Same [] t h = cc
diff_header-Same (a ∷ []) t h = cc
diff_header-Same (a ∷ (b ∷ [])) t h = cc
diff_header-Same (a ∷ (b ∷ (old ∷ []))) t h = cc
diff_header-Same (a ∷ (b ∷ (old ∷ (new ∷ [])))) t h =
    let (t1, one, two) =
      >>=-ok (named (some (codes "a/")) old t) (named (some (codes "b/")) new) h in
    Same-trans (named-Same (some (codes "a/")) old t one)
      (named-Same (some (codes "b/")) new t1 two)
diff_header-Same (a ∷ (b ∷ (old ∷ (new ∷ (c ∷ rest))))) t h = cc

file_header-Same :
    (prefix rest : List ℕ) (t : Tally) {t' : Tally} → file_header prefix rest t ≡ ok t' → Same t t'
unfolding file_header
file_header-Same prefix rest t {t'} =
    if-elim (λ r. r ≡ ok t' → Same t t') (eq_chars (partition 9 rest).0 (codes "/dev/null")) _ _
      (λ e h. subst (Same t) (ok_inj h) (record { additions = refl; deletions = refl }))
      (λ e h. named-Same (some prefix) (partition 9 rest).0 t h)

moved_file-Same :
    (prefix line : List ℕ) (t : Tally) {t' : Tally} → moved_file prefix line t ≡ ok t' → Same t t'
unfolding moved_file
moved_file-Same prefix line t {t'} = by_prefix (after_prefix prefix line)
  where
    by_prefix :
        (o : Option (List ℕ))
        → elim o [ none ↦ ok t | some raw ↦ named none raw t ] ≡ ok t'
        → Same t t'
    by_prefix none h = subst (Same t) (ok_inj h) (record { additions = refl; deletions = refl })
    by_prefix (some raw) h = named-Same none raw t h

-- A line that is a header has no sign.
diff_unsigned :
    (line : List ℕ) {rest : List ℕ}
    → after_prefix (codes "diff --git ") line ≡ some rest
    → (is_signed (codes "+") (codes "+++") line ≡ false)
      × (is_signed (codes "-") (codes "---") line ≡ false)
unfolding after_prefix starts_with
diff_unsigned [] h = (refl, refl)
diff_unsigned (c ∷ cs) h = (grind arith, grind arith)

old_unsigned :
    (line : List ℕ) {rest : List ℕ}
    → after_prefix (codes "--- ") line ≡ some rest
    → (is_signed (codes "+") (codes "+++") line ≡ false)
      × (is_signed (codes "-") (codes "---") line ≡ false)
unfolding after_prefix starts_with
old_unsigned (a ∷ (b ∷ (c ∷ cs))) h = (grind arith, grind arith)
old_unsigned (a ∷ (b ∷ [])) h = (grind arith, grind arith)
old_unsigned (a ∷ []) h = (grind arith, grind arith)
old_unsigned [] h = (refl, refl)

new_unsigned :
    (line : List ℕ) {rest : List ℕ}
    → after_prefix (codes "+++ ") line ≡ some rest
    → (is_signed (codes "+") (codes "+++") line ≡ false)
      × (is_signed (codes "-") (codes "---") line ≡ false)
unfolding after_prefix starts_with
new_unsigned (a ∷ (b ∷ (c ∷ cs))) h = (grind arith, grind arith)
new_unsigned (a ∷ (b ∷ [])) h = (grind arith, grind arith)
new_unsigned (a ∷ []) h = (grind arith, grind arith)
new_unsigned [] h = (refl, refl)

unsigned-Counts :
    (line : List ℕ) {t t' : Tally}
    → (is_signed (codes "+") (codes "+++") line ≡ false)
      × (is_signed (codes "-") (codes "---") line ≡ false)
    → Same t t'
    → Counts (line ∷ []) t t'
unfolding signed_lines
unsigned-Counts line (p, m) same = record {
  additions = grind (arith, same.additions);
  deletions = grind (arith, same.deletions);
}

count_change-deletions :
    (line : List ℕ) (t : Tally)
    → (count_change line t).deletions ≡ t.deletions + deleted_lines (line ∷ [])
unfolding count_change signed_lines after_prefix starts_with
count_change-deletions [] t = grind arith
count_change-deletions (c ∷ cs) t = grind arith

count_change-Counts : (line : List ℕ) (t : Tally) → Counts (line ∷ []) t (count_change line t)
unfolding count_change signed_lines
count_change-Counts line t = record {
  additions = grind arith;
  deletions = count_change-deletions line t;
}

other_line-Counts :
    (line : List ℕ) (t : Tally) {t' : Tally} → other_line line t ≡ ok t' → Counts (line ∷ []) t t'
unfolding other_line
other_line-Counts line t {t'} h =
    let (t1, e1, h1) = >>=-ok (moved_file (codes "rename from ") line t) _ h in
    let (t2, e2, h2) = >>=-ok (moved_file (codes "copy from ") line t1) _ h1 in
    let (t3, e3, h3) = >>=-ok (moved_file (codes "rename to ") line t2) _ h2 in
    let (t4, e4, h4) = >>=-ok (moved_file (codes "copy to ") line t3) _ h3 in
    let (done, passed, made) = >>=-ok (check_mode (mode_of line)) _ h4 in
    let same = Same-trans (moved_file-Same (codes "rename from ") line t e1) (
      Same-trans (moved_file-Same (codes "copy from ") line t1 e2) (
        Same-trans (moved_file-Same (codes "rename to ") line t2 e3)
          (moved_file-Same (codes "copy to ") line t3 e4))) in
    let counted = count_change-Counts line t4 in
    subst (Counts (line ∷ []) t) (ok_inj made) (record {
      additions = counted.additions ∙ ap (λ n. n + added_lines (line ∷ [])) same.additions;
      deletions = counted.deletions ∙ ap (λ n. n + deleted_lines (line ∷ [])) same.deletions;
    })

inspect_line-Counts :
    (line : List ℕ) (t : Tally) {t' : Tally} → inspect_line line t ≡ ok t' → Counts (line ∷ []) t t'
unfolding inspect_line
inspect_line-Counts line t {t'} =
    by_header (after_prefix (codes "diff --git ") line) refl (after_prefix (codes "--- ") line) refl
      (after_prefix (codes "+++ ") line) refl
  where
    by_header :
        (diff : Option (List ℕ))
        → after_prefix (codes "diff --git ") line ≡ diff
        → (old : Option (List ℕ)) → after_prefix (codes "--- ") line ≡ old
        → (new : Option (List ℕ)) → after_prefix (codes "+++ ") line ≡ new
        → elim diff [
          | some rest ↦
              diff_header (split_words line) (record t { diff_headers = t.diff_headers + 1 })
          | none ↦ elim old [
            | some rest ↦ file_header (codes "a/") rest t
            | none ↦ elim new [
              | some rest ↦ file_header (codes "b/") rest t
              | none ↦ other_line line t
            ]
          ]
        ]
          ≡ ok t'
        → Counts (line ∷ []) t t'
    by_header (some rest) e old e' new e'' h =
        let after =
          diff_header-Same (split_words line) (record t { diff_headers = t.diff_headers + 1 }) h in
        unsigned-Counts line (diff_unsigned line e)
          (record { additions = after.additions; deletions = after.deletions })
    by_header none e (some rest) e' new e'' h =
        unsigned-Counts line (old_unsigned line e') (file_header-Same (codes "a/") rest t h)
    by_header none e none e' (some rest) e'' h =
        unsigned-Counts line (new_unsigned line e'') (file_header-Same (codes "b/") rest t h)
    by_header none e none e' none e'' h = other_line-Counts line t h

signed_lines-cons :
    (sign three line : List ℕ) (lines : List (List ℕ))
    → signed_lines sign three (line ∷ lines)
      ≡ signed_lines sign three (line ∷ []) + signed_lines sign three lines
unfolding signed_lines
signed_lines-cons sign three line lines = grind arith

-- The loop counts the lines that begin with "+", but not with "+++", and those that begin with "-",
-- but not with "---".
pub inspect_lines-Counts :
    (lines : List (List ℕ)) (t : Tally) {t' : Tally}
    → inspect_lines lines t ≡ ok t'
    → Counts lines t t'
unfolding inspect_lines signed_lines
inspect_lines-Counts [] t h =
    subst (Counts [] t) (ok_inj h) (record { additions = omega arith; deletions = omega arith })
inspect_lines-Counts (line ∷ lines) t h =
    let (next, one, rest) = >>=-ok (inspect_line line t) (inspect_lines lines) h in
    let first = inspect_line-Counts line t one in
    let later = inspect_lines-Counts lines next rest in
    record {
      additions = grind (
        arith,
        signed_lines-cons (codes "+") (codes "+++") line lines,
        first.additions,
        later.additions,
      );
      deletions = grind (
        arith,
        signed_lines-cons (codes "-") (codes "---") line lines,
        first.deletions,
        later.deletions,
      );
    }
