-- ===== src/Workspace/Inspect.antt =====
-- `_inspect_patch` of optimization/workspace.py.
use euboulia.Prelude.{
  Bool, false, not, ◌||◌, ◌&&◌, Option, none, some, List, [], ◌∷◌, ℕ, ◌+◌, leb, ltb, length,
  if◌then◌else◌,
}
use euboulia.Prelude.Chars.{
  codes, eq_chars, after_prefix, starts_with, has_char, has_fragment, partition, lines_from,
  split_words, lt_chars,
}
use euboulia.Workspace.{
  Result, ok, err, ◌>>=◌, ◌>>◌, reject_if, PatchLimits, PatchInspection, over_byte_budget, not_utf8,
  nul_byte, binary_patch, quoted_header, symbolic_link, irregular_mode, not_a_diff,
  over_file_budget, over_line_budget,
}
use euboulia.Workspace.Paths.{safe_patch_path}

-- What the loop over the lines collects; the paths are in the order of `sorted`, each once.
pub record Tally : Type 0 where
  pub files : List (List ℕ)
  pub additions : ℕ
  pub deletions : ℕ
  pub diff_headers : ℕ

unfoldable pub add_file : List ℕ → List (List ℕ) → List (List ℕ)
add_file path [] = path ∷ []
add_file path (f ∷ fs) =
    let rest = add_file path fs in
    if eq_chars path f then f ∷ fs else if lt_chars path f then path ∷ (f ∷ fs) else f ∷ rest

abbrev pub named : Option (List ℕ) → List ℕ → Tally → Result Tally
named expected raw t =
    safe_patch_path raw expected >>= λ path. ok (record t { files = add_file path t.files })

-- The two paths of a line "diff --git".
unfoldable pub diff_header : List (List ℕ) → Tally → Result Tally
diff_header (a ∷ (b ∷ (old ∷ (new ∷ [])))) t =
    named (some (codes "a/")) old t >>= λ t'. named (some (codes "b/")) new t'
diff_header _ t = err quoted_header

-- A line "---" or "+++", from the path on.
unfoldable pub file_header : List ℕ → List ℕ → Tally → Result Tally
unfolding partition
file_header prefix rest t =
    let raw = (partition 9 rest).0 in
    if eq_chars raw (codes "/dev/null") then ok t else named (some prefix) raw t

-- if line.startswith(prefix): files.add(...)
unfoldable pub moved_file : List ℕ → List ℕ → Tally → Result Tally
unfolding after_prefix
moved_file prefix line t = elim (after_prefix prefix line) [
  | none ↦ ok t
  | some raw ↦ named none raw t
]

abbrev is_octal : ℕ → Bool
is_octal c = leb 48 c && leb c 55

abbrev is_hex : ℕ → Bool
is_hex c = (leb 48 c && leb c 57) || (leb 97 c && leb c 102) || (leb 65 c && leb c 70)

-- ([0-7]{6})$
unfoldable pub six_digits : List ℕ → Option (List ℕ)
six_digits (a ∷ (b ∷ (c ∷ (d ∷ (e ∷ (f ∷ [])))))) =
    if is_octal a && is_octal b && is_octal c && is_octal d && is_octal e && is_octal f
    then some (a ∷ b ∷ c ∷ d ∷ e ∷ f ∷ [])
    else none
six_digits _ = none

-- What follows the hexadecimal digits, of which there is one at least.
unfoldable pub after_hex : List ℕ → List ℕ
after_hex [] = []
after_hex (c ∷ cs) = let rest = after_hex cs in if is_hex c then rest else c ∷ cs

abbrev hex_first : List ℕ → Bool
hex_first [] = false
hex_first (c ∷ cs) = is_hex c

abbrev in_option : (List ℕ → Option (List ℕ)) → Option (List ℕ) → Option (List ℕ)
in_option f none = none
in_option f (some cs) = f cs

-- [0-9a-fA-F]+ and what follows it
abbrev hex_run : List ℕ → Option (List ℕ)
hex_run cs = if hex_first cs then some (after_hex cs) else none

-- _INDEX_MODE
unfoldable pub index_mode : List ℕ → Option (List ℕ)
unfolding after_prefix after_hex six_digits
index_mode line = in_option six_digits (
    in_option (after_prefix (codes " ")) (
      in_option hex_run (
        in_option (after_prefix (codes ".."))
          (in_option hex_run (after_prefix (codes "index ") line)))))

-- The mode after one of the prefixes.
unfoldable pub mode_after : List (List ℕ) → List ℕ → Option (List ℕ)
unfolding after_prefix six_digits
mode_after [] line = none
mode_after (prefix ∷ prefixes) line = elim (in_option six_digits (after_prefix prefix line)) [
  | none ↦ mode_after prefixes line
  | some mode ↦ some mode
]

-- _MODE_LINE or _INDEX_MODE
unfoldable pub mode_of : List ℕ → Option (List ℕ)
unfolding mode_after index_mode
mode_of line =
    elim (mode_after
      (codes "old mode "
        ∷ codes "new mode "
        ∷ codes "new file mode "
        ∷ codes "deleted file mode "
        ∷ [])
      line) [ none ↦ index_mode line | some mode ↦ some mode ]

abbrev pub is_regular : List ℕ → Bool
is_regular mode = eq_chars mode (codes "100644") || eq_chars mode (codes "100755")

unfoldable pub check_mode : Option (List ℕ) → Result (Unit {0})
check_mode none = ok tt
check_mode (some mode) =
    if is_regular mode
    then ok tt
    else if eq_chars mode (codes "120000")
    then err symbolic_link
    else err irregular_mode

-- The count of changed lines.
unfoldable pub count_change : List ℕ → Tally → Tally
unfolding starts_with
count_change line t =
    if starts_with (codes "+") line && not (starts_with (codes "+++") line)
    then record t { additions = t.additions + 1 }
    else if starts_with (codes "-") line && not (starts_with (codes "---") line)
    then record t { deletions = t.deletions + 1 }
    else t

-- A line that is no header of a file.
unfoldable pub other_line : List ℕ → Tally → Result Tally
unfolding moved_file mode_of check_mode count_change
other_line line t = do
  t1 ← moved_file (codes "rename from ") line t
  t2 ← moved_file (codes "copy from ") line t1
  t3 ← moved_file (codes "rename to ") line t2
  t4 ← moved_file (codes "copy to ") line t3
  check_mode (mode_of line)
  ok (count_change line t4)

-- The body of the loop.
unfoldable pub inspect_line : List ℕ → Tally → Result Tally
unfolding diff_header file_header other_line
inspect_line line t = elim (after_prefix (codes "diff --git ") line) [
  | some rest ↦ diff_header (split_words line) (record t { diff_headers = t.diff_headers + 1 })
  | none ↦ elim (after_prefix (codes "--- ") line) [
    | some rest ↦ file_header (codes "a/") rest t
    | none ↦ elim (after_prefix (codes "+++ ") line) [
      | some rest ↦ file_header (codes "b/") rest t
      | none ↦ other_line line t
    ]
  ]
]

unfoldable pub inspect_lines : List (List ℕ) → Tally → Result Tally
unfolding inspect_line
inspect_lines [] t = ok t
inspect_lines (line ∷ lines) t = inspect_line line t >>= λ t'. inspect_lines lines t'

abbrev pub no_lines : Tally
no_lines = record { files = []; additions = 0; deletions = 0; diff_headers = 0 }

abbrev pub has_none : Tally → Bool
has_none t = leb t.diff_headers 0 || leb (length t.files) 0

-- Python's decoder of UTF-8 and hashlib.
pub record Codec : Type 1 where
  pub Digest : Type 0
  pub decode : List ℕ → Option (List ℕ)
  pub sha256 : List ℕ → Digest

abbrev pub decoded : Option (List ℕ) → Result (List ℕ)
decoded none = err not_utf8
decoded (some text) = ok text

abbrev pub is_binary : List ℕ → Bool
unfolding has_fragment
is_binary text =
    has_fragment (codes "GIT binary patch") text || has_fragment (codes "Binary files ") text

module _ (codec : Codec) where
  -- From the loop's end on.
  unfoldable pub within_limits :
      List ℕ → PatchLimits → Tally → Result (PatchInspection codec.Digest)
  within_limits patch limits t = do
    reject_if (has_none t) not_a_diff
    reject_if (ltb limits.max_files (length t.files)) over_file_budget
    reject_if (ltb limits.max_changed_lines (t.additions + t.deletions)) over_line_budget
    ok (record {
      sha256 = codec.sha256 patch;
      size_bytes = length patch;
      files = t.files;
      additions = t.additions;
      deletions = t.deletions;
    })

  unfoldable pub inspect_patch : List ℕ → PatchLimits → Result (PatchInspection codec.Digest)
  unfolding has_char has_fragment lines_from inspect_lines within_limits
  inspect_patch patch limits = do
    reject_if (ltb limits.max_bytes (length patch)) over_byte_budget
    text ← decoded (codec.decode patch)
    reject_if (has_char 0 text) nul_byte
    reject_if (is_binary text) binary_patch
    t ← inspect_lines (lines_from text) no_lines
    within_limits patch limits t
