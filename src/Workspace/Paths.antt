-- ===== src/Workspace/Paths.antt =====
-- `_safe_patch_path` of optimization/workspace.py.
use euboulia.Prelude.{
  Bool, true, false, ◌||◌, ◌&&◌, Option, none, some, List, [], ◌∷◌, ◌++◌, ℕ, ◌+◌, map, leb,
  if◌then◌else◌,
}
use euboulia.Prelude.Chars.{
  codes, eq_code, eq_chars, after_prefix, split_on, has_char, contains_code, starts_with,
}
use euboulia.Workspace.{
  Result, ok, err, ◌>>=◌, ◌>>◌, reject_if, absolute_or_empty, quoted_path, no_prefix, invalid_path,
  not_normal, git_path, drive_path,
}

unfoldable pub any_part : (List ℕ → Bool) → List (List ℕ) → Bool
any_part test [] = false
any_part test (part ∷ parts) = test part || any_part test parts

-- {"", ".", ".."}
abbrev pub is_not_normal : List ℕ → Bool
is_not_normal part = eq_chars part [] || eq_chars part (codes ".") || eq_chars part (codes "..")

-- An empty component or "." is none of PurePosixPath's parts.
abbrev pub is_dropped : List ℕ → Bool
is_dropped part = eq_chars part [] || eq_chars part (codes ".")

unfoldable pub kept_parts : List (List ℕ) → List (List ℕ)
kept_parts [] = []
kept_parts (part ∷ parts) =
    let rest = kept_parts parts in if is_dropped part then rest else part ∷ rest

-- PurePosixPath(path).parts, with the root of an absolute path
unfoldable pub posix_parts : List ℕ → List (List ℕ)
unfolding kept_parts starts_with
posix_parts path =
    if starts_with (codes "/") path
    then codes "/" ∷ kept_parts (split_on b'/' path)
    else kept_parts (split_on b'/' path)

-- The parts with a separator between them.
unfoldable pub join : ℕ → List (List ℕ) → List ℕ
join s [] = []
join s (part ∷ []) = part
join s (part ∷ (next ∷ parts)) = part ++ (s ∷ join s (next ∷ parts))

-- str.casefold as far as a comparison with ".git" goes: no other character folds to g, i or t.
abbrev pub fold_case : ℕ → ℕ
fold_case c = if leb 65 c && leb c 90 then c + 32 else c

unfoldable pub is_git : List ℕ → Bool
is_git part = eq_chars (map fold_case part) (codes ".git")

unfoldable pub ends_with : ℕ → List ℕ → Bool
ends_with s [] = false
ends_with s (c ∷ []) = eq_code s c
ends_with s (c ∷ (d ∷ cs)) = ends_with s (d ∷ cs)

abbrev pub is_nil {ℓ} : {A : Type ℓ} → List A → Bool
is_nil [] = true
is_nil (x ∷ xs) = false

abbrev pub starts_in : List ℕ → List ℕ → Bool
starts_in set [] = false
starts_in set (c ∷ cs) = contains_code set c

abbrev pub has_any : List ℕ → List ℕ → Bool
has_any [] cs = false
has_any (c ∷ set) cs = has_char c cs || has_any set cs

abbrev pub first_has : ℕ → List (List ℕ) → Bool
first_has c [] = false
first_has c (part ∷ parts) = has_char c part

-- Without the prefix that is expected.
abbrev pub without_prefix : Option (List ℕ) → List ℕ → Result (List ℕ)
without_prefix none raw = ok raw
without_prefix (some prefix) raw = elim (after_prefix prefix raw) [
  | none ↦ err no_prefix
  | some path ↦ ok path
]

-- From the path without its prefix on.
unfoldable pub checked_path : List ℕ → Result (List ℕ)
unfolding any_part posix_parts join is_git ends_with
checked_path path = do
  let parts = posix_parts path
  reject_if
      (is_nil parts
        || eq_chars path (codes ".")
        || eq_chars path (codes "..")
        || ends_with b'/' path)
      invalid_path
  reject_if (any_part is_not_normal (split_on b'/' path)) not_normal
  reject_if (any_part is_git parts) git_path
  reject_if (first_has b':' parts) drive_path
  ok (join b'/' parts)

unfoldable pub safe_patch_path : List ℕ → Option (List ℕ) → Result (List ℕ)
unfolding checked_path
safe_patch_path raw expected = do
  reject_if (is_nil raw || starts_in (codes "/\\") raw) absolute_or_empty
  reject_if (has_any (b'"' ∷ b'\'' ∷ b'\\' ∷ 0 ∷ []) raw) quoted_path
  path ← without_prefix expected raw
  checked_path path
