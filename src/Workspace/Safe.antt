-- ===== src/Workspace/Safe.antt =====
-- What the check of a patch's path lets through.
use euboulia.Prelude.{
  ◌≡◌, ◌≢◌, refl, sym, ap, subst, ◌∙◌, arith, Bool, true, false, Option, none, some, List, [], ◌∷◌,
  ℕ, All, if◌then◌else◌,
}
use euboulia.Prelude.Equal.{eq_code→eq, eq_chars_refl}
use euboulia.Prelude.Chars.{
  codes, eq_code, eq_chars, after_prefix, split_on, has_char, starts_with, push_head,
}
use euboulia.Workspace.{ok, err, ◌>>=◌, >>=-ok, no_prefix}
use euboulia.Workspace.Paths.{
  any_part, is_not_normal, kept_parts, posix_parts, join, is_git, checked_path, safe_patch_path,
  without_prefix,
}

-- A component that names no other directory, and not git's own.
pub record Plain (part : List ℕ) : Type 0 where
  pub not_empty : part ≢ []
  pub not_here : part ≢ codes "."
  pub not_parent : part ≢ codes ".."
  pub not_git : is_git part ≡ false

normal-ne : (part other : List ℕ) → eq_chars part other ≡ false → part ≢ other
normal-ne part other h e = cc (h, subst (λ x. eq_chars part x ≡ true) e (eq_chars_refl part))

any_part-All :
    (test : List ℕ → Bool) (parts : List (List ℕ))
    → any_part test parts ≡ false
    → All (λ part. test part ≡ false) parts
unfolding any_part
any_part-All test [] h = tt
any_part-All test (part ∷ parts) h = (grind arith, any_part-All test parts (grind arith))

kept_parts-normal :
    (parts : List (List ℕ)) → any_part is_not_normal parts ≡ false → kept_parts parts ≡ parts
unfolding kept_parts any_part
kept_parts-normal [] h = refl
kept_parts-normal (part ∷ parts) h = grind (arith, kept_parts-normal parts)

split_on-root :
    (path : List ℕ)
    → starts_with (codes "/") path ≡ true
    → any_part is_not_normal (split_on b'/' path) ≡ true
unfolding starts_with after_prefix split_on any_part eq_chars
split_on-root [] h = cc
split_on-root (c ∷ cs) h = grind arith

posix_parts-normal :
    (path : List ℕ)
    → any_part is_not_normal (split_on b'/' path) ≡ false
    → posix_parts path ≡ split_on b'/' path
unfolding posix_parts
posix_parts-normal path h =
    grind (arith, split_on-root path, kept_parts-normal (split_on b'/' path))

join-push_head : (s c : ℕ) (parts : List (List ℕ)) → join s (push_head c parts) ≡ c ∷ join s parts
unfolding join
join-push_head s c [] = refl
join-push_head s c (part ∷ []) = refl
join-push_head s c (part ∷ (next ∷ parts)) = refl

split_on-cons :
    (s : ℕ) (cs : List ℕ)
    → (part : List ℕ) × (parts : List (List ℕ)) × (split_on s cs ≡ part ∷ parts)
unfolding split_on
split_on-cons s [] = ([], [], refl)
split_on-cons s (c ∷ cs) = by_test (eq_code s c) (split_on s cs)
  where
    by_test :
        (b : Bool) (rest : List (List ℕ))
        → (part : List ℕ) × (parts : List (List ℕ)) × ((if b then [] ∷ rest else push_head c rest)
            ≡ part ∷ parts)
    by_test true rest = ([], rest, refl)
    by_test false [] = (c ∷ [], [], refl)
    by_test false (part ∷ parts) = (c ∷ part, parts, refl)

join-empty :
    (s : ℕ) (parts : List (List ℕ)) {part : List ℕ} {rest : List (List ℕ)}
    → parts ≡ part ∷ rest
    → join s ([] ∷ parts) ≡ s ∷ join s parts
unfolding join
join-empty s [] e = cc
join-empty s (p ∷ ps) e = refl

join-split_on : (s : ℕ) (cs : List ℕ) → join s (split_on s cs) ≡ cs
unfolding split_on
join-split_on s [] = join-single
  where
    join-single : join s ([] ∷ []) ≡ []
    join-single = unfold join in refl
join-split_on s (c ∷ cs) = by_test (eq_code s c) refl (join-split_on s cs)
  where
    by_test :
        (b : Bool)
        → eq_code s c ≡ b
        → join s (split_on s cs) ≡ cs
        → join s (if b then [] ∷ split_on s cs else push_head c (split_on s cs)) ≡ c ∷ cs
    by_test true e ih =
        let (part, parts, shape) = split_on-cons s cs in
        join-empty s (split_on s cs) shape
        ∙ ap (λ x. x ∷ join s (split_on s cs)) (eq_code→eq s c e)
        ∙ ap (λ xs. c ∷ xs) ih
    by_test false e ih = join-push_head s c (split_on s cs) ∙ ap (λ xs. c ∷ xs) ih

-- A path inside the tree, none of whose parts leaves it or is git's.
pub record SafePath (path : List ℕ) : Type 0 where
  pub parts : All Plain (split_on b'/' path)
  pub no_backslash : has_char b'\\' path ≡ false
  pub no_nul : has_char 0 path ≡ false

normal_part :
    (part : List ℕ)
    → is_not_normal part ≡ false
    → (eq_chars part [] ≡ false)
      × (eq_chars part (codes ".") ≡ false)
      × (eq_chars part (codes "..") ≡ false)
normal_part part h = (ground arith, ground arith, ground arith)

parts-Plain :
    (parts : List (List ℕ))
    → any_part is_not_normal parts ≡ false
    → any_part is_git parts ≡ false
    → All Plain parts
unfolding any_part
parts-Plain [] h k = tt
parts-Plain (part ∷ parts) h k =
    let normal = normal_part part (grind arith) in
    (
      record {
        not_empty = normal-ne part [] normal.0;
        not_here = normal-ne part (codes ".") normal.1;
        not_parent = normal-ne part (codes "..") normal.2;
        not_git = grind arith;
      },
      parts-Plain parts (grind arith) (grind arith),
    )

checked_path-tests :
    (path : List ℕ) {out : List ℕ}
    → checked_path path ≡ ok out
    → (any_part is_not_normal (split_on b'/' path) ≡ false)
      × (any_part is_git (posix_parts path) ≡ false)
      × (join b'/' (posix_parts path) ≡ out)
unfolding checked_path
checked_path-tests path h = (ground arith, ground arith, ground arith)

checked_path-parts :
    (path : List ℕ) {out : List ℕ}
    → checked_path path ≡ ok out
    → All Plain (split_on b'/' path) × (path ≡ out)
checked_path-parts path h =
    let (normal, git, made) = checked_path-tests path h in
    let same_parts = posix_parts-normal path normal in
    (
      parts-Plain (split_on b'/' path) normal
          (subst (λ parts. any_part is_git parts ≡ false) same_parts git),
      sym (join-split_on b'/' path) ∙ ap (join b'/') (sym same_parts) ∙ made,
    )

has_char-suffix :
    (c : ℕ) (prefix raw path : List ℕ)
    → after_prefix prefix raw ≡ some path
    → has_char c raw ≡ false
    → has_char c path ≡ false
unfolding after_prefix has_char
has_char-suffix c [] raw path h k = grind arith
has_char-suffix c (p ∷ ps) [] path h k = cc
has_char-suffix c (p ∷ ps) (d ∷ ds) path h k = grind (arith, has_char-suffix c ps ds path)

safe_patch_path-tests :
    (raw : List ℕ) (expected : Option (List ℕ)) {out : List ℕ}
    → safe_patch_path raw expected ≡ ok out
    → (has_char b'\\' raw ≡ false)
      × (has_char 0 raw ≡ false)
      × ((without_prefix expected raw >>= checked_path) ≡ ok out)
unfolding safe_patch_path
safe_patch_path-tests raw expected h = (ground arith, ground arith, ground arith)

without_prefix-suffix :
    (c : ℕ) (expected : Option (List ℕ)) (raw : List ℕ) {path : List ℕ}
    → without_prefix expected raw ≡ ok path
    → has_char c raw ≡ false
    → has_char c path ≡ false
without_prefix-suffix c none raw h k = grind arith
without_prefix-suffix c (some prefix) raw {path} h k = stripped (after_prefix prefix raw) refl h
  where
    stripped :
        (rest : Option (List ℕ))
        → after_prefix prefix raw ≡ rest
        → elim rest [ none ↦ err no_prefix | some p ↦ ok p ] ≡ ok path
        → has_char c path ≡ false
    stripped none e h' = cc
    stripped (some p) e h' = has_char-suffix c prefix raw path (cc (e, h')) k

-- A path that the check returns is the path that stood in the patch, without its prefix, and safe.
pub safe_patch_path-SafePath :
    (raw : List ℕ) (expected : Option (List ℕ)) {out : List ℕ}
    → safe_patch_path raw expected ≡ ok out
    → SafePath out × (without_prefix expected raw ≡ ok out)
safe_patch_path-SafePath raw expected h =
    let (backslash, nul, chain) = safe_patch_path-tests raw expected h in
    let (path, stripped, checked) = >>=-ok (without_prefix expected raw) checked_path chain in
    let (parts, same_path) = checked_path-parts path checked in
    subst (λ p. SafePath p × (without_prefix expected raw ≡ ok p)) same_path
      (
        record {
          parts = parts;
          no_backslash = without_prefix-suffix b'\\' expected raw stripped backslash;
          no_nul = without_prefix-suffix 0 expected raw stripped nul;
        },
        stripped,
      )
