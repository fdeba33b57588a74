-- ===== src/Workspace/Grows.antt =====
-- How the loop over a patch's lines collects the files that the lines name.
use euboulia.Prelude.{
  subst, if-elim, ◌≡◌, refl, sym, subst, arith, Option, none, some, List, [], ◌∷◌, Memᴰ, ℕ, ◌+◌,
  All,
}
use euboulia.Prelude.Equal.{eq_chars→eq}
use euboulia.Prelude.Chars.{codes, eq_chars, lt_chars, after_prefix, split_words, partition}
use euboulia.Workspace.{Result, ok, ◌>>=◌, >>=-ok}
use euboulia.Workspace.Paths.{safe_patch_path}
use euboulia.Workspace.Safe.{SafePath, safe_patch_path-SafePath}
use euboulia.Workspace.Inspect.{
  Tally, add_file, named, diff_header, file_header, moved_file, check_mode, mode_of, count_change,
  other_line, inspect_line, inspect_lines,
}

pub add_file-new : (path : List ℕ) (fs : List (List ℕ)) → Memᴰ path (add_file path fs)
unfolding add_file
add_file-new path [] = Memᴰ.head refl
add_file-new path (f ∷ fs) =
    if-elim (Memᴰ path) (eq_chars path f) _ _ (λ same. Memᴰ.head (eq_chars→eq path f same))
      (λ other.
        if-elim (Memᴰ path) (lt_chars path f) _ _ (λ before. Memᴰ.head refl)
          (λ after. Memᴰ.tail (add_file-new path fs)))

add_file-keeps : (path g : List ℕ) (fs : List (List ℕ)) → Memᴰ g fs → Memᴰ g (add_file path fs)
unfolding add_file
add_file-keeps path g [] m = elim m [ ]
add_file-keeps path g (f ∷ fs) m =
    if-elim (Memᴰ g) (eq_chars path f) _ _ (λ same. m)
      (λ other.
        if-elim (Memᴰ g) (lt_chars path f) _ _ (λ before. Memᴰ.tail m)
          (λ after. behind (λ n. add_file-keeps path g fs n) m))
  where
    behind :
        (Memᴰ g fs → Memᴰ g (add_file path fs)) → Memᴰ g (f ∷ fs) → Memᴰ g (f ∷ add_file path fs)
    behind ih (Memᴰ.head e) = Memᴰ.head e
    behind ih (Memᴰ.tail n) = Memᴰ.tail (ih n)

add_file-All :
    (P : List ℕ → Type 0) (path : List ℕ) (fs : List (List ℕ))
    → P path
    → All P fs
    → All P (add_file path fs)
unfolding add_file
add_file-All P path [] h k = (h, tt)
add_file-All P path (f ∷ fs) h k =
    if-elim (All P) (eq_chars path f) _ _ (λ same. k)
      (λ other.
        if-elim (All P) (lt_chars path f) _ _ (λ before. (h, k))
          (λ after. (k.0, add_file-All P path fs h k.1)))

-- From one line to the next the files only grow, by safe paths.
pub record Grows (t t' : Tally) : Type 0 where
  pub keeps : (f : List ℕ) → Memᴰ f t.files → Memᴰ f t'.files
  pub safe : All SafePath t.files → All SafePath t'.files

pub Grows-refl : (t : Tally) → Grows t t
Grows-refl t = record { keeps = λ f m. m; safe = λ h. h }

pub Grows-trans : {t t' t'' : Tally} → Grows t t' → Grows t' t'' → Grows t t''
Grows-trans g h = record { keeps = λ f m. h.keeps f (g.keeps f m); safe = λ s. h.safe (g.safe s) }

-- A path of a header is among the files from then on.
pub named-ok :
    (expected : Option (List ℕ)) (raw : List ℕ) (t : Tally) {t' : Tally}
    → named expected raw t ≡ ok t'
    → (path : List ℕ) × (safe_patch_path raw expected ≡ ok path)
      × (record t { files = add_file path t.files } ≡ t')
named-ok expected raw t h =
    let (path, found, rest) = >>=-ok (safe_patch_path raw expected) _ h in
    (path, found, grind arith)

pub named-Grows :
    (expected : Option (List ℕ)) (raw : List ℕ) (t : Tally) {t' : Tally}
    → named expected raw t ≡ ok t'
    → Grows t t'
named-Grows expected raw t h =
    let (path, found, made) = named-ok expected raw t h in
    subst (Grows t) made (record {
      keeps = λ f m. add_file-keeps path f t.files m;
      safe =
          λ s. add_file-All SafePath path t.files (safe_patch_path-SafePath raw expected found).0 s;
    })

Grows-step :
    {t : Tally} {t'' : Tally} (first : Result Tally) (next : Tally → Result Tally)
    → ((t' : Tally) → first ≡ ok t' → Grows t t')
    → ((t' : Tally) → next t' ≡ ok t'' → Grows t' t'')
    → (first >>= next) ≡ ok t''
    → Grows t t''
Grows-step first next f g h =
    let (between, one, two) = >>=-ok first next h in Grows-trans (f between one) (g between two)

diff_header-Grows :
    (parts : List (List ℕ)) (t : Tally) {t' : Tally} → diff_header parts t ≡ ok t' → Grows t t'
unfolding diff_header
diff_header-Grows [] t h = cc
diff_header-Grows (a ∷ []) t h = cc
diff_header-Grows (a ∷ (b ∷ [])) t h = cc
diff_header-Grows (a ∷ (b ∷ (old ∷ []))) t h = cc
diff_header-Grows (a ∷ (b ∷ (old ∷ (new ∷ [])))) t h =
    Grows-step (named (some (codes "a/")) old t) (named (some (codes "b/")) new)
      (λ t'. named-Grows (some (codes "a/")) old t) (λ t'. named-Grows (some (codes "b/")) new t') h
diff_header-Grows (a ∷ (b ∷ (old ∷ (new ∷ (c ∷ rest))))) t h = cc

file_header-Grows :
    (prefix rest : List ℕ) (t : Tally) {t' : Tally} → file_header prefix rest t ≡ ok t' → Grows t t'
unfolding file_header
file_header-Grows prefix rest t {t'} =
    if-elim (λ r. r ≡ ok t' → Grows t t') (eq_chars (partition 9 rest).0 (codes "/dev/null")) _ _
      (λ e h. subst (Grows t) (grind arith) (Grows-refl t))
      (λ e h. named-Grows (some prefix) (partition 9 rest).0 t h)

pub moved_file-Grows :
    (prefix line : List ℕ) (t : Tally) {t' : Tally} → moved_file prefix line t ≡ ok t' → Grows t t'
unfolding moved_file
moved_file-Grows prefix line t {t'} = by_prefix (after_prefix prefix line)
  where
    by_prefix :
        (o : Option (List ℕ))
        → elim o [ none ↦ ok t | some raw ↦ named none raw t ] ≡ ok t'
        → Grows t t'
    by_prefix none h = subst (Grows t) (grind arith) (Grows-refl t)
    by_prefix (some raw) h = named-Grows none raw t h

count_change-files : (line : List ℕ) (t : Tally) → (count_change line t).files ≡ t.files
unfolding count_change
count_change-files line t = grind arith

pub count_change-Grows : (line : List ℕ) (t : Tally) → Grows t (count_change line t)
count_change-Grows line t =
    let same = sym (count_change-files line t) in
    record { keeps = λ f m. subst (Memᴰ f) same m; safe = λ s. subst (All SafePath) same s }

pub other_line-Grows :
    (line : List ℕ) (t : Tally) {t' : Tally} → other_line line t ≡ ok t' → Grows t t'
unfolding other_line
other_line-Grows line t =
    Grows-step (moved_file (codes "rename from ") line t) _
      (λ t1. moved_file-Grows (codes "rename from ") line t)
      (λ t1.
        Grows-step (moved_file (codes "copy from ") line t1) _
          (λ t2. moved_file-Grows (codes "copy from ") line t1)
          (λ t2.
            Grows-step (moved_file (codes "rename to ") line t2) _
              (λ t3. moved_file-Grows (codes "rename to ") line t2)
              (λ t3.
                Grows-step (moved_file (codes "copy to ") line t3) _
                  (λ t4. moved_file-Grows (codes "copy to ") line t3) (λ t4 h. counted t4 h))))
  where
    counted :
        (t4 : Tally) {t' : Tally}
        → (check_mode (mode_of line) >>= λ done. ok (count_change line t4)) ≡ ok t'
        → Grows t4 t'
    counted t4 h =
        let (done, passed, made) = >>=-ok (check_mode (mode_of line)) _ h in
        subst (Grows t4) (grind arith) (count_change-Grows line t4)

pub inspect_line-Grows :
    (line : List ℕ) (t : Tally) {t' : Tally} → inspect_line line t ≡ ok t' → Grows t t'
unfolding inspect_line
inspect_line-Grows line t {t'} =
    by_header (after_prefix (codes "diff --git ") line) (after_prefix (codes "--- ") line)
      (after_prefix (codes "+++ ") line)
  where
    by_header :
        (diff old new : Option (List ℕ))
        → elim diff [
          | some rest ↦
              diff_header (split_words line) (record t { diff_headers = t.diff_headers + 1 })
          | none ↦ elim old [
            | some rest ↦ file_header (codes "a/") rest t
            | none ↦ elim new [
              | some rest ↦ file_header (codes "b/") rest t
              | none ↦ other_line line t
            ]
          ]
        ]
          ≡ ok t'
        → Grows t t'
    by_header (some rest) old new h =
        let after =
          diff_header-Grows (split_words line) (record t { diff_headers = t.diff_headers + 1 }) h in
        record { keeps = λ f m. after.keeps f m; safe = λ s. after.safe s }
    by_header none (some rest) new h = file_header-Grows (codes "a/") rest t h
    by_header none none (some rest) h = file_header-Grows (codes "b/") rest t h
    by_header none none none h = other_line-Grows line t h

pub inspect_lines-Grows :
    (lines : List (List ℕ)) (t : Tally) {t' : Tally} → inspect_lines lines t ≡ ok t' → Grows t t'
unfolding inspect_lines
inspect_lines-Grows [] t h = subst (Grows t) (grind arith) (Grows-refl t)
inspect_lines-Grows (line ∷ lines) t h =
    Grows-step (inspect_line line t) (inspect_lines lines) (λ t'. inspect_line-Grows line t)
      (λ t'. inspect_lines-Grows lines t') h
