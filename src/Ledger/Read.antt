-- ===== src/Ledger/Read.antt =====
-- The readers of the two ledgers.
use euboulia.Prelude.{
  leb, String, Bool, true, false, Option, none, some, List, [], ◌∷◌, str_eq, if◌then◌else◌, ℕ, suc,
  ◌&&◌,
}
use euboulia.Ledger.{
  directory, missing, file, corrupt, empty_argument, not_a_file, err, ok, ◌>>=◌, Format, Node,
  Result,
}

-- A text file's lines, in universal newline mode, without their ends.
abbrev pub ends_line : ℕ → Bool
ends_line c = if is_code c 10 then true else is_code c 13
  where
    is_code : ℕ → ℕ → Bool
    is_code a b = leb a b && leb b a

unfoldable pub before : ℕ → List (List ℕ) → List (List ℕ)
before c [] = (c ∷ []) ∷ []
before c (line ∷ lines) = (c ∷ line) ∷ lines

-- A carriage return just before a line feed is part of the same end.
unfoldable pub joins : ℕ → List ℕ → Bool
joins c [] = false
joins c (d ∷ ds) = leb 13 c && (leb c 13 && (leb 10 d && leb d 10))

unfoldable pub lines : List ℕ → List (List ℕ)
unfolding before joins
lines [] = []
lines (c ∷ cs) =
    let later = lines cs in
    if joins c cs then later else if ends_line c then [] ∷ later else before c later

module _ {Record : Type 0} (format : Format Record) where
  -- The records that an iterator yields, and the line on which it raises, if it does.
  unfoldable pub read_lines : ℕ → List (List ℕ) → List Record × Option ℕ
  read_lines number [] = ([], none)
  read_lines number (line ∷ rest) =
      let (records, bad) = read_lines (suc number) rest in
      if format.is_blank line
      then (records, bad)
      else elim (format.decode line) [ none ↦ ([], some number) | some r ↦ (r ∷ records, bad) ]

  consumed : List Record × Option ℕ → Result (List Record)
  consumed (records, none) = ok records
  consumed (records, some number) = err (corrupt number)

  -- list(self.iter_events())
  unfoldable pub read_all : Node → Result (List Record)
  unfolding read_lines consumed lines
  read_all missing = ok []
  read_all directory = err not_a_file
  read_all (file contents) = consumed (read_lines 1 (lines contents))

  unfoldable pub filter : (Record → Bool) → List Record → List Record
  filter test [] = []
  filter test (r ∷ rs) = let rest = filter test rs in if test r then r ∷ rest else rest

  -- The loop that keeps the last record that passes a test, from the one before.
  unfoldable pub keep_latest : (Record → Bool) → Option Record → List Record → Option Record
  keep_latest test latest [] = latest
  keep_latest test latest (r ∷ rs) = keep_latest test (if test r then some r else latest) rs

  nonempty_text : String → Result String
  nonempty_text s = if str_eq (format.strip s) "" then err empty_argument else ok (format.strip s)

  unfoldable pub by_run : Node → String → Result (List Record)
  unfolding nonempty_text read_all filter
  by_run node run = do
    selected ← nonempty_text run
    records ← read_all node
    ok (filter (λ r. str_eq (format.run_uid r) selected) records)

  is_option : Option String → String → Bool
  is_option none s = false
  is_option (some own) s = str_eq own s

  unfoldable pub by_iteration : Node → String → String → Result (List Record)
  unfolding nonempty_text by_run is_option filter
  by_iteration node run iteration = do
    selected ← nonempty_text iteration
    records ← by_run node run
    ok (filter (λ r. is_option (format.iteration_id r) selected) records)

  -- run_uid is None or event.run_uid == run_uid
  of_run : Option String → Record → Bool
  of_run none r = true
  of_run (some run) r = str_eq (format.run_uid r) run

  unfoldable pub latest_event : Node → Option String → Result (Option Record)
  unfolding read_all keep_latest of_run
  latest_event node run = read_all node >>= λ records. ok (keep_latest (of_run run) none records)

  unfoldable pub history : Node → String → Result (List Record)
  unfolding read_all filter
  history node own =
      read_all node >>= λ records. ok (filter (λ r. str_eq (format.experiment_id r) own) records)

  unfoldable pub get_experiment : Node → String → Result (Option Record)
  unfolding read_all keep_latest
  get_experiment node own = read_all node >>= λ records.
      ok (keep_latest (λ r. str_eq (format.experiment_id r) own) none records)

  unfoldable pub latest_experiment : Node → Result (Option Record)
  unfolding read_all keep_latest
  latest_experiment node = read_all node >>= λ records. ok (keep_latest (λ r. true) none records)
