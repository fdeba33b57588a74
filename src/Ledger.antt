-- ===== src/Ledger.antt =====
-- The append-only JSONL files: `EventLedger` of optimization/events.py and `ExperimentLedger` of
-- ledger.py, which append and iterate by the same code. A file is the list of its characters.
pub mod Read
pub mod Write
pub mod Replay
mod Examples
use euboulia.Prelude.{zero, String, Bool, Option, List, [], ◌∷◌, ◌++◌, ℕ, suc, length}

-- How a record is written as one line of JSON, and what the readers see of it.
pub record Format (Record : Type 0) : Type 0 where
  pub encode : Record → List ℕ  -- to_json
  pub decode : List ℕ → Option Record  -- from_json, with none for the errors that it raises
  pub is_blank : List ℕ → Bool  -- not line.strip()
  pub strip : String → String
  pub run_uid : Record → String
  pub iteration_id : Record → Option String
  pub experiment_id : Record → String

pub data Node : Type 0 where
  missing : Node
  directory : Node
  file : List ℕ → Node

pub data Failure : Type 0 where
  short_write not_a_file empty_argument out_of_fuel : Failure
  corrupt : ℕ → Failure

pub data Result {ℓ} (A : Type ℓ) : Type ℓ where
  ok : A → Result A
  err : Failure → Result A

infixl 5 ◌>>=◌
abbrev pub ◌>>=◌ {ℓ κ} : {A : Type ℓ} {B : Type κ} → Result A → (A → Result B) → Result B
err failure >>= next = err failure
ok value >>= next = next value

-- payload[:n] and payload[n:]
unfoldable pub split_at : ℕ → List ℕ → List ℕ × List ℕ
split_at zero xs = ([], xs)
split_at (suc n) [] = ([], [])
split_at (suc n) (x ∷ xs) = let (taken, rest) = split_at n xs in (x ∷ taken, rest)

module _ (os_write : ℕ → ℕ → ℕ) where
  -- The loop over os.write, which takes as many of the characters offered as it says: `os_write` of the
  -- number of the call and of their number. Neither it nor the calls around it raise here. On fuel.
  unfoldable pub write_loop : ℕ → ℕ → List ℕ → List ℕ → Result (Unit {0}) × List ℕ
  unfolding split_at
  write_loop fuel turn [] contents = (ok tt, contents)
  write_loop zero turn (c ∷ cs) contents = (err out_of_fuel, contents)
  write_loop (suc fuel) turn (c ∷ cs) contents =
      let count = os_write turn (length (c ∷ cs)) in
      let (taken, rest) = split_at count (c ∷ cs) in
      let later = write_loop fuel (suc turn) rest (contents ++ taken) in
      elim count [ zero ↦ (err short_write, contents) | suc n ↦ later ]

  as_file : Result (Unit {0}) × List ℕ → Result (Unit {0}) × Node
  as_file (outcome, contents) = (outcome, file contents)

  -- One round for each character is enough.
  write_line : List ℕ → List ℕ → Result (Unit {0}) × Node
  unfolding write_loop as_file
  write_line payload contents = as_file (write_loop (length payload) 0 payload contents)

  module _ {Record : Type 0} (format : Format Record) where
    -- append; a directory cannot be opened for writing
    unfoldable pub append : Record → Node → Result (Unit {0}) × Node
    unfolding write_line as_file
    append r missing = write_line (format.encode r ++ (10 ∷ [])) []
    append r (file contents) = write_line (format.encode r ++ (10 ∷ [])) contents
    append r directory = (err not_a_file, directory)
