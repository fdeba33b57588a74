-- ===== src/Ledger/Examples.antt =====
-- Examples for the ledgers: records that are numbers, written as one character each.
use euboulia.Prelude.{ap, ◌≡◌, refl, arith, none, some, List, [], ◌∷◌, ℕ, ◌+◌, ◌-◌, Option, false}
use euboulia.Ledger.{ok, ◌>>=◌, file, Format}
use euboulia.Ledger.Read.{read_all, get_experiment, history}
use euboulia.Ledger.Replay.{
  FormatLaws, append_all, read_all-append_all, get_experiment-history, last_of,
}

abbrev read_number : List ℕ → Option ℕ
read_number (c ∷ []) = some (c - 100)
read_number _ = none

abbrev numbers : Format ℕ
numbers = record {
  encode = λ n. (100 + n) ∷ [];
  decode = read_number;
  is_blank = λ line. false;
  strip = λ s. s;
  run_uid = λ n. "run";
  iteration_id = λ n. none;
  experiment_id = λ n. "experiment";
}

numbers_laws : FormatLaws numbers
numbers_laws = record {
  one_line = λ r. (ground arith, tt);
  not_blank = λ r. refl;
  decode-encode = λ r. ap some (omega arith);
}

-- An operating system that takes one character of each write.
abbrev one_by_one : ℕ → ℕ → ℕ
one_by_one turn offered = 1

read_all-append_all_example :
    read_all numbers (append_all numbers numbers_laws one_by_one (4 ∷ 7 ∷ []) (file []))
    ≡ ok (4 ∷ 7 ∷ [])
read_all-append_all_example =
    read_all-append_all numbers numbers_laws one_by_one (λ turn offered h. omega arith) (4 ∷ 7 ∷ [])

get_experiment-history_example :
    get_experiment numbers (file (104 ∷ 10 ∷ 107 ∷ 10 ∷ [])) "experiment" ≡ (
      history numbers (file (104 ∷ 10 ∷ 107 ∷ 10 ∷ [])) "experiment" >>= λ rs.
      ok (last_of numbers none rs))
get_experiment-history_example =
    get_experiment-history numbers (file (104 ∷ 10 ∷ 107 ∷ 10 ∷ [])) "experiment"
