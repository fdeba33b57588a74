-- ===== src/Ledger/Replay.antt =====
-- What is appended is read back, in order.
use euboulia.Prelude.{
  str_eq, sym, ◌≡◌, refl, ap, ◌∙◌, arith, none, some, List, [], ◌∷◌, ◌++◌, All, ◌<◌, suc, false,
}
use mathlib.Core.List.{append-nil, append_assoc}
use euboulia.Ledger.{err, ◌>>=◌, Bool, Option, String, ok, file, ℕ, Format, Node, Result, append}
use euboulia.Ledger.Read.{
  keep_latest, filter, get_experiment, history, joins, before, lines, ends_line, read_lines, lines,
  read_lines, read_all,
}
use euboulia.Ledger.Write.{append-ok}

module _ {Record : Type 0} (format : Format Record) where
  -- JSON written on one line is read as the record, is not blank and holds no end of a line.
  pub record FormatLaws : Type 0 where
    pub one_line : (r : Record) → All (λ c. ends_line c ≡ false) (format.encode r)
    pub not_blank : (r : Record) → format.is_blank (format.encode r) ≡ false
    pub decode-encode : (r : Record) → format.decode (format.encode r) ≡ some r

  -- The file that holds the records, a line for each.
  text_of : List Record → List ℕ
  text_of [] = []
  text_of (r ∷ rs) = format.encode r ++ (10 ∷ text_of rs)

  text_of-append :
      (rs : List Record) (r : Record)
      → text_of (rs ++ (r ∷ [])) ≡ text_of rs ++ (format.encode r ++ (10 ∷ []))
  unfolding text_of
  text_of-append [] r = refl
  text_of-append (x ∷ rs) r =
      ap (λ xs. format.encode x ++ (10 ∷ xs)) (text_of-append rs r)
      ∙ sym (append_assoc (format.encode x) (10 ∷ text_of rs) (format.encode r ++ (10 ∷ [])))

  joins-plain : (c : ℕ) (cs : List ℕ) → ends_line c ≡ false → joins c cs ≡ false
  unfolding joins
  joins-plain c [] h = refl
  joins-plain c (d ∷ ds) h = ground arith

  lines-line :
      (line rest : List ℕ)
      → All (λ c. ends_line c ≡ false) line
      → lines (line ++ (10 ∷ rest)) ≡ line ∷ lines rest
  unfolding lines joins before
  lines-line [] [] h = refl
  lines-line [] (d ∷ ds) h = refl
  lines-line (c ∷ cs) rest h =
      ground (arith, joins-plain c (cs ++ (10 ∷ rest)) h.0, lines-line cs rest h.1, h.0)

  module _ (laws : FormatLaws) where
    read_lines-text_of :
        (number : ℕ) (rs : List Record) → read_lines format number (lines (text_of rs)) ≡ (rs, none)
    unfolding read_lines text_of lines
    read_lines-text_of number [] = refl
    read_lines-text_of number (r ∷ rs) = simp (
      lines-line (format.encode r) (text_of rs) (laws.one_line r),
      read_lines-text_of (suc number) rs,
      laws.not_blank r,
      laws.decode-encode r,
    )

    read_all-text_of : (rs : List Record) → read_all format (file (text_of rs)) ≡ ok rs
    unfolding read_all
    read_all-text_of rs = rw (read_lines-text_of 1 rs)

    module _ (os_write : ℕ → ℕ → ℕ) where
      -- One append after the other, on a path.
      pub append_all : List Record → Node → Node
      append_all [] node = node
      append_all (r ∷ rs) node = append_all rs (append os_write format r node).1

      module _ (takes : (turn offered : ℕ) → 0 < offered → 0 < os_write turn offered) where
        append_all-text_of :
            (done rs : List Record)
            → append_all rs (file (text_of done)) ≡ file (text_of (done ++ rs))
        unfolding append_all
        append_all-text_of done [] = ap (λ xs. file (text_of xs)) (sym (append-nil done))
        append_all-text_of done (r ∷ rs) =
            ap (λ out. append_all rs out.1) (append-ok os_write takes format r (text_of done))
            ∙ ap (λ xs. append_all rs (file xs)) (sym (text_of-append done r))
            ∙ append_all-text_of (done ++ (r ∷ [])) rs
            ∙ ap (λ xs. file (text_of xs)) (append_assoc done (r ∷ []) rs)

        -- When every write takes something and the format keeps `FormatLaws`, the records that are
        -- appended one by one to an empty file are read back, all of them and in their order.
        pub read_all-append_all :
            (rs : List Record) → read_all format (append_all rs (file [])) ≡ ok rs
        unfolding text_of
        read_all-append_all rs =
            ap (read_all format) (append_all-text_of [] rs) ∙ read_all-text_of rs

module _ {Record : Type 0} (format : Format Record) where
  pub last_of : Option Record → List Record → Option Record
  last_of latest [] = latest
  last_of latest (r ∷ rs) = last_of (some r) rs

  keep_latest-filter :
      (test : Record → Bool) (latest : Option Record) (rs : List Record)
      → keep_latest format test latest rs ≡ last_of latest (filter format test rs)
  unfolding keep_latest filter last_of
  keep_latest-filter test latest [] = refl
  keep_latest-filter test latest (r ∷ rs) =
      ground (arith, keep_latest-filter test latest rs, keep_latest-filter test (some r) rs)

  -- The snapshot that `get` gives for an experiment is the last of its history, and both raise on the
  -- same files.
  pub get_experiment-history :
      (node : Node) (own : String)
      → get_experiment format node own ≡ (history format node own >>= λ rs. ok (last_of none rs))
  unfolding get_experiment history
  get_experiment-history node own = last_read (read_all format node) own
    where
      last_read :
          (records : Result (List Record)) (own : String)
          → (records >>= λ rs.
              ok (keep_latest format (λ r. str_eq (format.experiment_id r) own) none rs))
            ≡ ((records >>= λ rs. ok (filter format (λ r. str_eq (format.experiment_id r) own) rs))
                >>= λ rs. ok (last_of none rs))
      last_read (ok rs) own =
          ap ok (keep_latest-filter (λ r. str_eq (format.experiment_id r) own) none rs)
      last_read (err x) own = refl
