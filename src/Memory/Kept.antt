-- ===== src/Memory/Kept.antt =====
-- Ids stand once in a table, and an entry that is recorded can be read.
use euboulia.Prelude.{
  inr, inl, ◌⊎◌, ◌≡◌, ◌≢◌, ◌∙◌, refl, sym, ap, subst, arith, Bool, true, false, some, List, [], ◌∷◌,
  ◌++◌, Memᴰ, String, str_eq, eq_iff, All, All-implies, All-append, if◌then◌else◌, if-elim,
}
use euboulia.Memory.{MemoryEntry, Row, Library}
use euboulia.Memory.Store.{
  transaction, Result, ok, conflict, shares_id, matching, is_empty, row_of, found_same, insert,
  record_entry,
}

module _ {Leaf Float : Type 0} (L : Library Leaf Float)
    (Valid : MemoryEntry Leaf Float → Type 0) where
  -- An entry that the constructor lets through is read as it was written, and one of the rows that are found is given.
  pub record LibraryLaws : Type 1 where
    pub from_json-to_json :
        (e : MemoryEntry Leaf Float) → Valid e → L.from_json (L.to_json e) ≡ some e
    pub fetchone-one :
        (P : Row Leaf Float → Type 0) (row : Row Leaf Float) (rows : List (Row Leaf Float))
        → All P (row ∷ rows)
        → (found : Row Leaf Float) × (L.fetchone (row ∷ rows) ≡ some found) × P found

  -- Rows that share neither id.
  pub record Apart (a b : Row Leaf Float) : Type 0 where
    pub memory_ids : str_eq a.columns.memory_id b.columns.memory_id ≡ false
    pub outcome_ids : str_eq a.columns.outcome_id b.columns.outcome_id ≡ false

  -- A table in which each id stands once and each row has the JSON of its columns.
  unfoldable pub Unique : List (Row Leaf Float) → Type 0
  Unique [] = Unit
  Unique (row ∷ rows) =
      ((row.entry_json ≡ L.to_json row.columns) × Valid row.columns)
      × All (Apart row) rows
      × Unique rows

  is_empty-Apart :
      (e : MemoryEntry Leaf Float) (rows : List (Row Leaf Float))
      → is_empty (matching e rows) ≡ true
      → All (λ row. Apart row (row_of L e)) rows
  unfolding matching
  is_empty-Apart e [] h = tt
  is_empty-Apart e (row ∷ rows) h = (
    record { memory_ids = grind arith; outcome_ids = grind arith },
    is_empty-Apart e rows (grind arith),
  )

  Apart-append :
      (row new : Row Leaf Float) (rows : List (Row Leaf Float))
      → All (Apart row) rows
      → Apart row new
      → All (Apart row) (rows ++ (new ∷ []))
  Apart-append row new rows h k = All-append (Apart row) rows new h k

  Unique-append :
      (e : MemoryEntry Leaf Float) (rows : List (Row Leaf Float))
      → Valid e
      → Unique rows
      → All (λ row. Apart row (row_of L e)) rows
      → Unique (rows ++ (row_of L e ∷ []))
  unfolding Unique
  Unique-append e [] v u a = ((refl, v), tt, tt)
  Unique-append e (row ∷ rows) v u a =
      (u.0, Apart-append row (row_of L e) rows u.1 a.0, Unique-append e rows v u.2 a.1)

  same_text : (a : String) → str_eq a a ≡ true
  same_text a = ground (arith, eq_iff a a)

  str_eq_sym : (a b : String) → str_eq a b ≡ str_eq b a
  str_eq_sym a b = ground (arith, eq_iff a b, eq_iff b a)

  -- Rows that are apart from an entry's row are not among those that share an id with it.
  Apart-shares_id :
      (e : MemoryEntry Leaf Float) (row : Row Leaf Float)
      → Apart row (row_of L e)
      → shares_id e row ≡ false
  Apart-shares_id e row a =
      let memory_ids = a.memory_ids in let outcome_ids = a.outcome_ids in ground arith

  Apart-sym : (a b : Row Leaf Float) → Apart a b → Apart b a
  Apart-sym a b h = record {
    memory_ids = str_eq_sym b.columns.memory_id a.columns.memory_id ∙ h.memory_ids;
    outcome_ids = str_eq_sym b.columns.outcome_id a.columns.outcome_id ∙ h.outcome_ids;
  }

  passed_over :
      (P : Row Leaf Float → Type 0) (e : MemoryEntry Leaf Float) (row : Row Leaf Float)
      (rest : List (Row Leaf Float))
      → Apart row (row_of L e)
      → All P rest
      → All P (if shares_id e row then row ∷ rest else rest)
  passed_over P e row rest a h =
      if-elim (All P) (shares_id e row) (row ∷ rest) rest
        (λ shared. cc (shared, Apart-shares_id e row a)) (λ apart. h)

  matching-Apart :
      (P : Row Leaf Float → Type 0) (e : MemoryEntry Leaf Float) (rows : List (Row Leaf Float))
      → All (Apart (row_of L e)) rows
      → All P (matching e rows)
  unfolding matching
  matching-Apart P e [] a = tt
  matching-Apart P e (row ∷ rows) a =
      passed_over P e row (matching e rows) (Apart-sym (row_of L e) row a.0)
        (matching-Apart P e rows a.1)

  All-Memᴰ-at :
      (P : Row Leaf Float → Type 0) (row : Row Leaf Float) (rows : List (Row Leaf Float))
      → All P rows
      → Memᴰ row rows
      → P row
  All-Memᴰ-at P row [] h m = elim m [ ]
  All-Memᴰ-at P row (r ∷ rows) h (Memᴰ.head e) = subst P (sym e) h.0
  All-Memᴰ-at P row (r ∷ rows) h (Memᴰ.tail m) = All-Memᴰ-at P row rows h.1 m

  -- Where the row of an entry stands, every row that shares an id with it is that row.
  matching-stored :
      (e : MemoryEntry Leaf Float) (rows : List (Row Leaf Float))
      → Unique rows
      → Memᴰ (row_of L e) rows
      → All (λ row. row ≡ row_of L e) (matching e rows)
  unfolding Unique matching
  matching-stored e [] u m = elim m [ ]
  matching-stored e (row ∷ rows) u (Memᴰ.head same) =
      let later =
        matching-Apart (λ r. r ≡ row_of L e) e rows
          (subst (λ r. All (Apart r) rows) (sym same) u.1) in
      if-elim (All (λ r. r ≡ row_of L e)) (shares_id e row) (row ∷ matching e rows)
        (matching e rows) (λ shared. (sym same, later)) (λ other. later)
  matching-stored e (row ∷ rows) u (Memᴰ.tail m) =
      passed_over (λ r. r ≡ row_of L e) e row (matching e rows)
        (All-Memᴰ-at (Apart row) (row_of L e) rows u.1 m) (matching-stored e rows u.2 m)

  matching-Memᴰ :
      (e : MemoryEntry Leaf Float) (rows : List (Row Leaf Float))
      → All (λ row. Memᴰ row rows) (matching e rows)
  unfolding matching
  matching-Memᴰ e [] = tt
  matching-Memᴰ e (row ∷ rows) =
      let later = All-implies (matching e rows) (λ r m. Memᴰ.tail m) (matching-Memᴰ e rows) in
      if-elim (All (λ r. Memᴰ r (row ∷ rows))) (shares_id e row) (row ∷ matching e rows)
        (matching e rows) (λ shared. (Memᴰ.head refl, later)) (λ other. later)

  faithful :
      (rows : List (Row Leaf Float)) (row : Row Leaf Float)
      → Unique rows
      → Memᴰ row rows
      → (row.entry_json ≡ L.to_json row.columns) × Valid row.columns
  unfolding Unique
  faithful [] row u m = elim m [ ]
  faithful (r ∷ rows) row u (Memᴰ.head e) =
      subst (λ x. (x.entry_json ≡ L.to_json x.columns) × Valid x.columns) (sym e) u.0
  faithful (r ∷ rows) row u (Memᴰ.tail m) = faithful rows row u.2 m

  same_json : (a b : String) → str_eq a b ≡ true → a ≡ b
  same_json a b h = ground (arith, eq_iff a b)

  differ : (a b : String) → str_eq a b ≡ false → a ≢ b
  differ a b h e = cc (h, ap (λ x. str_eq x b) e, same_text b)

  All-with :
      (Q R : Row Leaf Float → Type 0) {M : Type 0} (xs : List (Row Leaf Float))
      → All Q xs
      → (M → All R xs)
      → All (λ x. Q x × (M → R x)) xs
  All-with Q R [] h k = tt
  All-with Q R (x ∷ xs) h k = ((h.0, λ m. (k m).0), All-with Q R xs h.1 (λ m. (k m).1))

  -- What recording an entry does to a table: it adds the row of an entry whose ids are free, keeps
  -- the table if the row is there, and raises if an id is taken by anything else.
  pub Recorded :
      MemoryEntry Leaf Float
      → List (Row Leaf Float)
      → Result (MemoryEntry Leaf Float) × List (Row Leaf Float)
      → Type 0
  Recorded e rows result =
      (All (λ row. Apart row (row_of L e)) rows × (result ≡ (ok e, rows ++ (row_of L e ∷ []))))
      ⊎ (Memᴰ (row_of L e) rows × (result ≡ (ok e, rows)))
      ⊎ (¬ (Memᴰ (row_of L e) rows) × (result ≡ (conflict, rows)))

  module _ (laws : LibraryLaws) where
    to_json_inj :
        (a b : MemoryEntry Leaf Float) → Valid a → Valid b → L.to_json a ≡ L.to_json b → a ≡ b
    to_json_inj a b va vb h =
        some_inj
          (sym (laws.from_json-to_json a va) ∙ ap L.from_json h ∙ laws.from_json-to_json b vb)
      where
        some_inj : {x y : MemoryEntry Leaf Float} → some x ≡ some y → x ≡ y
        some_inj e = cc

    found-Recorded :
        (e : MemoryEntry Leaf Float) (rows : List (Row Leaf Float)) (found : Row Leaf Float)
        → Valid e
        → Unique rows
        → Memᴰ found rows
        → (Memᴰ (row_of L e) rows → found ≡ row_of L e)
        → Recorded e rows (transaction L e rows (found_same L e rows (some found)))
    unfolding Recorded found_same
    found-Recorded e rows found v u m only = by_same (str_eq found.entry_json (L.to_json e)) refl
      where
        by_same :
            (b : Bool)
            → str_eq found.entry_json (L.to_json e) ≡ b
            → Recorded e rows (transaction L e rows (if b then ok rows else conflict))
        by_same true same =
            let json = same_json found.entry_json (L.to_json e) same in
            let (own, valid) = faithful rows found u m in
            let columns = to_json_inj found.columns e valid v (sym own ∙ json) in
            let row =
              ap (λ j. record { columns = found.columns; entry_json = j }) own
              ∙ ap (row_of L) columns in
            inr (inl (subst (λ r. Memᴰ r rows) row m, refl))
        by_same false other = inr (
            inr (
              (λ stored.
                  differ found.entry_json (L.to_json e) other
                    (ap (λ r. r.entry_json) (only stored))),
              refl,
            ))

    recorded :
        (e : MemoryEntry Leaf Float) (rows : List (Row Leaf Float))
        → Valid e
        → Unique rows
        → Recorded e rows (record_entry L e rows)
    unfolding record_entry insert Recorded
    recorded e rows v u =
        by_match (matching e rows) (is_empty-Apart e rows) (matching-Memᴰ e rows)
          (matching-stored e rows u)
      where
        by_match :
            (found : List (Row Leaf Float))
            → (is_empty found ≡ true → All (λ row. Apart row (row_of L e)) rows)
            → All (λ row. Memᴰ row rows) found
            → (Memᴰ (row_of L e) rows → All (λ row. row ≡ row_of L e) found)
            → Recorded e rows (
                transaction L e rows (
                  if is_empty found
                  then ok (rows ++ (row_of L e ∷ []))
                  else found_same L e rows (L.fetchone found)))
        by_match [] fresh members only = inl (fresh refl, refl)
        by_match (r ∷ rs) fresh members only =
            let (found, given, both) =
              laws.fetchone-one (λ x. Memᴰ x rows × (Memᴰ (row_of L e) rows → x ≡ row_of L e)) r rs
                (All-with (λ x. Memᴰ x rows) (λ x. x ≡ row_of L e) (r ∷ rs) members only) in
            subst (λ o. Recorded e rows (transaction L e rows (found_same L e rows o))) (sym given)
              (found-Recorded e rows found v u both.0 both.1)

    Recorded-Unique :
        (e : MemoryEntry Leaf Float) (rows : List (Row Leaf Float))
        (result : Result (MemoryEntry Leaf Float) × List (Row Leaf Float))
        → Valid e
        → Unique rows
        → Recorded e rows result
        → Unique result.1
    unfolding Recorded
    Recorded-Unique e rows result v u (inl (fresh, made)) =
        subst (λ r. Unique r.1) (sym made) (Unique-append e rows v u fresh)
    Recorded-Unique e rows result v u (inr (inl (stored, made))) =
        subst (λ r. Unique r.1) (sym made) u
    Recorded-Unique e rows result v u (inr (inr (taken, made))) =
        subst (λ r. Unique r.1) (sym made) u

    -- Where valid entries are read as they were written, and whichever of the rows it finds SQLite
    -- gives: in a table in which each id stands once, recording a valid entry adds its row if both ids
    -- are free, keeps the table if that very entry stands there, and otherwise raises and keeps the
    -- table; and each id still stands once.
    pub record_entry-Recorded :
        (e : MemoryEntry Leaf Float) (rows : List (Row Leaf Float))
        → Valid e
        → Unique rows
        → Recorded e rows (record_entry L e rows) × Unique (record_entry L e rows).1
    record_entry-Recorded e rows v u = (
      recorded e rows v u,
      Recorded-Unique e rows (record_entry L e rows) v u (recorded e rows v u),
    )
