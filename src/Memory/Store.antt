-- ===== src/Memory/Store.antt =====
-- `record`, `_insert`, `get`, `rebuild`, `clear` and `__len__` of `SQLiteMemoryStore`.
use euboulia.Prelude.{
  Bool, true, false, ◌||◌, Option, none, some, List, [], ◌∷◌, ◌++◌, ℕ, String, str_eq, length,
  if◌then◌else◌,
}
use euboulia.Memory.{MemoryEntry, Row, Library}

-- MemoryConflictError
pub data Result {ℓ} (A : Type ℓ) : Type ℓ where
  ok : A → Result A
  conflict : Result A

infixl 5 ◌>>=◌
abbrev pub ◌>>=◌ {ℓ κ} : {A : Type ℓ} {B : Type κ} → Result A → (A → Result B) → Result B
conflict >>= next = conflict
ok value >>= next = next value

module _ {Leaf Float : Type 0} where
  -- WHERE memory_id = ? OR outcome_id = ?
  abbrev pub shares_id : MemoryEntry Leaf Float → Row Leaf Float → Bool
  shares_id e row =
      str_eq row.columns.memory_id e.memory_id || str_eq row.columns.outcome_id e.outcome_id

  unfoldable pub matching : MemoryEntry Leaf Float → List (Row Leaf Float) → List (Row Leaf Float)
  matching e [] = []
  matching e (row ∷ rows) =
      let rest = matching e rows in if shares_id e row then row ∷ rest else rest

  abbrev pub is_empty : List (Row Leaf Float) → Bool
  is_empty [] = true
  is_empty (row ∷ rows) = false

module _ {Leaf Float : Type 0} (L : Library Leaf Float) where
  abbrev pub row_of : MemoryEntry Leaf Float → Row Leaf Float
  row_of e = record { columns = e; entry_json = L.to_json e }

  -- The row that is found is compared with what should have been inserted.
  unfoldable pub found_same :
      MemoryEntry Leaf Float
      → List (Row Leaf Float)
      → Option (Row Leaf Float)
      → Result (List (Row Leaf Float))
  found_same e rows none = conflict
  found_same e rows (some row) = if str_eq row.entry_json (L.to_json e) then ok rows else conflict

  -- `_insert`: INSERT OR IGNORE passes over an entry one of whose ids is taken.
  unfoldable pub insert :
      MemoryEntry Leaf Float → List (Row Leaf Float) → Result (List (Row Leaf Float))
  unfolding matching found_same
  insert e rows =
      if is_empty (matching e rows)
      then ok (rows ++ (row_of e ∷ []))
      else found_same e rows (L.fetchone (matching e rows))

  unfoldable pub insert_all :
      List (MemoryEntry Leaf Float) → List (Row Leaf Float) → Result (List (Row Leaf Float))
  unfolding insert
  insert_all [] rows = ok rows
  insert_all (e ∷ es) rows = insert e rows >>= insert_all es

  -- A transaction that raises leaves the table as it was.
  abbrev pub transaction {ℓ} :
      {A : Type ℓ}
      → A
      → List (Row Leaf Float)
      → Result (List (Row Leaf Float))
      → Result A × List (Row Leaf Float)
  transaction answer rows conflict = (conflict, rows)
  transaction answer rows (ok rows') = (ok answer, rows')

  unfoldable pub record_entry :
      MemoryEntry Leaf Float
      → List (Row Leaf Float)
      → Result (MemoryEntry Leaf Float) × List (Row Leaf Float)
  unfolding insert
  record_entry e rows = transaction e rows (insert e rows)

  unfoldable pub rebuild :
      List (MemoryEntry Leaf Float) → List (Row Leaf Float) → Result ℕ × List (Row Leaf Float)
  unfolding insert_all
  rebuild es rows = transaction (length es) rows (insert_all es [])

  unfoldable pub with_id : String → List (Row Leaf Float) → List (Row Leaf Float)
  with_id memory_id [] = []
  with_id memory_id (row ∷ rows) =
      let rest = with_id memory_id rows in
      if str_eq row.columns.memory_id memory_id then row ∷ rest else rest

  abbrev read_row : Option (Row Leaf Float) → Option (MemoryEntry Leaf Float)
  read_row none = none
  read_row (some row) = L.from_json row.entry_json

  unfoldable pub get : String → List (Row Leaf Float) → Option (MemoryEntry Leaf Float)
  unfolding with_id
  get memory_id rows = read_row (L.fetchone (with_id memory_id rows))

abbrev pub clear : {Leaf Float : Type 0} → List (Row Leaf Float) → List (Row Leaf Float)
clear rows = []
