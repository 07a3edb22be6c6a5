-- ===== src/Bigtable/Cells.antt =====
-- bigtable_client/row.rs: what is taken from a row that was read, whose cells are filed by their
-- columns, and put into one to write, whose cells are filed by their families.
use autopush_rs.Prelude.{
  ℕ, Option, none, some, List, [], ◌∷◌, ◌++◌, Text, codes, get, insert, remove, text_key,
}
use autopush_rs.Protocol.{DbError, integrity}
use autopush_rs.Services.{Result, ok, err}
use autopush_rs.Merge.{Cell, Row}
use autopush_rs.Bigtable.Bytes.{to_u64, to_string}

-- A method on a row: an error, or a result and the rest of the row.
abbrev pub Take : Type 0 → Type 0
Take A = Row → Result DbError (A × Row)

infixl 5 ◌>>=◌
abbrev pub and_then :
    {A B : Type 0} → Result DbError (A × Row) → (A → Take B) → Result DbError (B × Row)
and_then (ok (a, row)) f = f a row
and_then (err e) f = err e

abbrev pub ◌>>=◌ : {A B : Type 0} → Take A → (A → Take B) → Take B
◌>>=◌ m f row = and_then (m row) f

abbrev pub return : {A : Type 0} → A → Take A
return a row = ok (a, row)

abbrev pub lift : {A : Type 0} → Result DbError A → Take A
lift (ok a) row = ok (a, row)
lift (err e) row = err e

-- `Row::new`.
abbrev pub new : Text → Row
new row_key = record { row_key = row_key; cells = [] }

-- `Vec::pop`, without what is left.
abbrev pub last : {A : Type 0} → List A → Option A
last [] = none
last (x ∷ xs) = let rest = last xs in elim rest [ none ↦ some x | some y ↦ some y ]

unfoldable pub take_cells : Text → Row → Option (List Cell) × Row
take_cells column row = (get column row.cells, record row { cells = remove column row.cells })

unfoldable pub take_cell : Text → Row → Option Cell × Row
unfolding take_cells
take_cell column row =
    let (cells, row') = take_cells column row in
    (elim cells [ none ↦ none | some cs ↦ last cs ], row')

abbrev pub or_missing : Text → Option Cell × Row → Result DbError (Cell × Row)
or_missing column (none, row) = err (integrity (codes "Expected column: " ++ column))
or_missing column (some cell, row) = ok (cell, row)

unfoldable pub take_required_cell : Text → Take Cell
unfolding take_cell
take_required_cell column row = or_missing column (take_cell column row)

unfoldable pub add_cells : Text → List Cell → Row → Row
add_cells family cells row = record row { cells = insert family cells row.cells }

-- The values of a column that has to be there, and of one that may be.
unfoldable pub required_u64 : Text → Take ℕ
unfolding take_required_cell to_u64
required_u64 column = do cell ← take_required_cell column; lift (to_u64 cell.value column)

unfoldable pub required_string : Text → Take Text
unfolding take_required_cell to_string
required_string column = do cell ← take_required_cell column; lift (to_string cell.value column)

abbrev pub some_of : {A : Type 0} → Result DbError A → Result DbError (Option A)
some_of (ok a) = ok (some a)
some_of (err e) = err e

abbrev pub optional : {A : Type 0} → Text → (Text → Result DbError A) → Take (Option A)
optional column of_value row =
    let (cell, row') = take_cell column row in
    lift (elim cell [ none ↦ ok none | some c ↦ some_of (of_value c.value) ]) row'
