-- ===== src/Merge.antt =====
-- autopush-common/src/db/bigtable/bigtable_client/merge.rs, with cell.rs and row.rs: the state machine
-- that puts the chunks of a Bigtable stream together to rows. A byte string is a list of numbers;
-- a method that fails ends the whole read, so its state is not kept.
pub mod Chunks
pub mod Steps
pub mod Rows
pub mod Settled
pub mod Cells
use mathlib.Core.List.{reverse}
use autopush_rs.Prelude.{
  ℕ, ◌+◌, ◌^◌, Bool, true, false, not, ◌&&◌, ◌||◌, Option, none, some, List, [], ◌∷◌, ◌++◌, Text,
  codes, ltb, is_empty, is_some, is_none, length, text_eq, text_lt, get, insert, text_key,
  if◌then◌else◌,
}

pub data ReadState : Type 0 where
  row_start cell_start cell_in_progress cell_complete row_complete : ReadState

pub record Cell : Type 0 where
  pub family : Text
  pub qualifier : Text
  pub timestamp : ℕ
  pub labels : List Text
  pub value : Text
  pub value_index : ℕ

abbrev pub PartialCell : Type 0
PartialCell = Cell

pub record PartialRow : Type 0 where
  pub row_key : Text
  pub cells : List (Text × List PartialCell)
  pub last_family : Text
  pub last_collected_cells : List (Text × List Cell)
  pub last_qualifier : Text
  pub cell_in_progress : PartialCell

pub record RowMerger : Type 0 where
  pub state : ReadState
  pub last_seen_row_key : Option Text
  pub last_seen_cell_family : Option Text
  pub row_in_progress : PartialRow

pub record Row : Type 0 where
  pub row_key : Text
  pub cells : List (Text × List Cell)

-- `ReadRowsResponse_CellChunk` of the protocol; a signed number is its bit pattern.
pub data RowStatus : Type 0 where
  no_status : RowStatus
  reset_row commit_row : Bool → RowStatus

pub record CellChunk : Type 0 where
  pub row_key : Text
  pub family_name : Option Text
  pub qualifier : Option Text
  pub timestamp_micros : ℕ
  pub labels : List Text
  pub value : Text
  pub value_size : ℕ
  pub row_status : RowStatus

abbrev pub get_reset_row : CellChunk → Bool
get_reset_row c = elim c.row_status [ reset_row b ↦ b | _ ↦ false ]

abbrev pub has_commit_row : CellChunk → Bool
has_commit_row c = elim c.row_status [ commit_row b ↦ true | _ ↦ false ]

-- `BigTableError::InvalidChunk`, with its text, and `InvalidRowResponse`.
pub data Merged (A : Type 0) : Type 0 where
  merged : A → Merged A
  invalid_chunk : Text → Merged A
  invalid_row_response : Merged A

infixl 5 ◌>>=◌ ◌>>◌
abbrev pub ◌>>=◌ : {A B : Type 0} → Merged A → (A → Merged B) → Merged B
merged a >>= f = f a
invalid_chunk e >>= f = invalid_chunk e
invalid_row_response >>= f = invalid_row_response

abbrev pub ◌>>◌ : {B : Type 0} → Merged (Unit {0}) → Merged B → Merged B
m >> k = m >>= λ _. k

-- `if test { return Err(InvalidChunk(..)) }`.
abbrev pub reject_if : Bool → Text → Merged (Unit {0})
reject_if true e = invalid_chunk e
reject_if false e = merged tt

-- A positive `i32` and `i64`.
abbrev pub positive32 : ℕ → Bool
positive32 n = ltb 0 n && ltb n (2 ^ 31)

abbrev pub positive64 : ℕ → Bool
positive64 n = ltb 0 n && ltb n (2 ^ 63)

-- `default()`, at a time of the clock.
abbrev pub default_cell : ℕ → PartialCell
default_cell now = record {
  family = [];
  qualifier = [];
  timestamp = now;
  labels = [];
  value = [];
  value_index = 0;
}

abbrev pub default_row : ℕ → PartialRow
default_row now = record {
  row_key = [];
  cells = [];
  last_family = [];
  last_collected_cells = [];
  last_qualifier = [];
  cell_in_progress = default_cell now;
}

abbrev pub default_merger : ℕ → RowMerger
default_merger now = record {
  state = row_start;
  last_seen_row_key = none;
  last_seen_cell_family = none;
  row_in_progress = default_row now;
}

abbrev pub is_in : ReadState → ReadState → Bool
is_in row_start row_start = true
is_in cell_start cell_start = true
is_in cell_in_progress cell_in_progress = true
is_in cell_complete cell_complete = true
is_in row_complete row_complete = true
is_in _ _ = false

unfoldable pub reset : ℕ → RowMerger → CellChunk → Merged RowMerger
reset now m chunk = do
  reject_if (is_in row_start m.state) (codes "Bare Reset")
  reject_if (not (is_empty chunk.row_key)) (codes "Reset chunk has a row key")
  reject_if (is_some chunk.family_name) (codes "Reset chunk has a family_name")
  reject_if (is_some chunk.qualifier) (codes "Reset chunk has a qualifier")
  reject_if (positive64 chunk.timestamp_micros) (codes "Reset chunk has a timestamp")
  reject_if (not (is_empty chunk.labels)) (codes "Reset chunk has a labels")
  reject_if (not (is_empty chunk.value)) (codes "Reset chunk has value")
  merged (record m { state = row_start; row_in_progress = default_row now })

-- `last_key >= chunk.row_key`, on the bytes.
abbrev pub out_of_order : Option Text → Text → Bool
out_of_order none key = false
out_of_order (some last) key = not (text_lt last key)

abbrev pub or_last : Option Text → Option Text → Option Text
or_last none last = last
or_last (some f) last = some f

abbrev pub text_or_default : Option Text → Text
text_or_default none = []
text_or_default (some t) = t

-- A key that changes in the middle of a row is noticed once the row has a cell.
abbrev pub key_changed : PartialRow → CellChunk → Bool
key_changed row chunk =
    not (is_empty row.cells)
    && not (is_empty chunk.row_key)
    && not (text_eq chunk.row_key row.row_key)

abbrev pub chunk_end : Bool → ReadState
chunk_end true = cell_in_progress
chunk_end false = cell_complete

-- `{:?}`.
abbrev pub state_name : ReadState → Text
state_name row_start = codes "RowStart"
state_name cell_start = codes "CellStart"
state_name cell_in_progress = codes "CellInProgress"
state_name cell_complete = codes "CellComplete"
state_name row_complete = codes "RowComplete"
