-- ===== src/Merge/Chunks.antt =====
-- The handling of a chunk in each state of `RowMerger`, and `process_chunks` over a whole stream.
-- `SystemTime::now()` is read once for a chunk.
use mathlib.Core.List.{reverse}
use autopush_rs.Prelude.{
  ℕ, not, Option, none, some, List, [], ◌∷◌, ◌++◌, Text, codes, ltb, is_empty, is_some, length,
  text_eq, text_lt, get, insert, text_key, add64, from_utf8, if◌then◌else◌,
}
use autopush_rs.Merge.{
  ReadState, row_start, cell_start, cell_in_progress, cell_complete, row_complete, Cell,
  PartialCell, PartialRow, RowMerger, Row, CellChunk, get_reset_row, has_commit_row, Merged, merged,
  invalid_chunk, invalid_row_response, ◌>>=◌, ◌>>◌, reject_if, positive32, positive64, default_cell,
  default_row, default_merger, is_in, state_name, reset, out_of_order, or_last, text_or_default,
  key_changed, chunk_end,
}

-- A step keeps the merger and the chunk, from which parts are taken.
abbrev pub Step : Type 0
Step = Merged (RowMerger × CellChunk)

-- What `row_start` leaves.
abbrev pub start_row : ℕ → RowMerger → CellChunk → RowMerger
start_row now m chunk = record m {
  state = cell_start;
  last_seen_cell_family = or_last chunk.family_name m.last_seen_cell_family;
  row_in_progress = record (m.row_in_progress) {
    row_key = text_or_default (from_utf8 chunk.row_key);
    cell_in_progress = default_cell now;
  };
}

unfoldable pub start : ℕ → RowMerger → CellChunk → Step
start now m chunk = do
  reject_if (is_empty chunk.row_key) (codes "New row is missing a row key")
  reject_if (out_of_order m.last_seen_row_key chunk.row_key) (codes "Out of order row keys")
  merged (start_row now m chunk, chunk)

-- The cell that `cell_start` fills, for a family and a qualifier.
abbrev pub fill_cell : Text → Text → CellChunk → PartialCell → PartialCell
fill_cell family qualifier chunk cell = record cell {
  family = family;
  qualifier = text_or_default (from_utf8 qualifier);
  timestamp = chunk.timestamp_micros;
  labels = cell.labels ++ reverse chunk.labels;
  value = if positive32 chunk.value_size then [] else cell.value ++ chunk.value;
}

abbrev pub in_cell : ReadState → PartialCell → RowMerger → RowMerger
in_cell state cell m = record m {
  state = state;
  row_in_progress = record (m.row_in_progress) { cell_in_progress = cell };
}

-- `take_qualifier`, `take_family_name` and `take_labels`.
abbrev pub take_header : CellChunk → CellChunk
take_header chunk = record chunk { family_name = none; qualifier = none; labels = [] }

unfoldable pub start_cell : RowMerger → CellChunk → Step
start_cell m chunk = elim chunk.qualifier [
  | none ↦ merged (record m { state = cell_complete }, chunk)
  | some qualifier ↦ do
    reject_if (key_changed m.row_in_progress chunk) (codes "Row key changed mid row")
    elim (or_last chunk.family_name m.last_seen_cell_family) [
      | none ↦ invalid_chunk (codes "Cell missing family for new cell")
      | some family ↦ merged (
        in_cell (chunk_end (positive32 chunk.value_size))
            (fill_cell family qualifier chunk m.row_in_progress.cell_in_progress) m,
        take_header chunk,
      )
    ]
]

-- The tests of `cell_in_progress` on a chunk that goes on with a value. The last one is the
-- source's own: it refuses a chunk that has no labels.
unfoldable pub gauntlet : CellChunk → Merged (Unit {0})
gauntlet chunk = do
  reject_if (not (is_empty chunk.row_key)) (codes "Found row key mid cell")
  reject_if (is_some chunk.family_name) (codes "Found family name mid cell")
  reject_if (is_some chunk.qualifier) (codes "Found qualifier mid cell")
  reject_if (positive64 chunk.timestamp_micros) (codes "Found timestamp mid cell")
  reject_if (is_empty chunk.labels) (codes "Found labels mid cell")

abbrev pub extend_cell : CellChunk → PartialCell → PartialCell
extend_cell chunk cell = record cell {
  value = cell.value ++ chunk.value;
  value_index = add64 cell.value_index (length chunk.value);
}

unfoldable pub continue_cell : RowMerger → CellChunk → Step
continue_cell m chunk = do
  if ltb 0 m.row_in_progress.cell_in_progress.value_index then gauntlet chunk else merged tt
  merged (
    in_cell (chunk_end (positive32 chunk.value_size))
        (extend_cell chunk m.row_in_progress.cell_in_progress) m,
    record chunk { value = [] },
  )

abbrev pub finished_cell : PartialCell → Cell
finished_cell cell = record cell { value_index = 0 }

-- What is in a map of lists at a key.
abbrev pub all_at : {A : Type 0} → Text → List (Text × List A) → List A
all_at key m = elim (get key m) [ none ↦ [] | some xs ↦ xs ]

-- The two parts of `cell_complete` that file the cell in progress.
abbrev pub file_family : PartialRow → PartialRow
file_family row =
    let cell = row.cell_in_progress in
    record row {
      last_family = cell.family;
      cells = insert cell.family (all_at cell.family row.cells ++ cell ∷ []) row.cells;
    }

abbrev pub file_qualifier : PartialRow → PartialRow
file_qualifier row =
    let cell = row.cell_in_progress in
    record row {
      last_qualifier = cell.qualifier;
      last_collected_cells =
          insert cell.qualifier (finished_cell cell ∷ []) row.last_collected_cells;
    }

-- A cell of the same family and qualifier as the last one is dropped.
unfoldable pub file_cell : PartialRow → PartialRow
file_cell row =
    if not (text_eq row.last_family row.cell_in_progress.family)
    then file_qualifier (file_family row)
    else if not (text_eq row.last_qualifier row.cell_in_progress.qualifier)
    then file_qualifier row
    else row

-- The family, the qualifier and the labels stay for the next cell.
abbrev pub clear_cell : ℕ → PartialCell → PartialCell
clear_cell now cell = record cell { timestamp = now; value = []; value_index = 0 }

unfoldable pub complete_cell : ℕ → RowMerger → CellChunk → Step
unfolding file_cell
complete_cell now m chunk =
    let row = file_cell m.row_in_progress in
    merged (
      record m {
        state = if has_commit_row chunk then row_complete else cell_start;
        row_in_progress = record row { cell_in_progress = clear_cell now row.cell_in_progress };
      },
      chunk,
    )

abbrev pub finished_row : RowMerger → Row
finished_row m = record {
  row_key = m.row_in_progress.row_key;
  cells = m.row_in_progress.last_collected_cells;
}

unfoldable pub complete_row : ℕ → RowMerger → RowMerger × Row
complete_row now m = (
  record m {
    state = row_start;
    last_seen_row_key = some m.row_in_progress.row_key;
    row_in_progress = default_row now;
  },
  finished_row m,
)

abbrev pub Rows : Type 0
Rows = List (Text × Row)

-- A state's method, if the merger is in that state.
unfoldable pub when_in : ReadState → (RowMerger → CellChunk → Step) → RowMerger × CellChunk → Step
when_in state step (m, chunk) = if is_in state m.state then step m chunk else merged (m, chunk)

-- The end of the loop's body.
unfoldable pub finish_chunk : ℕ → Rows → RowMerger × CellChunk → Merged (RowMerger × Rows)
unfolding complete_row
finish_chunk now rows (m, chunk) =
    let (m', row) = complete_row now m in
    if is_in row_complete m.state
    then merged (m', insert row.row_key row rows)
    else if has_commit_row chunk
    then invalid_chunk (codes "Chunk tried to commit in row in wrong state " ++ state_name m.state)
    else merged (m, rows)

-- The states that a chunk goes through in turn.
unfoldable pub advance : ℕ → RowMerger → CellChunk → Step
unfolding when_in start start_cell gauntlet continue_cell complete_cell
advance now m chunk = do
  after_start ← when_in row_start (start now) (m, chunk)
  after_cell ← when_in cell_start start_cell after_start
  after_value ← when_in cell_in_progress continue_cell after_cell
  when_in cell_complete (complete_cell now) after_value

-- The body of the loop over the chunks.
unfoldable pub process_chunk : RowMerger → Rows → ℕ × CellChunk → Merged (RowMerger × Rows)
unfolding advance finish_chunk reset
process_chunk m rows (now, chunk) =
    if get_reset_row chunk
    then (do m' ← reset now m chunk; merged (m', rows))
    else (do after ← advance now m chunk; finish_chunk now rows after)

-- The chunks of one response, each with the time at which it is handled.
unfoldable pub process_response :
    RowMerger → Rows → List (ℕ × CellChunk) → Merged (RowMerger × Rows)
unfolding process_chunk
process_response m rows [] = merged (m, rows)
process_response m rows (c ∷ cs) = do
  (m', rows') ← process_chunk m rows c
  process_response m' rows' cs

pub record ReadRowsResponse : Type 0 where
  pub chunks : List (ℕ × CellChunk)
  pub last_scanned_row_key : Text

unfoldable pub scanned : RowMerger → Text → Merged RowMerger
scanned m [] = merged m
scanned m (b ∷ bs) =
    let row_key = text_or_default (from_utf8 (b ∷ bs)) in
    if text_lt (text_or_default m.last_seen_row_key) row_key
    then merged (record m { last_seen_row_key = some row_key })
    else invalid_chunk (codes "Last scanned row key is out of order")

unfoldable pub finalize : RowMerger → Merged (Unit {0})
finalize m =
    reject_if (not (is_in row_start m.state)) (codes "The row remains partial / is not committed.")

-- `none` is a response that failed.
unfoldable pub process_stream : RowMerger → Rows → List (Option ReadRowsResponse) → Merged Rows
unfolding scanned process_response finalize
process_stream m rows [] = finalize m >> merged rows
process_stream m rows (none ∷ rs) = invalid_row_response
process_stream m rows (some r ∷ rs) = do
  m' ← scanned m r.last_scanned_row_key
  (m2, rows') ← process_response m' rows r.chunks
  process_stream m2 rows' rs

unfoldable pub process_chunks : ℕ → List (Option ReadRowsResponse) → Merged Rows
unfolding process_stream
process_chunks now stream = process_stream (default_merger now) [] stream
