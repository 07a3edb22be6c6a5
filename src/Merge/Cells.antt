-- ===== src/Merge/Cells.antt =====
-- What a single chunk does to the row in progress and to its cell.
use autopush_rs.Prelude.{
  ℕ, ◌≡◌, refl, Bool, true, false, not, some, [], ◌∷◌, arith, Text, codes, is_empty, is_some,
  text_eq, insert, get, text_key, ltb, from_utf8,
}
use mathlib.Core.List.{reverse}
use autopush_rs.Merge.{
  row_start, cell_start, cell_in_progress, cell_complete, RowMerger, Row, Cell, CellChunk,
  get_reset_row, has_commit_row, Merged, merged, invalid_chunk, is_in, default_row, out_of_order,
  text_or_default, positive32, positive64, reject_if, ◌>>◌, ◌>>=◌,
}
use autopush_rs.Merge.Chunks.{
  Rows, start, start_cell, continue_cell, gauntlet, complete_cell, complete_row, finish_chunk,
  file_cell, start_row, take_header, when_in, advance, process_chunk,
}
use autopush_rs.Merge.Settled.{IsSettled}

-- The cell that a chunk carries whole.
abbrev pub cell_of : Text → Text → CellChunk → Cell
cell_of family qualifier c = record {
  family = family;
  qualifier = text_or_default (from_utf8 qualifier);
  timestamp = c.timestamp_micros;
  labels = reverse c.labels;
  value = c.value;
  value_index = 0;
}

-- The row that a chunk carries whole.
abbrev pub row_of : Text → Text → CellChunk → Row
row_of family qualifier c = record {
  row_key = text_or_default (from_utf8 c.row_key);
  cells = (text_or_default (from_utf8 qualifier), cell_of family qualifier c ∷ []) ∷ [];
}

-- The merger after that row.
abbrev pub after_row : ℕ → Text → CellChunk → RowMerger → RowMerger
after_row now family c m = record {
  state = row_start;
  last_seen_row_key = some (text_or_default (from_utf8 c.row_key));
  last_seen_cell_family = some family;
  row_in_progress = default_row now;
}

-- The chunk once its parts are taken, and the merger with the row before it is filed.
abbrev filled : ℕ → Text → Text → CellChunk → RowMerger → RowMerger
filled now family qualifier c m = record {
  state = cell_complete;
  last_seen_row_key = m.last_seen_row_key;
  last_seen_cell_family = some family;
  row_in_progress = record (default_row now) {
    row_key = text_or_default (from_utf8 c.row_key);
    cell_in_progress = cell_of family qualifier c;
  };
}

module _ (now t : ℕ) (c : CellChunk) (m : RowMerger) (family qualifier : Text)
    (s : is_in row_start m.state ≡ true) (fresh : m.row_in_progress ≡ default_row t)
    (f : c.family_name ≡ some family) (q : c.qualifier ≡ some qualifier) where
  start_whole :
      is_empty c.row_key ≡ false
      → out_of_order m.last_seen_row_key c.row_key ≡ false
      → when_in row_start (start now) (m, c) ≡ merged (start_row now m c, c)
  unfolding when_in start
  start_whole k o = ground arith

  start_cell_whole :
      positive32 c.value_size ≡ false
      → when_in cell_start start_cell (start_row now m c, c)
        ≡ merged (filled now family qualifier c m, take_header c)
  unfolding when_in start_cell
  start_cell_whole v = ground arith

complete_cell_whole :
    (now : ℕ) (c : CellChunk) (m : RowMerger) (rows : Rows) (family qualifier : Text)
    → is_empty family ≡ false
    → has_commit_row c ≡ true
    → (when_in cell_complete (complete_cell now) (filled now family qualifier c m, take_header c)
        >>= finish_chunk now rows)
      ≡ merged (
        after_row now family c m,
        insert (text_or_default (from_utf8 c.row_key)) (row_of family qualifier c) rows,
      )
unfolding when_in complete_cell file_cell finish_chunk complete_row text_eq insert get
complete_cell_whole now c m rows [] qualifier nf h = absurd (cc)
complete_cell_whole now c m rows (b ∷ family) qualifier nf h = ground arith

-- At the start of a row, one chunk with a key that is not empty and comes after the last one, that
-- carries a whole cell of a family whose name is not empty and commits the row, gives a row with
-- exactly that cell under its qualifier, its labels in reverse, and the merger is at the start of
-- the next row.
pub process_chunk-one_cell :
    (now : ℕ) (c : CellChunk) (m : RowMerger) (rows : Rows) (family qualifier : Text)
    → IsSettled m
    → is_in row_start m.state ≡ true
    → is_empty c.row_key ≡ false
    → out_of_order m.last_seen_row_key c.row_key ≡ false
    → c.family_name ≡ some family
    → is_empty family ≡ false
    → c.qualifier ≡ some qualifier
    → positive32 c.value_size ≡ false
    → has_commit_row c ≡ true
    → process_chunk m rows (now, c)
      ≡ merged (
        after_row now family c m,
        insert (text_or_default (from_utf8 c.row_key)) (row_of family qualifier c) rows,
      )
unfolding process_chunk advance
process_chunk-one_cell now c m rows family qualifier i s k o f nf q v h =
    let (t, fresh) = i.fresh s in
    ground (
      arith,
      start_whole now t c m family qualifier s fresh f q k o,
      start_cell_whole now t c m family qualifier s fresh f q v,
      complete_cell_whole now c m rows family qualifier nf h,
    )

reject_then :
    {B : Type 0} (b : Bool) (e : Text) (m : Merged B)
    → (x : Text) × (m ≡ invalid_chunk x)
    → (x : Text) × ((reject_if b e >> m) ≡ invalid_chunk x)
reject_then true e m h = (e, refl)
reject_then false e m h = h

abbrev labels_text : Text
labels_text = codes "Found labels mid cell"

gauntlet-refused :
    (c : CellChunk) → is_empty c.labels ≡ true → (e : Text) × (gauntlet c ≡ invalid_chunk e)
unfolding gauntlet
gauntlet-refused c l =
    let last : (e : Text) × (reject_if (is_empty c.labels) labels_text ≡ invalid_chunk e) =
      (labels_text, rw l refl) in
    reject_then (not (is_empty c.row_key)) (codes "Found row key mid cell") _ (
      reject_then (is_some c.family_name) (codes "Found family name mid cell") _ (
        reject_then (is_some c.qualifier) (codes "Found qualifier mid cell") _
          (reject_then (positive64 c.timestamp_micros) (codes "Found timestamp mid cell") _ last)))

-- A chunk that goes on with a value of which some is already there is refused when it has no labels,
-- whatever else it holds.
pub continue_cell-refused :
    (now : ℕ) (c : CellChunk) (m : RowMerger) (rows : Rows)
    → is_in cell_in_progress m.state ≡ true
    → ltb 0 m.row_in_progress.cell_in_progress.value_index ≡ true
    → get_reset_row c ≡ false
    → is_empty c.labels ≡ true
    → (e : Text) × (process_chunk m rows (now, c) ≡ invalid_chunk e)
unfolding process_chunk advance when_in continue_cell
continue_cell-refused now c m rows s i n l =
    let (e, refused) = gauntlet-refused c l in (e, ground arith)
