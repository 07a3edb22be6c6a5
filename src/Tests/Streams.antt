-- ===== src/Tests/Streams.antt =====
-- A stream of two rows.
use autopush_rs.Prelude.{
  ◌≡◌, refl, true, ◌||◌, Option, none, some, List, [], ◌∷◌, Text, codes, arith, get, insert,
  text_eq, text_lt, from_utf8, is_utf8_after, follow, text_eq_iff, subst, text_key,
}
use autopush_rs.Merge.{
  row_start, cell_in_progress, RowMerger, Row, CellChunk, reset, merged, invalid_chunk, is_in,
  commit_row, no_status, default_merger, get_reset_row, has_commit_row, default_row, out_of_order,
}
use autopush_rs.Merge.Chunks.{
  Rows, ReadRowsResponse, start, start_cell, gauntlet, continue_cell, file_cell, complete_cell,
  complete_row, when_in, finish_chunk, advance, process_chunk, process_response, process_stream,
  scanned, finalize,
}
use autopush_rs.Merge.Rows.{InOrder, process_stream-Keeps}
use autopush_rs.Merge.Settled.{IsSettled, process_chunk-IsSettled}
use autopush_rs.Merge.Cells.{row_of, after_row, process_chunk-one_cell, continue_cell-refused}

program : Unit {0}
unfolding reset start start_cell gauntlet continue_cell file_cell complete_cell complete_row when_in
    finish_chunk advance process_chunk process_response process_stream scanned finalize get insert
    text_eq text_lt from_utf8 is_utf8_after follow
program = tt

-- A chunk with a row key and a whole cell.
abbrev chunk_at : Text → CellChunk
chunk_at key = record {
  row_key = key;
  family_name = some (codes "message");
  qualifier = some (codes "ttl");
  timestamp_micros = 7;
  labels = [];
  value = codes "60";
  value_size = 0;
  row_status = commit_row true;
}

abbrev first : CellChunk
first = chunk_at (codes "a")

abbrev second : CellChunk
second = chunk_at (codes "b")

abbrev stream : List (Option ReadRowsResponse)
stream = some (record { chunks = (2, second) ∷ []; last_scanned_row_key = [] }) ∷ []

abbrev beginning : RowMerger
beginning = default_merger 0

beginning-IsSettled : IsSettled beginning
beginning-IsSettled = record {
  no_cell = refl;
  no_row = refl;
  index = λ n. refl;
  fresh = λ n. (0, refl);
}

abbrev first_row : Rows
first_row = (codes "a", row_of (codes "message") (codes "ttl") first) ∷ []

abbrev between : RowMerger
between = after_row 1 (codes "message") first beginning

one_key : (k : Text) (r : Row) → get k first_row ≡ some r → codes "a" ≡ k
unfolding get
one_key k r g = ground (arith, text_eq_iff (codes "a") k)

between-InOrder : InOrder between first_row
unfolding program
between-InOrder = record {
  seen = λ k r g. subst (λ x. out_of_order (some (codes "a")) x ≡ true) (one_key k r g) refl;
  before = λ k r n g. absurd (cc);
}

process_chunk-one_cell_example :
    process_chunk beginning [] (1, first)
    ≡ merged (after_row 1 (codes "message") first beginning, first_row)
unfolding program
process_chunk-one_cell_example =
    process_chunk-one_cell 1 first beginning [] (codes "message") (codes "ttl") beginning-IsSettled
      refl refl refl refl refl refl refl refl

process_chunk-IsSettled_example :
    IsSettled (after_row 1 (codes "message") first beginning)
    × (is_in row_start (after_row 1 (codes "message") first beginning).state
        ≡ (get_reset_row first || has_commit_row first))
unfolding program
process_chunk-IsSettled_example =
    process_chunk-IsSettled 1 first beginning (after_row 1 (codes "message") first beginning) []
      first_row beginning-IsSettled refl

-- A cell in two chunks, the second with no labels, as Bigtable sends it.
abbrev opening : CellChunk
opening = record first { value_size = 4; row_status = no_status }

abbrev rest : CellChunk
rest = record first { row_key = []; family_name = none; qualifier = none; timestamp_micros = 0 }

abbrev opened : RowMerger
opened = record beginning {
  state = cell_in_progress;
  last_seen_cell_family = some (codes "message");
  row_in_progress = record (default_row 0) {
    row_key = codes "a";
    cell_in_progress = record {
      family = codes "message";
      qualifier = codes "ttl";
      timestamp = 7;
      labels = [];
      value = codes "60";
      value_index = 2;
    };
  };
}

opened_by : process_chunk beginning [] (0, opening) ≡ merged (opened, [])
unfolding program
opened_by = refl

continue_cell-refused_example : (e : Text) × (process_chunk opened [] (1, rest) ≡ invalid_chunk e)
continue_cell-refused_example = continue_cell-refused 1 rest opened [] refl refl refl refl

process_stream-Keeps_example :
    get (codes "a") (
      (codes "a", row_of (codes "message") (codes "ttl") first)
      ∷ (codes "b", row_of (codes "message") (codes "ttl") second)
      ∷ [])
    ≡ some (row_of (codes "message") (codes "ttl") first)
unfolding program
process_stream-Keeps_example =
    process_stream-Keeps stream between first_row _ (codes "a") _ between-InOrder ((refl, tt), tt)
      refl refl
