-- ===== src/Merge/Steps.antt =====
-- What each state's method does to the state, the row key and the cell in progress.
use autopush_rs.Prelude.{ℕ, ◌≡◌, refl, ◌∙◌, ap, true, false, arith, from_utf8, if◌then◌else◌}
use autopush_rs.Merge.{
  row_start, cell_start, cell_in_progress, cell_complete, PartialRow, RowMerger, CellChunk,
  get_reset_row, Merged, merged, invalid_chunk, invalid_row_response, ◌>>=◌, is_in, out_of_order,
  text_or_default,
}
use autopush_rs.Merge.Chunks.{
  start, start_cell, continue_cell, complete_cell, file_cell, when_in, advance, Rows, process_chunk,
  finish_chunk,
}

-- What a step and the steps after it must have done for both to succeed.
pub bind-eq-merged :
    {A B : Type 0} (r : Merged A) (f : A → Merged B) {b : B}
    → (r >>= f) ≡ merged b
    → (a : A) × (r ≡ merged a) × (f a ≡ merged b)
bind-eq-merged (merged a) f h = (a, refl, h)
bind-eq-merged (invalid_chunk e) f h = absurd (cc)
bind-eq-merged invalid_row_response f h = absurd (cc)

-- What the methods after `row_start` leave alone.
pub record Follows (m : RowMerger) (c : CellChunk) (m' : RowMerger) (c' : CellChunk) : Type 0 where
  pub last : m'.last_seen_row_key ≡ m.last_seen_row_key
  pub key : m'.row_in_progress.row_key ≡ m.row_in_progress.row_key
  pub at_start : is_in row_start m'.state ≡ is_in row_start m.state
  pub status : c'.row_status ≡ c.row_status

start_cell-Follows :
    (m m' : RowMerger) (c c' : CellChunk)
    → when_in cell_start start_cell (m, c) ≡ merged (m', c')
    → Follows m c m' c'
unfolding when_in start_cell
start_cell-Follows m m' c c' h = record {
  last = ground arith;
  key = ground arith;
  at_start = ground arith;
  status = ground arith;
}

continue_cell-Follows :
    (m m' : RowMerger) (c c' : CellChunk)
    → when_in cell_in_progress continue_cell (m, c) ≡ merged (m', c')
    → Follows m c m' c'
unfolding when_in continue_cell
continue_cell-Follows m m' c c' h = record {
  last = ground arith;
  key = ground arith;
  at_start = ground arith;
  status = ground arith;
}

file_cell-key : (row : PartialRow) → (file_cell row).row_key ≡ row.row_key
unfolding file_cell
file_cell-key row = ground arith

complete_cell-Follows :
    (now : ℕ) (m m' : RowMerger) (c c' : CellChunk)
    → when_in cell_complete (complete_cell now) (m, c) ≡ merged (m', c')
    → Follows m c m' c'
unfolding when_in complete_cell
complete_cell-Follows now m m' c c' h = record {
  last = ground arith;
  key = ground (arith, file_cell-key m.row_in_progress);
  at_start = ground arith;
  status = ground arith;
}

Follows-trans :
    {m m1 m2 : RowMerger} {c c1 c2 : CellChunk}
    → Follows m c m1 c1
    → Follows m1 c1 m2 c2
    → Follows m c m2 c2
Follows-trans f g = record {
  last = g.last ∙ f.last;
  key = g.key ∙ f.key;
  at_start = g.at_start ∙ f.at_start;
  status = g.status ∙ f.status;
}

-- The states after `row_start`: the row has the chunk's key if the chunk starts it, and the one that
-- it had if not.
pub record Starts (m : RowMerger) (c : CellChunk) (m' : RowMerger) : Type 0 where
  pub last : m'.last_seen_row_key ≡ m.last_seen_row_key
  pub started : is_in row_start m'.state ≡ false
  pub key : m'.row_in_progress.row_key ≡ (
      if is_in row_start m.state
      then text_or_default (from_utf8 c.row_key)
      else m.row_in_progress.row_key)
  pub in_order : is_in row_start m.state ≡ true → out_of_order m.last_seen_row_key c.row_key ≡ false

start-Starts :
    (now : ℕ) (m m' : RowMerger) (c c' : CellChunk)
    → when_in row_start (start now) (m, c) ≡ merged (m', c')
    → Starts m c m' × (c' ≡ c)
unfolding when_in start
start-Starts now m m' c c' h = (
  record {
    last = ground arith;
    started = ground arith;
    key = ground arith;
    in_order = λ s. ground arith;
  },
  ground arith,
)

pub advance-Starts :
    (now : ℕ) (m m' : RowMerger) (c c' : CellChunk)
    → advance now m c ≡ merged (m', c')
    → Starts m c m' × (c'.row_status ≡ c.row_status)
unfolding advance
advance-Starts now m m' c c' h =
    let ((m1, c1), e1, h1) = bind-eq-merged (when_in row_start (start now) (m, c)) _ h in
    let ((m2, c2), e2, h2) = bind-eq-merged (when_in cell_start start_cell (m1, c1)) _ h1 in
    let ((m3, c3), e3, h3) =
      bind-eq-merged (when_in cell_in_progress continue_cell (m2, c2)) _ h2 in
    let (s, same) = start-Starts now m m1 c c1 e1 in
    let f = Follows-trans (start_cell-Follows m1 m2 c1 c2 e2) (
      Follows-trans (continue_cell-Follows m2 m3 c2 c3 e3)
        (complete_cell-Follows now m3 m' c3 c' h3)) in
    (
      record {
        last = f.last ∙ s.last;
        started = f.at_start ∙ s.started;
        key = f.key ∙ s.key;
        in_order = s.in_order;
      },
      f.status ∙ ap (λ (x : CellChunk). x.row_status) same,
    )

-- A chunk that does not reset the row.
pub not_reset :
    (m m' : RowMerger) (rows rows' : Rows) (now : ℕ) (c : CellChunk)
    → get_reset_row c ≡ false
    → process_chunk m rows (now, c) ≡ merged (m', rows')
    → (advance now m c >>= finish_chunk now rows) ≡ merged (m', rows')
unfolding process_chunk
not_reset m m' rows rows' now c e h = ground arith
