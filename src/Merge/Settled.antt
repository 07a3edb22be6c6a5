-- ===== src/Merge/Settled.antt =====
-- The state of a merger between two chunks.
use autopush_rs.Prelude.{
  ℕ, ◌≡◌, refl, sym, ap, subst, true, false, ◌||◌, arith, text_key, Bool-cases, inl, inr,
}
use autopush_rs.Merge.{
  row_start, cell_start, cell_in_progress, cell_complete, row_complete, RowMerger, CellChunk,
  get_reset_row, has_commit_row, merged, ◌>>=◌, is_in, default_row, reset,
}
use autopush_rs.Merge.Chunks.{
  Rows, start, start_cell, continue_cell, complete_cell, complete_row, finish_chunk, when_in,
  advance, process_chunk,
}
use autopush_rs.Merge.Steps.{bind-eq-merged, advance-Starts, not_reset}

-- No cell and no row is complete, the index counts only inside a cell, and a row that has not
-- started is empty.
pub record IsSettled (m : RowMerger) : Type 0 where
  pub no_cell : is_in cell_complete m.state ≡ false
  pub no_row : is_in row_complete m.state ≡ false
  pub index :
      is_in cell_in_progress m.state ≡ false → m.row_in_progress.cell_in_progress.value_index ≡ 0
  pub fresh : is_in row_start m.state ≡ true → (t : ℕ) × (m.row_in_progress ≡ default_row t)

-- The states in which a chunk can leave the methods on cells.
pub record IsAdvanced (m : RowMerger) (c : CellChunk) : Type 0 where
  pub no_cell : is_in cell_complete m.state ≡ false
  pub no_start : is_in row_start m.state ≡ false
  pub index :
      is_in cell_in_progress m.state ≡ false → m.row_in_progress.cell_in_progress.value_index ≡ 0
  pub committed : is_in row_complete m.state ≡ true → has_commit_row c ≡ true
  pub unfinished : is_in cell_start m.state ≡ true → has_commit_row c ≡ false

-- After `row_start`, and after `cell_start`.
abbrev InRow : RowMerger → Type 0
InRow m =
    (is_in cell_complete m.state ≡ false)
    × (is_in row_complete m.state ≡ false)
    × (is_in row_start m.state ≡ false)

abbrev InCell : RowMerger → Type 0
InCell m =
    (is_in cell_start m.state ≡ false)
    × (is_in row_complete m.state ≡ false)
    × (is_in row_start m.state ≡ false)

start-InRow :
    (now : ℕ) (m m' : RowMerger) (c c' : CellChunk)
    → IsSettled m
    → when_in row_start (start now) (m, c) ≡ merged (m', c')
    → InRow m'
unfolding when_in start
start-InRow now m m' c c' i h = (ground (arith, i.no_cell), ground (arith, i.no_row), ground arith)

start_cell-InCell :
    (m m' : RowMerger) (c c' : CellChunk)
    → InRow m
    → when_in cell_start start_cell (m, c) ≡ merged (m', c')
    → InCell m'
unfolding when_in start_cell
start_cell-InCell m m' c c' (i, j, k) h = (ground arith, ground arith, ground arith)

continue_cell-InCell :
    (m m' : RowMerger) (c c' : CellChunk)
    → InCell m
    → when_in cell_in_progress continue_cell (m, c) ≡ merged (m', c')
    → InCell m'
unfolding when_in continue_cell
continue_cell-InCell m m' c c' (i, j, k) h = (ground arith, ground arith, ground arith)

complete_cell-IsAdvanced :
    (now : ℕ) (m m' : RowMerger) (c c' : CellChunk)
    → InCell m
    → when_in cell_complete (complete_cell now) (m, c) ≡ merged (m', c')
    → IsAdvanced m' c'
unfolding when_in complete_cell
complete_cell-IsAdvanced now m m' c c' (i, j, k) h = record {
  no_cell = ground arith;
  no_start = ground arith;
  index = λ n. ground arith;
  committed = λ n. ground arith;
  unfinished = λ n. ground arith;
}

advance-IsAdvanced :
    (now : ℕ) (m m' : RowMerger) (c c' : CellChunk)
    → IsSettled m
    → advance now m c ≡ merged (m', c')
    → IsAdvanced m' c'
unfolding advance
advance-IsAdvanced now m m' c c' i h =
    let ((m1, c1), e1, h1) = bind-eq-merged (when_in row_start (start now) (m, c)) _ h in
    let ((m2, c2), e2, h2) = bind-eq-merged (when_in cell_start start_cell (m1, c1)) _ h1 in
    let ((m3, c3), e3, h3) =
      bind-eq-merged (when_in cell_in_progress continue_cell (m2, c2)) _ h2 in
    complete_cell-IsAdvanced now m3 m' c3 c'
      (continue_cell-InCell m2 m3 c2 c3
        (start_cell-InCell m1 m2 c1 c2 (start-InRow now m m1 c c1 i e1) e2) e3)
      h3

finish_chunk-IsSettled :
    (now : ℕ) (m m' : RowMerger) (c : CellChunk) (rows rows' : Rows)
    → IsAdvanced m c
    → finish_chunk now rows (m, c) ≡ merged (m', rows')
    → IsSettled m' × (has_commit_row c ≡ is_in row_start m'.state)
unfolding finish_chunk
finish_chunk-IsSettled now m m' c rows rows' a h = elim (Bool-cases (is_in row_complete m.state)) [
  | inl e ↦
      let at : (complete_row now m).0 ≡ m' = ground arith in
      (
        subst IsSettled at
            (record { no_cell = refl; no_row = refl; index = λ n. refl; fresh = λ n. (now, refl) }),
        ground (arith, a.committed),
      )
  | inr e ↦
      let at : m ≡ m' = ground arith in
      (
        subst IsSettled at (record {
          no_cell = a.no_cell;
          no_row = e;
          index = a.index;
          fresh = λ n. absurd (ground (arith, a.no_start));
        }),
        ground (arith, a.no_start),
      )
]

reset-IsSettled :
    (now : ℕ) (m m' : RowMerger) (c : CellChunk)
    → reset now m c ≡ merged m'
    → IsSettled m' × (is_in row_start m'.state ≡ true)
unfolding reset
reset-IsSettled now m m' c h =
    let at : record m { state = row_start; row_in_progress = default_row now } ≡ m' =
      ground arith in
    (
      subst IsSettled at
          (record { no_cell = refl; no_row = refl; index = λ n. refl; fresh = λ n. (now, refl) }),
      ap (λ (x : RowMerger). is_in row_start x.state) (sym at),
    )

advance-status :
    (now : ℕ) (m m' : RowMerger) (c c' : CellChunk)
    → advance now m c ≡ merged (m', c')
    → has_commit_row c' ≡ has_commit_row c
advance-status now m m' c c' h = ground (arith, (advance-Starts now m m' c c' h).1)

reset_chunk :
    (now : ℕ) (c : CellChunk) (m m' : RowMerger) (rows rows' : Rows)
    → ◌>>=◌ {B = RowMerger × Rows} (reset now m c) (λ x. merged (x, rows)) ≡ merged (m', rows')
    → get_reset_row c ≡ true
    → IsSettled m' × (is_in row_start m'.state ≡ (get_reset_row c || has_commit_row c))
reset_chunk now c m m' rows rows' h e =
    let (m1, f, g) = bind-eq-merged (reset now m c) _ h in
    let at : m1 ≡ m' = ground arith in
    let (settled, starts) = reset-IsSettled now m m1 c f in
    (subst IsSettled at settled, ground arith)

-- Between two chunks the merger is settled: no cell and no row waits to be filed, the index counts
-- only inside a cell, and a row that has not started is empty. A chunk that is accepted keeps this,
-- and leaves the merger at the start of a row if and only if it resets the row or commits it.
pub process_chunk-IsSettled :
    (now : ℕ) (c : CellChunk) (m m' : RowMerger) (rows rows' : Rows)
    → IsSettled m
    → process_chunk m rows (now, c) ≡ merged (m', rows')
    → IsSettled m' × (is_in row_start m'.state ≡ (get_reset_row c || has_commit_row c))
unfolding process_chunk
process_chunk-IsSettled now c m m' rows rows' i h = elim (Bool-cases (get_reset_row c)) [
  | inl e ↦ reset_chunk now c m m' rows rows' (ground arith) e
  | inr e ↦
      let ((m1, c1), f, g) =
        bind-eq-merged (advance now m c) _ (not_reset m m' rows rows' now c e h) in
      let (settled, starts) =
        finish_chunk-IsSettled now m1 m' c1 rows rows' (advance-IsAdvanced now m m1 c c1 i f) g in
      (settled, ground (arith, advance-status now m m1 c c1 f))
]
