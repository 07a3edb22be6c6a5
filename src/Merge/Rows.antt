-- ===== src/Merge/Rows.antt =====
-- The finished rows, and the order in which they come.
use autopush_rs.Prelude.{
  ℕ, ◌≡◌, refl, subst, Bool, true, false, Option, none, some, List, [], ◌∷◌, arith, Text,
  text_eq_iff, text_lt, not-text_lt_self, text_lt_asym, text_lt_below, is_some, from_utf8, get,
  get-insert, text_key, if◌then◌else◌, Bool-cases, inl, inr, All,
}
use autopush_rs.Merge.{
  row_start, RowMerger, Row, CellChunk, get_reset_row, merged, ◌>>=◌, is_in, out_of_order,
  text_or_default, reset,
}
use autopush_rs.Merge.Chunks.{
  Rows, ReadRowsResponse, advance, complete_row, finish_chunk, process_chunk, process_response,
  process_stream, scanned, finalize,
}
use autopush_rs.Merge.Steps.{bind-eq-merged, advance-Starts, not_reset}

-- The finished rows come no later than the last key, and before the row in progress.
pub record InOrder (m : RowMerger) (rows : Rows) : Type 0 where
  pub seen : (k : Text) (r : Row) → get k rows ≡ some r → out_of_order m.last_seen_row_key k ≡ true
  pub before :
      (k : Text) (r : Row)
      → is_in row_start m.state ≡ false
      → get k rows ≡ some r
      → text_lt k m.row_in_progress.row_key ≡ true

-- Every row stays as it is.
abbrev pub Keeps : Rows → Rows → Type 0
Keeps rows rows' = (k : Text) (r : Row) → get k rows ≡ some r → get k rows' ≡ some r

-- The row key of a chunk is text.
abbrev pub HasTextKey : ℕ × CellChunk → Type 0
HasTextKey (now, c) = is_some (from_utf8 c.row_key) ≡ true

decoded_if :
    (b : Bool) (bs : List ℕ)
    → is_some (if b then some bs else none) ≡ true
    → text_or_default (if b then some bs else none) ≡ bs
decoded_if true bs h = refl
decoded_if false bs h = absurd (cc)

decoded : (bs : List ℕ) → is_some (from_utf8 bs) ≡ true → text_or_default (from_utf8 bs) ≡ bs
unfolding from_utf8
decoded bs h = decoded_if _ bs h

-- A row that starts comes after the finished ones.
after_last :
    (last : Option Text) (k key : Text)
    → out_of_order last k ≡ true
    → out_of_order last key ≡ false
    → text_lt k key ≡ true
after_last none k key h i = absurd (cc)
after_last (some l) k key h i = ground (arith, text_lt_below k l key)

advance-before :
    (now : ℕ) (m m' : RowMerger) (c c' : CellChunk) (rows : Rows)
    → InOrder m rows
    → HasTextKey (now, c)
    → advance now m c ≡ merged (m', c')
    → InOrder m' rows
advance-before now m m' c c' rows o u h =
    let (s, _) = advance-Starts now m m' c c' h in
    record {
      seen = λ k r g. ground (arith, o.seen k r g, s.last);
      before = λ k r started g. ground (
        arith,
        s.key,
        s.in_order,
        decoded c.row_key u,
        o.before k r,
        o.seen k r g,
        after_last m.last_seen_row_key k c.row_key,
      );
    }

finish_chunk-InOrder :
    (now : ℕ) (m m' : RowMerger) (c : CellChunk) (rows rows' : Rows)
    → InOrder m rows
    → finish_chunk now rows (m, c) ≡ merged (m', rows')
    → InOrder m' rows' × Keeps rows rows'
unfolding finish_chunk
finish_chunk-InOrder now m m' c rows rows' o h =
    let key = m.row_in_progress.row_key in
    (
      record {
        seen = λ k r g. ground (
          arith,
          o.seen k r,
          o.before k r,
          get-insert key k (complete_row now m).1 rows,
          text_eq_iff key k,
          text_lt_asym k key,
          not-text_lt_self key,
        );
        before = λ k r started g. ground (arith, o.before k r);
      },
      λ k r g. ground (
        arith,
        o.before k r,
        get-insert key k (complete_row now m).1 rows,
        text_eq_iff key k,
        not-text_lt_self key,
      ),
    )

reset-InOrder :
    (now : ℕ) (m m' : RowMerger) (c : CellChunk) (rows : Rows)
    → InOrder m rows
    → reset now m c ≡ merged m'
    → InOrder m' rows
unfolding reset
reset-InOrder now m m' c rows o h = record {
  seen = λ k r g. ground (arith, o.seen k r);
  before = λ k r started g. absurd (ground arith);
}

reset_step :
    (now : ℕ) (m m' : RowMerger) (c : CellChunk) (rows rows' : Rows)
    → InOrder m rows
    → ◌>>=◌ {B = RowMerger × Rows} (reset now m c) (λ x. merged (x, rows)) ≡ merged (m', rows')
    → InOrder m' rows' × Keeps rows rows'
reset_step now m m' c rows rows' o h =
    let (m1, f, g) = bind-eq-merged (reset now m c) _ h in
    let last = reset-InOrder now m m1 c rows o f in
    let same : rows ≡ rows' = ground arith in
    let at : m1 ≡ m' = ground arith in
    (subst (λ x. InOrder x rows') at (subst (InOrder m1) same last), λ k r x. ground arith)

-- The end of an order: a scanned key comes after all that was seen.
seen_scanned :
    (last : Option Text) (k key : Text)
    → out_of_order last k ≡ true
    → text_lt (text_or_default last) key ≡ true
    → out_of_order (some key) k ≡ true
seen_scanned none k key h i = absurd (cc)
seen_scanned (some l) k key h i = ground (arith, text_lt_below k l key, text_lt_asym k key)

-- A chunk that is accepted, and whose row key is text, leaves every finished row as it is, and the
-- finished rows still come before what follows.
pub process_chunk-InOrder :
    (c : ℕ × CellChunk) (m m' : RowMerger) (rows rows' : Rows)
    → InOrder m rows
    → HasTextKey c
    → process_chunk m rows c ≡ merged (m', rows')
    → InOrder m' rows' × Keeps rows rows'
unfolding process_chunk
process_chunk-InOrder (now, c) m m' rows rows' o u h = elim (Bool-cases (get_reset_row c)) [
  | inl e ↦ reset_step now m m' c rows rows' o (ground arith)
  | inr e ↦
      let h' = not_reset m m' rows rows' now c e h in
      let ((m1, c1), f, g) = bind-eq-merged (advance now m c) _ h' in
      finish_chunk-InOrder now m1 m' c1 rows rows' (advance-before now m m1 c c1 rows o u f) g
]

process_response-InOrder :
    (cs : List (ℕ × CellChunk)) (m m' : RowMerger) (rows rows' : Rows)
    → InOrder m rows
    → All HasTextKey cs
    → process_response m rows cs ≡ merged (m', rows')
    → InOrder m' rows' × Keeps rows rows'
unfolding process_response
process_response-InOrder [] m m' rows rows' o u h =
    let at : m ≡ m' = ground arith in
    let same : rows ≡ rows' = ground arith in
    (subst (λ x. InOrder x rows') at (subst (InOrder m) same o), λ k r g. ground arith)
process_response-InOrder (c ∷ cs) m m' rows rows' o u h =
    let ((m1, rows1), e, k) = bind-eq-merged (process_chunk m rows c) _ h in
    let (o1, keeps1) = process_chunk-InOrder c m m1 rows rows1 o u.0 e in
    let (o2, keeps2) = process_response-InOrder cs m1 m' rows1 rows' o1 u.1 k in
    (o2, λ j r g. keeps2 j r (keeps1 j r g))

scanned-InOrder :
    (key : Text) (m m' : RowMerger) (rows : Rows)
    → InOrder m rows
    → scanned m key ≡ merged m'
    → InOrder m' rows
unfolding scanned
scanned-InOrder [] m m' rows o h =
    let at : m ≡ m' = ground arith in subst (λ x. InOrder x rows) at o
scanned-InOrder (b ∷ bs) m m' rows o h = record {
  seen = λ k r g. ground (
    arith,
    o.seen k r g,
    seen_scanned m.last_seen_row_key k (text_or_default (from_utf8 (b ∷ bs))),
  );
  before = λ k r started g. ground (arith, o.before k r);
}

-- The keys of a response's chunks are text.
abbrev pub HasTextKeys : Option ReadRowsResponse → Type 0
HasTextKeys none = Unit
HasTextKeys (some r) = All HasTextKey r.chunks

stream-Keeps :
    (rs : List (Option ReadRowsResponse)) (m : RowMerger) (rows rows' : Rows)
    → InOrder m rows
    → All HasTextKeys rs
    → process_stream m rows rs ≡ merged rows'
    → Keeps rows rows'
unfolding process_stream
stream-Keeps [] m rows rows' o u h =
    let (_, e, k) = bind-eq-merged (finalize m) _ h in λ j r g. ground arith
stream-Keeps (none ∷ rs) m rows rows' o u h = absurd (cc)
stream-Keeps (some r ∷ rs) m rows rows' o u h =
    let (m1, e1, h1) = bind-eq-merged (scanned m r.last_scanned_row_key) _ h in
    let ((m2, rows2), e2, h2) = bind-eq-merged (process_response m1 rows r.chunks) _ h1 in
    let o1 = scanned-InOrder r.last_scanned_row_key m m1 rows o e1 in
    let (o2, keeps2) = process_response-InOrder r.chunks m1 m2 rows rows2 o1 u.0 e2 in
    let keeps3 = stream-Keeps rs m2 rows2 rows' o2 u.1 h2 in λ j x g. keeps3 j x (keeps2 j x g)

-- From a merger whose finished rows are in order, a stream that is read to its end, and whose row
-- keys are text, leaves every row that was finished before as it is: no row replaces another one,
-- whatever the scanned keys and the resets between them.
pub process_stream-Keeps :
    (rs : List (Option ReadRowsResponse)) (m : RowMerger) (rows rows' : Rows) (k : Text) (r : Row)
    → InOrder m rows
    → All HasTextKeys rs
    → process_stream m rows rs ≡ merged rows'
    → get k rows ≡ some r
    → get k rows' ≡ some r
process_stream-Keeps rs m rows rows' k r o u h g = stream-Keeps rs m rows rows' o u h k r g
