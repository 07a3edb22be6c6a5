-- ===== src/Bigtable.antt =====
-- autopush-common/src/db/bigtable/bigtable_client/mod.rs: the requests that the client sends to a
-- Bigtable, and its filters. A row filter is a chain of filters or one that blocks all; a
-- `SystemTime` is its milliseconds, and a byte string a list of numbers.
pub mod Bytes
pub mod Cells
pub mod Messages
pub mod Users
pub mod Store
pub mod Channels
pub mod Pending
pub mod Ranges
pub mod ChannelSet
use autopush_rs.Prelude.{
  ℕ, ◌*◌, ◌^◌, ◌%◌, Bool, true, false, not, ◌&&◌, ◌||◌, Option, none, some, List, [], ◌∷◌, ◌++◌,
  map, Text, text_lt, codes, ltb, leb, ◌==◌, if◌then◌else◌,
}
use autopush_rs.Protocol.{DbError, db_error}
use autopush_rs.Services.{User, Result, ok, err, Call}
use autopush_rs.Merge.{Row, Merged, merged, invalid_chunk, invalid_row_response}
use autopush_rs.Merge.Chunks.{ReadRowsResponse, Rows, process_chunks}
use autopush_rs.Records.{KeyCrates}
use autopush_rs.Users.{UserCrates}
use autopush_rs.Db.{◌>>=◌, ◌>>◌, pure, throw, read}

abbrev pub router_family : Text
router_family = codes "router"

abbrev pub message_family : Text
message_family = codes "message"

abbrev pub message_topic_family : Text
message_topic_family = codes "message_topic"

pub data RowFilter : Type 0 where
  cells_per_column_limit timestamp_from : ℕ → RowFilter
  family_name_regex column_qualifier_regex value_regex row_key_regex : Text → RowFilter

pub data Filter : Type 0 where
  filter_chain : List RowFilter → Filter
  block_all : Filter

pub data Mutation : Type 0 where
  set_cell : Text → Text → ℕ → Text → Mutation
  delete_from_column : Text → Text → Option (ℕ × ℕ) → Mutation
  delete_from_row : Mutation

pub record MutateRowRequest : Type 0 where
  pub table_name : Text
  pub row_key : Text
  pub mutations : List Mutation

pub record CheckAndMutateRowRequest : Type 0 where
  pub table_name : Text
  pub row_key : Text
  pub predicate_filter : Filter
  pub true_mutations : List Mutation
  pub false_mutations : List Mutation

-- A row range is open at both ends, and a limit of 0 is none.
pub record ReadRowsRequest : Type 0 where
  pub table_name : Text
  pub row_keys : List Text
  pub row_ranges : List (Text × Text)
  pub filter : Option Filter
  pub rows_limit : ℕ

-- The gRPC client, with its pool and its retries, and the crates: uuid, `serde_json` for headers
-- and router data, and what the keys and the users need.
pub record Bigtable : Type 1 where
  pub World : Type 0
  pub keys : KeyCrates
  pub users : UserCrates World
  pub as_simple : ℕ → Text
  pub into_bytes : ℕ → Text
  pub from_bytes : Text → Option ℕ
  pub to_json : List (Text × Text) → Text
  pub from_json : Text → Option (List (Text × Text))
  pub router_data_to_json : List (Text × Text) → Text
  pub router_data_from_json : Text → Option (Option (List (Text × Text)))
  pub table_name : Text
  pub system_time : World → ℕ × World
  pub mutate_row : MutateRowRequest → Call World (Unit {0})
  pub check_and_mutate_row : CheckAndMutateRowRequest → Call World Bool
  pub read_rows : ReadRowsRequest → Call World (List (Option ReadRowsResponse))

abbrev pub max_channel_ttl : ℕ
max_channel_ttl = 30 * 24 * 60 * 60

abbrev pub max_router_ttl : ℕ
max_router_ttl = max_channel_ttl

abbrev pub router_gc_policy_filter : RowFilter
router_gc_policy_filter = cells_per_column_limit 1

abbrev pub is_alphanumeric : ℕ → Bool
is_alphanumeric b =
    (leb b'0' b && leb b b'9') || (leb b'A' b && leb b b'Z') || (leb b'a' b && leb b b'z')

unfoldable pub escape_bytes : Text → Text
escape_bytes [] = []
escape_bytes (b ∷ bs) =
    let rest = escape_bytes bs in
    if not (is_alphanumeric b) && not (b == b'_') && ltb b 128
    then (if b == 0 then codes "\\x00" ++ rest else b'\\' ∷ b ∷ rest)
    else b ∷ rest

-- `format!("^{t}$")`.
abbrev pub whole : Text → Text
whole t = b'^' ∷ t ++ b'$' ∷ []

abbrev pub merge_error : {A World : Type 0} → Merged A → Call World A
merge_error (merged a) = pure a
merge_error (invalid_chunk e) = throw (db_error e)
merge_error invalid_row_response = throw (db_error (codes "InvalidRowResponse"))

-- The order of a `BTreeMap`: the rows by their keys.
unfoldable pub insert_row : Text → Row → Rows → Rows
insert_row key row [] = (key, row) ∷ []
insert_row key row ((k, r) ∷ rows) =
    let rest = insert_row key row rows in
    if text_lt key k then (key, row) ∷ (k, r) ∷ rows else (k, r) ∷ rest

unfoldable pub in_order : Rows → Rows
unfolding insert_row
in_order [] = []
in_order ((key, row) ∷ rows) = insert_row key row (in_order rows)

module _ (b : Bigtable) where
  unfoldable pub message_gc_policy_filter : b.World → List RowFilter × b.World
  message_gc_policy_filter w =
      let (now, w') = b.system_time w in
      (router_gc_policy_filter ∷ timestamp_from (now * 1000 % 2 ^ 64) ∷ [], w')

  abbrev pub version_filter : ℕ → List RowFilter
  version_filter version =
      family_name_regex (whole router_family)
      ∷ column_qualifier_regex (codes "^version$")
      ∷ value_regex (escape_bytes (b.into_bytes version))
      ∷ []

  abbrev pub read_row_request : Text → List RowFilter → ReadRowsRequest
  read_row_request row_key filters = record {
    table_name = b.table_name;
    row_keys = row_key ∷ [];
    row_ranges = [];
    filter = some (filter_chain filters);
    rows_limit = 0;
  }

  abbrev pub mutate_row_request : Text → List Mutation → MutateRowRequest
  mutate_row_request row_key mutations = record {
    table_name = b.table_name;
    row_key = row_key;
    mutations = mutations;
  }

  abbrev pub check_and_mutate_row_request :
      Text → Filter → List Mutation → List Mutation → CheckAndMutateRowRequest
  check_and_mutate_row_request row_key filter true_mutations false_mutations = record {
    table_name = b.table_name;
    row_key = row_key;
    predicate_filter = filter;
    true_mutations = true_mutations;
    false_mutations = false_mutations;
  }

  -- `read_rows`, with the merging of the chunks that come back.
  unfoldable pub read_rows : ReadRowsRequest → Call b.World Rows
  unfolding process_chunks in_order
  read_rows req = do
    stream ← b.read_rows req
    now ← read b.system_time
    rows ← merge_error (process_chunks now stream)
    pure (in_order rows)

  -- `pop_first`.
  abbrev pub first_row : Rows → Option Row
  first_row [] = none
  first_row ((k, row) ∷ rows) = some row

  -- The first row by key of those that came back.
  unfoldable pub read_row : ReadRowsRequest → Call b.World (Option Row)
  unfolding read_rows
  read_row req = do rows ← read_rows req; pure (first_row rows)
