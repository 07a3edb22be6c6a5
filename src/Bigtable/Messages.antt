-- ===== src/Bigtable/Messages.antt =====
-- The rows of messages: `save_message`'s, and `row_to_notification`, in bigtable_client/mod.rs.
pub mod RoundTrip
use autopush_rs.Prelude.{
  ℕ, ◌+◌, ◌*◌, Option, none, some, List, [], ◌∷◌, ◌++◌, Text, codes, is_empty, is_some, split_once,
  if◌then◌else◌,
}
use autopush_rs.Notification.{Notification, chidmessageid}
use autopush_rs.Protocol.{DbError, ApcError, integrity, serialization}
use autopush_rs.Services.{Result, ok, err}
use autopush_rs.Merge.{Cell, Row}
use autopush_rs.Records.{RangeKey, parse_chidmessageid}
use autopush_rs.Bigtable.{Bigtable, message_family, message_topic_family}
use autopush_rs.Bigtable.Bytes.{to_be_bytes, to_string}
use autopush_rs.Bigtable.Cells.{
  Take, ◌>>=◌, return, lift, new, add_cells, required_u64, required_string, optional,
}

-- A cell to write: the rest is filled in by default.
abbrev pub new_cell : Text → Text → ℕ → Cell
new_cell qualifier value expiry = record {
  family = [];
  qualifier = qualifier;
  timestamp = expiry;
  labels = [];
  value = value;
  value_index = 0;
}

abbrev pub family_of : Notification → Text
family_of message = if is_some message.topic then message_topic_family else message_family

module _ (b : Bigtable) where
  -- `format!("{}#{}", ..)`.
  abbrev pub message_key : ℕ → Text → Text
  message_key uaid chidmessageid = b.as_simple uaid ++ b'#' ∷ chidmessageid

  abbrev pub headers_cell : Option (List (Text × Text)) → ℕ → List Cell
  headers_cell none expiry = []
  headers_cell (some headers) expiry =
      if is_empty headers then [] else new_cell (codes "headers") (b.to_json headers) expiry ∷ []

  abbrev pub data_cell : Option Text → ℕ → List Cell
  data_cell none expiry = []
  data_cell (some body) expiry = new_cell (codes "data") body expiry ∷ []

  unfoldable pub message_cells : Notification → ℕ → List Cell
  unfolding to_be_bytes
  message_cells message expiry =
      new_cell (codes "ttl") (to_be_bytes message.ttl) expiry
        ∷ new_cell (codes "timestamp") (to_be_bytes message.timestamp) expiry
        ∷ new_cell (codes "version") message.version expiry
        ∷ headers_cell message.headers expiry
      ++ data_cell message.body expiry

  -- The row that is written, given the times of the clock that it takes.
  unfoldable pub message_row : ℕ → ℕ → ℕ → Notification → Row
  unfolding message_cells add_cells chidmessageid
  message_row ms_since_epoch expiry uaid message =
      add_cells (family_of message) (message_cells message expiry)
        (new (message_key uaid (chidmessageid b.keys.as_hyphenated ms_since_epoch message)))

  abbrev pub headers_from : Text → Result DbError (List (Text × Text))
  headers_from text = elim (b.from_json text) [
    | none ↦ err (serialization (codes "headers"))
    | some headers ↦ ok headers
  ]

  abbrev pub read_headers : Text → Result DbError (List (Text × Text))
  read_headers bytes = elim (to_string bytes (codes "headers")) [
    | err e ↦ err e
    | ok text ↦ headers_from text
  ]

  unfoldable pub read_message : RangeKey → Take Notification
  unfolding required_u64 required_string to_string
  read_message key = do
    version ← required_string (codes "version")
    ttl ← required_u64 (codes "ttl")
    timestamp ← required_u64 (codes "timestamp")
    body ← optional (codes "data") (λ bytes. to_string bytes (codes "data"))
    headers ← optional (codes "headers") read_headers
    return (record {
      channel_id = key.channel_id;
      version = version;
      ttl = ttl;
      topic = key.topic;
      timestamp = timestamp;
      body = body;
      sortkey_timestamp = key.sortkey_timestamp;
      headers = headers;
    })

  abbrev pub message_of : Result DbError (Notification × Row) → Result DbError Notification
  message_of (ok (message, row)) = ok message
  message_of (err e) = err e

  abbrev pub with_range_key : Row → Result ApcError RangeKey → Result DbError Notification
  with_range_key row (err e) =
      err (integrity (codes "rows_to_notification expected chidmessageid: "))
  with_range_key row (ok key) = message_of (read_message key row)

  unfoldable pub row_to_notification : Text → Row → Result DbError Notification
  unfolding parse_chidmessageid read_message split_once
  row_to_notification row_key row = elim (split_once b'#' row_key) [
    | none ↦ err (integrity (codes "rows_to_notification expected row_key: uaid:chidmessageid "))
    | some (uaid, chidmessageid) ↦ with_range_key row (parse_chidmessageid b.keys chidmessageid)
  ]

  -- `collect` into a result: the first error, or all messages.
  unfoldable pub rows_to_notifications : List (Text × Row) → Result DbError (List Notification)
  unfolding row_to_notification
  rows_to_notifications [] = ok []
  rows_to_notifications ((row_key, row) ∷ rows) =
      let rest = rows_to_notifications rows in
      elim (row_to_notification row_key row) [
        | err e ↦ err e
        | ok message ↦ elim rest [ err e ↦ err e | ok messages ↦ ok (message ∷ messages) ]
      ]
