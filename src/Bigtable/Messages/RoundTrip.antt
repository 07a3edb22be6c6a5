-- ===== src/Bigtable/Messages/RoundTrip.antt =====
-- A message is read back from its row.
use autopush_rs.Prelude.{
  ℕ, ◌^◌, ◌<◌, ◌≡◌, ◌∙◌, refl, ap, arith, false, Option, none, some, List, [], ◌∷◌, ◌++◌, Text,
  codes, is_empty, split_once, All, from_utf8, get, remove, insert, text_key, append-nil, text_eq,
  ◌==◌, if◌then◌else◌,
}
use autopush_rs.Notification.{Notification, chidmessageid}
use autopush_rs.Services.{ok}
use autopush_rs.Merge.{Cell, Row}
use autopush_rs.Records.{RangeKey, parse_chidmessageid}
use autopush_rs.Records.Keys.{
  AreKeyCrates, IsKeyed, key_of, with_key, parse_chidmessageid-chidmessageid,
}
use autopush_rs.Bigtable.{Bigtable}
use autopush_rs.Bigtable.Bytes.{to_be_bytes, to_u64, to_string, to_u64-to_be_bytes, to_string-utf8}
use autopush_rs.Bigtable.Cells.{
  add_cells, take_cell, take_required_cell, take_cells, required_u64, required_string,
}
use autopush_rs.Bigtable.Messages.{
  message_cells, message_of, read_headers, message_row, message_key, read_message,
  row_to_notification, family_of,
}

-- What Bigtable returns of a row that was written: its cells by their columns, each in its family.
abbrev pub columns : Text → List Cell → List (Text × List Cell)
columns family [] = []
columns family (c ∷ cs) = (c.qualifier, record c { family = family } ∷ []) ∷ columns family cs

abbrev pub families : List (Text × List Cell) → List (Text × List Cell)
families [] = []
families ((family, cs) ∷ m) = columns family cs ++ families m

abbrev pub as_returned : Row → Row
as_returned row = record row { cells = families row.cells }

-- The numbers are `u64`s, the texts are strings, and `serde_json` reads the headers that it wrote.
pub record IsMessage (b : Bigtable) (n : Notification) : Type 0 where
  pub keyed : IsKeyed n
  pub ttl_u64 : n.ttl < 2 ^ 64
  pub timestamp_u64 : n.timestamp < 2 ^ 64
  pub version_string : from_utf8 n.version ≡ some n.version
  pub body_string : (t : Text) → n.body ≡ some t → from_utf8 t ≡ some t
  pub headers_json :
      (m : List (Text × Text))
      → n.headers ≡ some m
      → (from_utf8 (b.to_json m) ≡ some (b.to_json m)) × (b.from_json (b.to_json m) ≡ some m)

-- What the code relies on of uuid, beside what the keys need.
pub record AreMessageCrates (b : Bigtable) : Type 0 where
  pub keys : AreKeyCrates b.keys
  pub simple_hash : (n : ℕ) → All (λ c. (c == b'#') ≡ false) (b.as_simple n)

abbrev pub drop_empty : Option (List (Text × Text)) → Option (List (Text × Text))
drop_empty none = none
drop_empty (some headers) = if is_empty headers then none else some headers

-- What a row keeps of a message: no empty headers, and no sort key beside a topic.
abbrev pub as_kept : Notification → Notification
as_kept n = record n {
  sortkey_timestamp = (key_of n).sortkey_timestamp;
  headers = drop_empty n.headers;
}

split_once-hash :
    (a rest : Text)
    → All (λ c. (c == b'#') ≡ false) a
    → split_once b'#' (a ++ b'#' ∷ rest) ≡ some (a, rest)
unfolding split_once
split_once-hash [] rest h = refl
split_once-hash (c ∷ a) rest h = ground (arith, h.0, split_once-hash a rest h.1)

module _ (b : Bigtable) (w : AreMessageCrates b) where
  fixed_cells :
      (n : Notification)
      → n.ttl < 2 ^ 64
      → n.timestamp < 2 ^ 64
      → from_utf8 n.version ≡ some n.version
      → (to_u64 (to_be_bytes n.ttl) (codes "ttl") ≡ ok n.ttl)
        × (to_u64 (to_be_bytes n.timestamp) (codes "timestamp") ≡ ok n.timestamp)
        × (to_string n.version (codes "version") ≡ ok n.version)
  fixed_cells n ttl timestamp version = (
    to_u64-to_be_bytes n.ttl (codes "ttl") ttl,
    to_u64-to_be_bytes n.timestamp (codes "timestamp") timestamp,
    to_string-utf8 n.version (codes "version") version,
  )

  read_headers-to_json :
      (headers : List (Text × Text))
      → from_utf8 (b.to_json headers) ≡ some (b.to_json headers)
      → b.from_json (b.to_json headers) ≡ some headers
      → read_headers b (b.to_json headers) ≡ ok headers
  read_headers-to_json headers h k =
      ground (arith, to_string-utf8 (b.to_json headers) (codes "headers") h, k)

  -- The columns are read back for each shape of the headers and the body.
  read_cells :
      (family : Text) (expiry : ℕ) (n : Notification) (headers : Option (List (Text × Text)))
      (body : Option Text) (key : RangeKey) (row_key : Text)
      → IsMessage b (record n { headers = headers; body = body })
      → message_of b (
          read_message b key (record {
            row_key = row_key;
            cells =
                columns family
                  (message_cells b (record n { headers = headers; body = body }) expiry);
          }))
        ≡ ok (record {
          channel_id = key.channel_id;
          version = n.version;
          ttl = n.ttl;
          topic = key.topic;
          timestamp = n.timestamp;
          body = body;
          sortkey_timestamp = key.sortkey_timestamp;
          headers = drop_empty headers;
        })
  unfolding read_message message_cells required_u64 required_string take_required_cell take_cell
      take_cells get remove text_eq
  read_cells family expiry n none none key row_key m =
      ground (arith, fixed_cells n m.ttl_u64 m.timestamp_u64 m.version_string)
  read_cells family expiry n none (some t) key row_key m = ground (
    arith,
    fixed_cells n m.ttl_u64 m.timestamp_u64 m.version_string,
    to_string-utf8 t (codes "data") (m.body_string t refl),
  )
  read_cells family expiry n (some headers) none key row_key m = ground (
    arith,
    fixed_cells n m.ttl_u64 m.timestamp_u64 m.version_string,
    read_headers-to_json headers (m.headers_json headers refl).0 (m.headers_json headers refl).1,
  )
  read_cells family expiry n (some headers) (some t) key row_key m = ground (
    arith,
    fixed_cells n m.ttl_u64 m.timestamp_u64 m.version_string,
    to_string-utf8 t (codes "data") (m.body_string t refl),
    read_headers-to_json headers (m.headers_json headers refl).0 (m.headers_json headers refl).1,
  )

  row_to_notification_keyed :
      (uaid : ℕ) (chidmessageid : Text) (key : RangeKey) (row : Row)
      → parse_chidmessageid b.keys chidmessageid ≡ ok key
      → row_to_notification b (message_key b uaid chidmessageid) row
        ≡ message_of b (read_message b key row)
  unfolding row_to_notification
  row_to_notification_keyed uaid chidmessageid key row h =
      rw
        (split_once-hash (b.as_simple uaid) chidmessageid (w.simple_hash uaid), row_to_notification)
        (rw h refl)

  kept_message :
      (n : Notification) (topic : Option Text) (sortkey : Option ℕ)
      → let m = with_key n topic sortkey in
        ◌≡◌ {A = Notification}
          (record {
            channel_id = (key_of m).channel_id;
            version = m.version;
            ttl = m.ttl;
            topic = (key_of m).topic;
            timestamp = m.timestamp;
            body = m.body;
            sortkey_timestamp = (key_of m).sortkey_timestamp;
            headers = drop_empty m.headers;
          })
          (as_kept m)
  kept_message n (some topic) sortkey = refl
  kept_message n none (some sortkey) = refl
  kept_message n none none = refl

  returned_row :
      (ms_since_epoch expiry uaid : ℕ) (n : Notification)
      → as_returned (message_row b ms_since_epoch expiry uaid n) ≡ record {
        row_key = (message_row b ms_since_epoch expiry uaid n).row_key;
        cells = columns (family_of n) (message_cells b n expiry);
      }
  unfolding message_row add_cells insert
  returned_row ms_since_epoch expiry uaid n =
      ap
        (λ (cells : List (Text × List Cell)). record {
          row_key = (message_row b ms_since_epoch expiry uaid n).row_key;
          cells = cells;
        })
        (append-nil (columns (family_of n) (message_cells b n expiry)))

  -- A message that is written to Bigtable is read back from the row that comes back, whatever the
  -- times of the clock: all of it but empty headers, and a sort key beside a topic. Its numbers are
  -- `u64`s, its texts are UTF-8, and its stored key shows all of the key.
  pub row_to_notification-message_row :
      (ms_since_epoch expiry uaid : ℕ) (n : Notification)
      → IsMessage b n
      → row_to_notification b
          (message_row b ms_since_epoch expiry uaid n).row_key
          (as_returned (message_row b ms_since_epoch expiry uaid n))
        ≡ ok (as_kept n)
  unfolding message_row add_cells
  row_to_notification-message_row ms_since_epoch expiry uaid n m =
      ap (row_to_notification b (message_row b ms_since_epoch expiry uaid n).row_key)
        (returned_row ms_since_epoch expiry uaid n)
      ∙ row_to_notification_keyed uaid _ (key_of n) _
          (parse_chidmessageid-chidmessageid b.keys w.keys ms_since_epoch n m.keyed)
      ∙ read_cells (family_of n) expiry n n.headers n.body (key_of n) _ m
      ∙ ap ok (kept_message n n.topic n.sortkey_timestamp)
