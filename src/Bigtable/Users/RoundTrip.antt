-- ===== src/Bigtable/Users/RoundTrip.antt =====
-- A user is read back from its row.
use autopush_rs.Prelude.{
  ℕ, ◌^◌, ◌<◌, ◌≡◌, Option, none, some, List, [], ◌∷◌, ◌++◌, Text, codes, from_utf8, text_key,
}
use autopush_rs.Services.{User, Result, ok, err}
use autopush_rs.Protocol.{DbError}
use autopush_rs.Merge.{Cell, Row}
use autopush_rs.Bigtable.{Bigtable, router_family}
use autopush_rs.Bigtable.Bytes.{to_be_bytes}
use autopush_rs.Bigtable.Messages.{new_cell}
use autopush_rs.Bigtable.Messages.RoundTrip.{columns}
use autopush_rs.Bigtable.Users.{Fixed, version_or_default, optional_cell}

abbrev pub unwrap_or : {A : Type 0} → Option A → A → A
unwrap_or none a = a
unwrap_or (some b) a = b

-- The numbers are `u64`s, the texts are strings, and `serde_json` reads the router data that it wrote.
pub record IsUser (b : Bigtable) (user : User) : Type 0 where
  pub connected_at_u64 : user.connected_at < 2 ^ 64
  pub router_type_string : from_utf8 user.router_type ≡ some user.router_type
  pub record_version_u64 : version_or_default user.record_version < 2 ^ 64
  pub current_timestamp_u64 : unwrap_or user.current_timestamp 0 < 2 ^ 64
  pub node_id_string : from_utf8 (unwrap_or user.node_id []) ≡ some (unwrap_or user.node_id [])
  pub router_data_string :
      from_utf8 (b.router_data_to_json (unwrap_or user.router_data []))
      ≡ some (b.router_data_to_json (unwrap_or user.router_data []))
  pub router_data_json :
      b.router_data_from_json (b.router_data_to_json (unwrap_or user.router_data []))
      ≡ some (some (unwrap_or user.router_data []))

-- What the code relies on of uuid.
abbrev pub IsUuidBytes : Bigtable → Type 0
IsUuidBytes b =
    (version : ℕ) → version < 2 ^ 128 → b.from_bytes (b.into_bytes version) ≡ some version

-- What is read back: the month and the last connection are not stored, and come from the default
-- user.
abbrev pub as_loaded : User → ℕ → User → User
as_loaded user version default = record user {
  record_version = some (version_or_default user.record_version);
  version = some version;
  last_connect = default.last_connect;
  current_month = default.current_month;
}

module _ (b : Bigtable) (w : IsUuidBytes b) where
  -- The columns behind the four that every user has.
  abbrev optional_columns : User → ℕ → List (Text × List Cell)
  optional_columns user expiry = columns router_family (
      optional_cell user.router_data (codes "router_data") b.router_data_to_json expiry
      ++ optional_cell user.current_timestamp (codes "current_timestamp") to_be_bytes expiry
      ++ optional_cell user.node_id (codes "node_id") (λ t. t) expiry)

  abbrev fixed_of : User → ℕ → Fixed
  fixed_of user version = record {
    connected_at = user.connected_at;
    router_type = user.router_type;
    record_version = version_or_default user.record_version;
    version = version;
  }

  abbrev row_of : User → List (Text × List Cell) → Row
  row_of user cells = record { row_key = b.as_simple user.uaid; cells = cells }

  abbrev first_of : Result DbError (User × Row) → Result DbError User
  first_of (ok (user, row)) = ok user
  first_of (err e) = err e

  -- The columns behind the first.
  abbrev later_columns : User → ℕ → ℕ → List (Text × List Cell)
  later_columns user version expiry =
      columns router_family (
        new_cell (codes "router_type") user.router_type expiry
        ∷ new_cell (codes "record_version") (to_be_bytes (version_or_default user.record_version))
            expiry
        ∷ new_cell (codes "version") (b.into_bytes version) expiry
        ∷ [])
      ++ optional_columns user expiry

  abbrev first_cell : User → ℕ → Cell
  first_cell user expiry =
      record (new_cell (codes "connected_at") (to_be_bytes user.connected_at) expiry) {
        family = router_family;
      }
