-- ===== src/Bigtable/Users.antt =====
-- The rows of users: `user_to_row` and the reading of one in `get_user`, of bigtable_client/mod.rs.
pub mod RoundTrip
use autopush_rs.Prelude.{
  ℕ, Bool, true, ◌&&◌, ◌||◌, not, Option, none, some, List, [], ◌∷◌, ◌++◌, Text, codes, text_eq,
  or_else, if◌then◌else◌,
}
use autopush_rs.Protocol.{DbError, integrity, serialization}
use autopush_rs.Services.{User, Result, ok, err, Call}
use autopush_rs.Merge.{Cell, Row}
use autopush_rs.Users.{default_user, user_record_version, starts_with}
use autopush_rs.Bigtable.{Bigtable, router_family}
use autopush_rs.Bigtable.Bytes.{to_be_bytes, to_u64, to_string}
use autopush_rs.Bigtable.Cells.{
  Take, ◌>>=◌, return, lift, new, add_cells, take_cell, take_required_cell, required_u64,
  required_string, optional,
}
use autopush_rs.Bigtable.Messages.{new_cell}

abbrev pub optional_cell : {A : Type 0} → Option A → Text → (A → Text) → ℕ → List Cell
optional_cell none qualifier value expiry = []
optional_cell (some a) qualifier value expiry = new_cell qualifier (value a) expiry ∷ []

abbrev pub version_or_default : Option ℕ → ℕ
version_or_default none = user_record_version
version_or_default (some version) = version

-- A column that a row can have without a user.
abbrev pub is_partial_column : Text → Bool
is_partial_column k =
    text_eq k (codes "current_timestamp")
    || text_eq k (codes "version")
    || starts_with (codes "chid:") k

unfoldable pub is_incomplete_router_record : List (Text × List Cell) → Bool
is_incomplete_router_record [] = true
is_incomplete_router_record ((k, cells) ∷ m) = is_partial_column k && is_incomplete_router_record m

-- The columns that every user has, once `connected_at` is taken.
pub record Fixed : Type 0 where
  pub connected_at : ℕ
  pub router_type : Text
  pub record_version : ℕ
  pub version : ℕ

module _ (b : Bigtable) where
  unfoldable pub user_cells : User → ℕ → ℕ → List Cell
  unfolding to_be_bytes
  user_cells user version expiry =
      new_cell (codes "connected_at") (to_be_bytes user.connected_at) expiry
        ∷ new_cell (codes "router_type") user.router_type expiry
        ∷ new_cell (codes "record_version") (to_be_bytes (version_or_default user.record_version))
            expiry
        ∷ new_cell (codes "version") (b.into_bytes version) expiry
        ∷ optional_cell user.router_data (codes "router_data") b.router_data_to_json expiry
      ++ optional_cell user.current_timestamp (codes "current_timestamp") to_be_bytes expiry
      ++ optional_cell user.node_id (codes "node_id") (λ t. t) expiry

  unfoldable pub user_to_row : ℕ → User → ℕ → Row
  unfolding user_cells add_cells
  user_to_row expiry user version =
      add_cells router_family (user_cells user version expiry) (new (b.as_simple user.uaid))

  abbrev pub version_from : Text → Result DbError ℕ
  version_from bytes = elim (b.from_bytes bytes) [
    | none ↦ err (serialization (codes "Could not deserialize version: "))
    | some version ↦ ok version
  ]

  unfoldable pub read_fixed : Cell → Take Fixed
  unfolding required_u64 required_string take_required_cell to_u64
  read_fixed connected_at_cell = do
    connected_at ← lift (to_u64 connected_at_cell.value (codes "connected_at"))
    router_type ← required_string (codes "router_type")
    record_version ← required_u64 (codes "record_version")
    version_cell ← take_required_cell (codes "version")
    version ← lift (version_from version_cell.value)
    return (record {
      connected_at = connected_at;
      router_type = router_type;
      record_version = record_version;
      version = version;
    })

  abbrev pub router_data_from : Text → Result DbError (Option (List (Text × Text)))
  router_data_from text = elim (b.router_data_from_json text) [
    | none ↦ err (serialization (codes "Could not deserialize router_type: "))
    | some router_data ↦ ok router_data
  ]

  -- JSON can also say that there is no router data.
  abbrev pub read_router_data : Text → Result DbError (Option (List (Text × Text)))
  read_router_data bytes = elim (to_string bytes (codes "router_type")) [
    | err e ↦ err e
    | ok text ↦ router_data_from text
  ]

  abbrev pub flatten : {A : Type 0} → Option (Option A) → Option A
  flatten none = none
  flatten (some o) = o

  -- The user, from the default one.
  unfoldable pub read_user : ℕ → Fixed → User → Take User
  unfolding to_string to_u64
  read_user uaid fixed default = do
    router_data ← optional (codes "router_data") read_router_data
    node_id ← optional (codes "node_id") (λ bytes. to_string bytes (codes "node_id"))
    current_timestamp ←
        optional (codes "current_timestamp") (λ bytes. to_u64 bytes (codes "current_timestamp"))
    return (record default {
      uaid = uaid;
      connected_at = fixed.connected_at;
      router_type = fixed.router_type;
      record_version = some fixed.record_version;
      version = some fixed.version;
      router_data = flatten router_data;
      node_id = node_id;
      current_timestamp = current_timestamp;
    })
