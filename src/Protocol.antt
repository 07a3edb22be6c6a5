-- ===== src/Protocol.antt =====
-- autoconnect/autoconnect-common/src/protocol.rs, and the errors of the WebSocket state machine
-- (autoconnect-ws-sm/src/error.rs). JSON and the texts of errors in foreign libraries are left out.
use autopush_rs.Prelude.{ℕ, Bool, Option, List, [], ◌∷◌, Text, insert, text_key}
use autopush_rs.Notification.{Notification}
use autopush_rs.Broadcast.Tracker.{Broadcast}

pub data ServerNotification : Type 0 where
  check_storage disconnect : ServerNotification
  notification : Notification → ServerNotification

pub record ClientAck : Type 0 where
  pub channel_id : ℕ
  pub version : Text

-- An `i32` is its bit pattern.
pub data ClientMessage : Type 0 where
  hello : Option Text → Option (List ℕ) → Option Bool → Option (List (Text × Text)) → ClientMessage
  register : Text → Option Text → ClientMessage
  unregister : ℕ → Option ℕ → ClientMessage
  broadcast_subscribe : List (Text × Text) → ClientMessage
  ack : List ClientAck → ClientMessage
  nack : Option ℕ → Text → ClientMessage
  ping : ClientMessage

mutual
  pub data BroadcastValue : Type 0 where
    value : Text → BroadcastValue
    nested : BroadcastFields → BroadcastValue

  pub data BroadcastFields : Type 0 where
    end : BroadcastFields
    field : Text → BroadcastValue → BroadcastFields → BroadcastFields

abbrev pub BroadcastMap : Type 0
BroadcastMap = List (Text × BroadcastValue)

pub data ServerMessage : Type 0 where
  hello : Text → ℕ → Option Bool → BroadcastMap → ServerMessage
  register : ℕ → ℕ → Text → ServerMessage
  unregister : ℕ → ℕ → ServerMessage
  broadcast : BroadcastMap → ServerMessage
  notification : Notification → ServerMessage
  ping : ServerMessage

-- `DbError` of autopush-common/src/db/error.rs: the kinds that the program makes itself, and one for
-- the errors of the databases' own clients. Texts go without what they quote.
pub data DbError : Type 0 where
  db_error serialization deserialize_u64 deserialize_string integrity general backoff :
      Text → DbError
  conditional : DbError

pub data ApcError : Type 0 where
  parse_url_error payload_error general_error : Text → ApcError
  uuid_error parse_int_error : ApcError

pub data SmErrorKind : Type 0 where
  database : DbError → SmErrorKind
  invalid_message internal : Text → SmErrorKind
  uaid_reset already_connected ghost excessive_ping : SmErrorKind
  make_endpoint : ApcError → SmErrorKind

-- `Broadcast::from_hashmap`: the order of the pairs is the map's own.
unfoldable pub from_hashmap : List (Text × Text) → List Broadcast
from_hashmap [] = []
from_hashmap ((id, version) ∷ m) = record { broadcast_id = id; version = version } ∷ from_hashmap m

-- `HashMap::extend` with the pairs of `Broadcast::vec_into_hashmap`.
unfoldable pub extend_with : BroadcastMap → List Broadcast → BroadcastMap
extend_with m [] = m
extend_with m (b ∷ bs) = extend_with (insert b.broadcast_id (BroadcastValue.value b.version) m) bs

unfoldable pub vec_into_hashmap : List Broadcast → BroadcastMap
unfolding extend_with
vec_into_hashmap bs = extend_with [] bs

-- A map as the content of `BroadcastValue::Nested`.
unfoldable pub to_fields : BroadcastMap → BroadcastFields
to_fields [] = end
to_fields ((k, v) ∷ m) = field k v (to_fields m)
