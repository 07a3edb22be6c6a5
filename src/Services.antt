-- ===== src/Services.antt =====
-- What the WebSocket state machine uses and does not implement: the database behind `DbClient`
-- (autopush-common/src/db/client.rs), the clocks, and the third-party crates. All of it, other
-- nodes' activity included, is a `World` that every call may change.
use autopush_rs.Prelude.{ℕ, Bool, Option, List, Text}
use autopush_rs.Notification.{Notification}
use autopush_rs.Protocol.{DbError}
use autopush_rs.Broadcast.Tracker.{BroadcastChangeTracker}

pub data Result (E A : Type 0) : Type 0 where
  ok : A → Result E A
  err : E → Result E A

-- A call: its result, and the world after it.
abbrev pub Call : Type 0 → Type 0 → Type 0
Call World A = World → Result DbError A × World

pub record User : Type 0 where
  pub uaid : ℕ
  pub connected_at : ℕ
  pub router_type : Text
  pub router_data : Option (List (Text × Text))
  pub last_connect : Option ℕ
  pub node_id : Option Text
  pub record_version : Option ℕ
  pub current_month : Option Text
  pub current_timestamp : Option ℕ
  pub version : Option ℕ

pub record FetchMessageResponse : Type 0 where
  pub timestamp : Option ℕ
  pub messages : List Notification

pub record CheckStorageResponse : Type 0 where
  pub include_topic : Bool
  pub messages : List Notification
  pub timestamp : Option ℕ

pub record Services : Type 1 where
  pub World : Type 0
  -- Clocks and random numbers.
  pub sec_since_epoch : World → ℕ × World
  pub ms_since_epoch : World → ℕ × World
  pub new_v4 : World → ℕ × World
  -- `Utc::now().format(..)` of chrono, and `gen_range(0..n)` of rand.
  pub format_utc : Text → World → Text × World
  pub gen_range : ℕ → World → ℕ × World
  -- The uuid crate.
  pub try_parse : Text → Option ℕ
  pub as_hyphenated : ℕ → Text
  pub as_simple : ℕ → Text
  -- `AppState`: settings and the broadcasts.
  pub msg_limit : ℕ
  pub router_url : Text
  pub broadcaster : World → BroadcastChangeTracker
  pub endpoint_url : Text
  -- The crates url (a `Url` is its text), uuid, base64, openssl and fernet.
  pub parse_url : Text → Option Text
  pub join_url : Text → Text → Option Text
  pub as_bytes : ℕ → Text
  pub decode_base64 : Text → Option Text
  pub sha256 : Text → Option Text
  pub encrypt : Text → World → Text × World
  -- `reqwest`: a PUT to another node.
  pub http_put : Text → World → Bool × World
  -- `DbClient`.
  pub rotating_message_table : Option Text
  pub add_user : User → Call World (Unit {0})
  pub update_user : User → Call World (Bool × User)
  pub get_user : ℕ → Call World (Option User)
  pub remove_user : ℕ → Call World (Unit {0})
  pub add_channel : ℕ → ℕ → Call World (Unit {0})
  pub remove_channel : ℕ → ℕ → Call World Bool
  pub save_messages : ℕ → List Notification → Call World (Unit {0})
  pub fetch_topic_messages : ℕ → ℕ → Call World FetchMessageResponse
  pub fetch_timestamp_messages : ℕ → Option ℕ → ℕ → Call World FetchMessageResponse
  pub increment_storage : ℕ → ℕ → Call World (Unit {0})
  pub remove_message : ℕ → Text → Call World (Unit {0})
