-- ===== src/Autoendpoint/MessageId.antt =====
-- autoendpoint/src/extractors/message_id.rs: the name that a notification has outside.
use autopush_rs.Prelude.{
  ℕ, Option, none, some, List, [], ◌∷◌, Text, codes, to_string, parse_u64, split, text_eq,
  if◌then◌else◌,
}
use autopush_rs.Notification.{colon_join, topic_notification_prefix, standard_notification_prefix}
use autopush_rs.Services.{Result, ok, err}
use autopush_rs.Autoendpoint.{ApiError, invalid_message_id, Autoendpoint}

pub data MessageId : Type 0 where
  with_topic : ℕ → ℕ → Text → MessageId
  without_topic : ℕ → ℕ → ℕ → MessageId

abbrev pub uaid_of : MessageId → ℕ
uaid_of (with_topic uaid channel_id topic) = uaid
uaid_of (without_topic uaid channel_id timestamp) = uaid

abbrev pub as_message_id : Option MessageId → Result ApiError MessageId
as_message_id none = err invalid_message_id
as_message_id (some m) = ok m

module _ (a : Autoendpoint) where
  unfoldable pub id_str : MessageId → Text
  unfolding to_string
  id_str (with_topic uaid channel_id topic) =
      colon_join topic_notification_prefix
        (colon_join (a.as_simple uaid) (colon_join (a.as_simple channel_id) topic))
  id_str (without_topic uaid channel_id timestamp) =
      colon_join standard_notification_prefix
        (colon_join (a.as_simple uaid) (colon_join (a.as_simple channel_id) (to_string timestamp)))

  unfoldable pub encrypt : MessageId → a.World → Text × a.World
  unfolding id_str
  encrypt m = a.encrypt (id_str m)

  abbrev pub topic_id : Option ℕ → Option ℕ → Text → Option MessageId
  topic_id (some uaid) (some channel_id) topic = some (with_topic uaid channel_id topic)
  topic_id _ _ topic = none

  abbrev pub timestamp_id : Option ℕ → Option ℕ → Option ℕ → Option MessageId
  timestamp_id (some uaid) (some channel_id) (some timestamp) =
      some (without_topic uaid channel_id timestamp)
  timestamp_id _ _ _ = none

  -- The four parts of a decrypted id. Each failure is the same error.
  unfoldable pub parse_segments : List Text → Option MessageId
  unfolding parse_u64
  parse_segments (version ∷ uaid ∷ chid ∷ last ∷ []) =
      if text_eq version (codes "01")
      then topic_id (a.keys.parse_str uaid) (a.keys.parse_str chid) last
      else if text_eq version (codes "02")
      then timestamp_id (a.keys.parse_str uaid) (a.keys.parse_str chid) (parse_u64 last)
      else none
  parse_segments _ = none

  -- The bytes that fernet makes of the token, if it is one of its own.
  unfoldable pub read_segments : Option Text → Result ApiError MessageId
  unfolding parse_segments split
  read_segments none = err invalid_message_id
  read_segments (some bytes) = as_message_id (parse_segments (split b':' (a.from_utf8_lossy bytes)))

  unfoldable pub decrypt : Text → Result ApiError MessageId
  unfolding read_segments
  decrypt message_id = read_segments (a.decrypt message_id)

  unfoldable pub sort_key : MessageId → Text
  unfolding to_string
  sort_key (with_topic uaid channel_id topic) =
      colon_join topic_notification_prefix (colon_join (a.keys.as_hyphenated channel_id) topic)
  sort_key (without_topic uaid channel_id timestamp) =
      colon_join standard_notification_prefix
        (colon_join (to_string timestamp) (a.keys.as_hyphenated channel_id))

  -- Of extractors/notification.rs.
  unfoldable pub message_id_of : ℕ → ℕ → Option Text → ℕ → MessageId
  message_id_of uaid channel_id (some topic) timestamp = with_topic uaid channel_id topic
  message_id_of uaid channel_id none timestamp = without_topic uaid channel_id timestamp

  unfoldable pub generate_message_id : ℕ → ℕ → Option Text → ℕ → a.World → Text × a.World
  unfolding message_id_of encrypt
  generate_message_id uaid channel_id topic timestamp =
      encrypt (message_id_of uaid channel_id topic timestamp)
