-- ===== src/Records.antt =====
-- autopush-common/src/db/mod.rs and models.rs: the stored form of a notification, and its key.
pub mod Keys
pub mod Stored
use autopush_rs.Prelude.{
  ℕ, Bool, add64, Option, none, some, List, [], ◌∷◌, ◌++◌, Text, codes, text_eq, split, parse_u64,
  leb, or_else, get, insert, text_key, not, if◌then◌else◌,
}
use autopush_rs.Protocol.{ApcError, general_error, uuid_error, parse_int_error}
use autopush_rs.Notification.{Notification, chidmessageid}
use autopush_rs.Services.{Result, ok, err}

-- The uuid and the regex crates: `RegexSet::new(..).unwrap().is_match(..)`.
pub record KeyCrates : Type 0 where
  pub as_hyphenated : ℕ → Text
  pub parse_str : Text → Option ℕ
  pub is_match : List Text → Text → Bool

pub record RangeKey : Type 0 where
  pub channel_id : ℕ
  pub topic : Option Text
  pub sortkey_timestamp : Option ℕ
  pub legacy_version : Option Text

pub record NotificationHeaders : Type 0 where
  pub crypto_key : Option Text
  pub encryption : Option Text
  pub encryption_key : Option Text
  pub encoding : Option Text

pub record NotificationRecord : Type 0 where
  pub uaid : ℕ
  pub chidmessageid : Text
  pub current_timestamp : Option ℕ
  pub chids : Option (List Text)
  pub timestamp : Option ℕ
  pub expiry : ℕ
  pub ttl : Option ℕ
  pub body : Option Text
  pub headers : Option NotificationHeaders
  pub updateid : Option Text

-- `InsertOpt::insert_opt`.
abbrev pub insert_opt : Text → Option Text → List (Text × Text) → List (Text × Text)
insert_opt k none m = m
insert_opt k (some v) m = insert k v m

unfoldable pub into_map : NotificationHeaders → List (Text × Text)
into_map h = insert_opt (codes "encoding") h.encoding (
    insert_opt (codes "encryption_key") h.encryption_key (
      insert_opt (codes "encryption") h.encryption
        (insert_opt (codes "crypto_key") h.crypto_key [])))

unfoldable pub from_map : List (Text × Text) → NotificationHeaders
from_map m = record {
  crypto_key = get (codes "crypto_key") m;
  encryption = get (codes "encryption") m;
  encryption_key = get (codes "encryption_key") m;
  encoding = get (codes "encoding") m;
}

abbrev pub max_expiry : ℕ
max_expiry = 2592000

-- The patterns of the three kinds of keys.
abbrev pub key_patterns : List Text
key_patterns = codes "^01:\\S+:\\S+$" ∷ codes "^02:\\d+:\\S+$" ∷ codes "^\\S{3,}:\\S+$" ∷ []

abbrev pub invalid_topic_key : Result ApcError RangeKey
invalid_topic_key = err (general_error (codes "Invalid topic key"))

module _ (k : KeyCrates) where
  abbrev pub topic_key : List Text → Result ApcError RangeKey
  topic_key (tag ∷ channel_id ∷ topic ∷ []) = elim (k.parse_str channel_id) [
    | none ↦ err uuid_error
    | some id ↦ ok (record {
      channel_id = id;
      topic = some topic;
      sortkey_timestamp = none;
      legacy_version = none;
    })
  ]
  topic_key _ = invalid_topic_key

  abbrev pub with_sortkey : ℕ → Option ℕ → Result ApcError RangeKey
  with_sortkey id none = err parse_int_error
  with_sortkey id (some sortkey) = ok (record {
    channel_id = id;
    topic = none;
    sortkey_timestamp = some sortkey;
    legacy_version = none;
  })

  abbrev pub standard_key : List Text → Result ApcError RangeKey
  standard_key (tag ∷ sortkey ∷ channel_id ∷ []) = elim (k.parse_str channel_id) [
    | none ↦ err uuid_error
    | some id ↦ with_sortkey id (parse_u64 sortkey)
  ]
  standard_key _ = invalid_topic_key

  abbrev pub legacy_key : List Text → Result ApcError RangeKey
  legacy_key (channel_id ∷ legacy_version ∷ []) = elim (k.parse_str channel_id) [
    | none ↦ err uuid_error
    | some id ↦ ok (record {
      channel_id = id;
      topic = none;
      sortkey_timestamp = none;
      legacy_version = some legacy_version;
    })
  ]
  legacy_key _ = invalid_topic_key

  -- The parts of a key, by the first of them. There is always a first one.
  unfoldable pub range_key : List Text → Result ApcError RangeKey
  range_key [] = invalid_topic_key
  range_key (tag ∷ parts) =
      if text_eq tag (codes "01")
      then topic_key (tag ∷ parts)
      else if text_eq tag (codes "02")
      then standard_key (tag ∷ parts)
      else legacy_key (tag ∷ parts)

  unfoldable pub parse_chidmessageid : Text → Result ApcError RangeKey
  unfolding range_key
  parse_chidmessageid key =
      if not (k.is_match key_patterns key)
      then err (general_error (codes "Invalid chidmessageid"))
      else range_key (split b':' key)

  abbrev pub headers_map : Option NotificationHeaders → Option (List (Text × Text))
  headers_map none = none
  headers_map (some h) = some (into_map h)

  abbrev pub with_version :
      NotificationRecord → RangeKey → Option Text → Result ApcError Notification
  with_version r key none = err (general_error (codes "No valid updateid/version found"))
  with_version r key (some version) = elim r.timestamp [
    | none ↦ err (general_error (codes "No timestamp found"))
    | some timestamp ↦ ok (record {
      channel_id = key.channel_id;
      version = version;
      ttl = elim r.ttl [ none ↦ 0 | some ttl ↦ ttl ];
      topic = key.topic;
      timestamp = timestamp;
      body = r.body;
      sortkey_timestamp = key.sortkey_timestamp;
      headers = headers_map r.headers;
    })
  ]

  unfoldable pub into_notif : NotificationRecord → Result ApcError Notification
  unfolding parse_chidmessageid into_map
  into_notif r = elim (parse_chidmessageid r.chidmessageid) [
    | err e ↦ err e
    | ok key ↦ with_version r key (or_else key.legacy_version r.updateid)
  ]

  abbrev pub headers_of : Option (List (Text × Text)) → Option NotificationHeaders
  headers_of none = none
  headers_of (some m) = some (from_map m)

  -- The clock is read in milliseconds for a sort key of 0, and then in seconds.
  unfoldable pub from_notif : ℕ → ℕ → ℕ → Notification → NotificationRecord
  unfolding from_map
  from_notif ms_since_epoch sec_since_epoch uaid val = record {
    uaid = uaid;
    chidmessageid = chidmessageid k.as_hyphenated ms_since_epoch val;
    current_timestamp = none;
    chids = none;
    timestamp = some val.timestamp;
    expiry = add64 sec_since_epoch (if leb val.ttl max_expiry then val.ttl else max_expiry);
    ttl = some val.ttl;
    body = val.body;
    headers = headers_of val.headers;
    updateid = some val.version;
  }
