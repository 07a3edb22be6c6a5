-- ===== src/Autoendpoint.antt =====
-- autoendpoint/src: the notification that an application server sends (extractors/notification.rs),
-- and what its handling uses: the database, other nodes, and the crates uuid, fernet, reqwest and url.
pub mod Headers
pub mod MessageId
pub mod Router
pub mod Users
pub mod Delivery
pub mod Subscribed
pub mod Deletion
pub mod Encryption
pub mod Accepted
pub mod Subscription
pub mod Authorized
pub mod Posting
use autopush_rs.Prelude.{
  ℕ, ◌≡◌, refl, arith, Bool, Option, none, some, List, [], Text, codes, insert, text_key, is_empty,
  if◌then◌else◌,
}
use autopush_rs.Protocol.{DbError}
use autopush_rs.Notification.{Notification}
use autopush_rs.Services.{User, Result, ok, err}
use autopush_rs.Records.{KeyCrates, insert_opt}
use autopush_rs.Db.{DbClient}

-- `VapidError` of headers/vapid.rs, without the value that makes a key invalid.
pub data VapidError : Type 0 where
  missing_token missing_key invalid_key : VapidError
  invalid_vapid : Text → VapidError
  invalid_audience invalid_expiry key_mismatch future_expiration_token unknown_scheme : VapidError

-- The kinds of `ApiErrorKind` and `RouterError` that the modelled handlers give.
pub data ApiError : Type 0 where
  invalid_message_id invalid_router_type no_subscription user_was_deleted not_found : ApiError
  invalid_token invalid_api_version token_hash_validation jwt no_ttl validation payload_error :
      ApiError
  vapid_error : VapidError → ApiError
  invalid_encryption : Text → ApiError
  database save_db : DbError → ApiError

-- `VapidClaims` of extractors/subscription.rs, and why the crate jsonwebtoken finds none: a claim is
-- missing or of the wrong type, the JSON is bad, or it is something else, such as the signature.
pub record VapidClaims : Type 0 where
  pub exp : ℕ
  pub aud : Text
  pub sub : Text

pub data JwtError : Type 0 where
  json_data : JwtError
  json_other : Text → JwtError
  other : JwtError

-- `NotificationHeaders` of extractors/notification_headers.rs; the TTL is an `i64` that is not negative.
pub record EndpointHeaders : Type 0 where
  pub ttl : ℕ
  pub topic : Option Text
  pub encoding : Option Text
  pub encryption : Option Text
  pub encryption_key : Option Text
  pub crypto_key : Option Text

pub record EndpointNotification : Type 0 where
  pub message_id : Text
  pub user : User
  pub channel_id : ℕ
  pub headers : EndpointHeaders
  pub timestamp : ℕ
  pub sort_key_timestamp : ℕ
  pub body : Option Text

pub record Autoendpoint : Type 1 where
  pub World : Type 0
  pub keys : KeyCrates
  pub as_simple : ℕ → Text
  pub encrypt : Text → World → Text × World
  pub decrypt : Text → Option Text
  -- `String::from_utf8_lossy`.
  pub from_utf8_lossy : Text → Text
  pub db : DbClient World
  -- A PUT of reqwest, with the notification as JSON or with no body: the status, if there is an answer.
  pub put : Text → Option EndpointNotification → World → Option ℕ × World
  -- base64 without padding in the two alphabets, SHA-256 and the check of a token with a key.
  pub decode_base64_url : Text → Option Text
  pub decode_base64_std : Text → Option Text
  pub sha256 : Text → Option Text
  pub decode_jwt : Text → Text → Result JwtError VapidClaims
  -- `Uuid::from_slice` on 16 bytes.
  pub from_slice : Text → ℕ
  -- The regular expressions of extractors/notification_headers.rs: whether one matches, and what is
  -- left when the other is replaced.
  pub is_valid_base64_url : Text → Bool
  pub strip_padding : Text → Text
  pub encode_base64_url : Text → Text
  pub sec_since_epoch : World → ℕ
  pub ms_since_epoch : World → ℕ
  pub parse_url : Text → Option Text
  pub endpoint_url : Text
  pub join_url : Text → Text → Option Text

-- A handler: an error or a result, and the world after it.
abbrev pub Handler : Type 0 → Type 0 → Type 0
Handler World A = World → Result ApiError A × World

abbrev pub and_then_handler :
    {World A B : Type 0}
    → Result ApiError A × World
    → (A → Handler World B)
    → Result ApiError B × World
and_then_handler (ok a, w) f = f a w
and_then_handler (err e, w) f = (err e, w)

infixl 5 ◌>>=◌ ◌>>◌
abbrev pub ◌>>=◌ : {World A B : Type 0} → Handler World A → (A → Handler World B) → Handler World B
◌>>=◌ m f w = and_then_handler (m w) f

abbrev pub ◌>>◌ : {World B : Type 0} → Handler World (Unit {0}) → Handler World B → Handler World B
m >> k = m >>= λ _. k

abbrev pub pure : {World A : Type 0} → A → Handler World A
pure a w = (ok a, w)

abbrev pub throw : {World A : Type 0} → ApiError → Handler World A
throw e w = (err e, w)

-- `db.call(..).await?`, and the same with `map_err`.
abbrev pub db_as :
    {World A : Type 0} → (DbError → ApiError) → Result DbError A × World → Result ApiError A × World
db_as kind (ok a, w) = (ok a, w)
db_as kind (err e, w) = (err (kind e), w)

unfoldable pub headers_into : EndpointHeaders → List (Text × Text)
headers_into h = insert_opt (codes "crypto_key") h.crypto_key (
    insert_opt (codes "encryption_key") h.encryption_key
      (insert_opt (codes "encryption") h.encryption (insert_opt (codes "encoding") h.encoding [])))

abbrev pub sortkey_of : Option Text → ℕ → Option ℕ
sortkey_of none timestamp = some timestamp
sortkey_of (some topic) timestamp = none

-- The notification as the other parts of the program know it.
unfoldable pub into_notification : EndpointNotification → Notification
unfolding headers_into
into_notification n =
    let headers = headers_into n.headers in
    record {
      channel_id = n.channel_id;
      version = n.message_id;
      ttl = n.headers.ttl;
      topic = n.headers.topic;
      timestamp = n.timestamp;
      body = n.body;
      sortkey_timestamp = sortkey_of n.headers.topic n.sort_key_timestamp;
      headers = if is_empty headers then none else some headers;
    }

-- What a handler and the handlers after it must have done for both to end with a result.
pub and_then_handler-eq-ok :
    {World A B : Type 0} (r : Result ApiError A × World) (f : A → Handler World B) {b : B}
    {w' : World}
    → and_then_handler r f ≡ (ok b, w')
    → (a : A) × (w : World) × (r ≡ (ok a, w)) × (f a w ≡ (ok b, w'))
and_then_handler-eq-ok (ok a, w) f h = (a, w, refl, h)
and_then_handler-eq-ok (err e, w) f h = absurd (ground arith)

pub db_as-eq-ok :
    {World A : Type 0} (kind : DbError → ApiError) (r : Result DbError A × World) {a : A}
    {w' : World}
    → db_as kind r ≡ (ok a, w')
    → r ≡ (ok a, w')
db_as-eq-ok kind (ok a, w) h = ground arith
db_as-eq-ok kind (err e, w) h = absurd (ground arith)
