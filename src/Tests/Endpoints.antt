-- ===== src/Tests/Endpoints.antt =====
-- A notification for a user whose node is busy, and who subscribes to one channel.
use autopush_rs.Prelude.{
  Bool, false, All, insert, Text, Option, get, true, is_empty, if◌then◌else◌, ℕ, ◌*◌, ◌≤◌, ◌^◌, ◌<◌,
  ◌≡◌, refl, arith, none, some, [], ◌∷◌, ◌++◌, codes, nat_eq, contains, text_eq,
}
use autopush_rs.Notification.{chidmessageid}
use autopush_rs.Services.{User, ok}
use autopush_rs.Db.{DbClient}
use autopush_rs.Autoendpoint.{
  EndpointHeaders, Autoendpoint, EndpointNotification, into_notification, database, db_as,
}
use autopush_rs.Autoendpoint.MessageId
use autopush_rs.Autoendpoint.MessageId.{MessageId, with_topic, without_topic, message_id_of}
use autopush_rs.Autoendpoint.Users.{webpush, from_str, validate_user}
use autopush_rs.Autoendpoint.Router.{delete_notification_route}
use autopush_rs.Autoendpoint.Subscribed.{IsSubscribed, validate_user-IsSubscribed}
use autopush_rs.Autoendpoint.Deletion.{
  AreTokenCrates, decrypt-encrypt, delete_notification_route-chidmessageid,
}
use autopush_rs.Autoendpoint.Headers.{version2}
use autopush_rs.Autoendpoint.Subscription.{
  TokenInfo, Request, VapidHeaderWithKey, Subscription, token_info, repad_base64, subscription,
  vapid_with_key, parse_vapid,
}
use autopush_rs.Autoendpoint.Authorized.{IsBound, IsFound, IsSigned, subscription-IsSigned}
use autopush_rs.Autoendpoint.Encryption.{from_request}
use autopush_rs.Autoendpoint.Accepted.{IsTopic, IsEncrypted, from_request-IsEncrypted}
use autopush_rs.Records.Keys.{IsPart, is_part_char}
use autopush_rs.Autoendpoint.Posting.{notification, decrypt-notification}
use autopush_rs.Tests.Letters.{letters, letter_keys, read_letters, letters-IsPart}
use autopush_rs.Tests.Stores.{Stores, primary_store, old_user}

abbrev busy_user : User
busy_user = record (old_user 7) { node_id = some (codes "http://n") }

abbrev subscribed_store : DbClient Stores
subscribed_store = record primary_store {
  get_user = λ uaid w. (ok (some busy_user), w);
  get_channels = λ uaid w. (ok (3 ∷ 4 ∷ []), w);
}

abbrev no_stores : Stores
no_stores = record { users = []; channels = [] }

unfoldable all_part : Text → Bool
all_part [] = true
all_part (c ∷ cs) = let rest = all_part cs in if is_part_char c then rest else false

all_part-All : (t : Text) → all_part t ≡ true → All (λ c. is_part_char c ≡ true) t
unfolding all_part
all_part-All [] h = tt
all_part-All (c ∷ cs) h = (ground (arith, h), all_part-All cs (ground (arith, h)))

unfoldable is_topic : Text → Bool
unfolding all_part
is_topic t = if is_empty t then false else all_part t

is_topic-IsPart : (t : Text) → is_topic t ≡ true → IsPart t
unfolding is_topic
is_topic-IsPart [] h = absurd (ground (arith, h))
is_topic-IsPart (c ∷ cs) h = (refl, all_part-All (c ∷ cs) h)

-- Every node answers with status 503, and a token is its text.
abbrev service : Autoendpoint
service = record {
  World = Stores;
  keys = letter_keys;
  as_simple = letters 36;
  encrypt = λ t w. (t, w);
  decrypt = λ t. some t;
  from_utf8_lossy = λ t. t;
  db = subscribed_store;
  put = λ url n w. (some 503, w);
  decode_base64_url = λ t. some t;
  decode_base64_std = λ t. some t;
  sha256 = λ t. some t;
  decode_jwt = λ token key. ok (record { exp = 100; aud = codes "http://e"; sub = [] });
  from_slice = λ t. 4;
  is_valid_base64_url = is_topic;
  strip_padding = λ t. t;
  encode_base64_url = λ t. t;
  sec_since_epoch = λ w. 50;
  ms_since_epoch = λ w. 50123;
  parse_url = λ t. some t;
  endpoint_url = codes "http://e";
  join_url = λ base path. some (base ++ path);
}

service-AreTokenCrates : AreTokenCrates service
service-AreTokenCrates = record {
  fernet = λ t w. refl;
  ascii = λ t h. refl;
  parse_simple = λ n h. ground (arith, read_letters n h);
  simple_part = λ n h. letters-IsPart n;
}

abbrev sent : EndpointNotification
sent = record {
  message_id = codes "id";
  user = busy_user;
  channel_id = 4;
  headers = record {
    ttl = 60;
    topic = none;
    encoding = none;
    encryption = none;
    encryption_key = none;
    crypto_key = none;
  };
  timestamp = 9;
  sort_key_timestamp = 9000;
  body = none;
}

validated_run : validate_user service busy_user 4 no_stores ≡ (ok webpush, no_stores)
unfolding validate_user from_str contains text_eq
validated_run = refl

validate_user-IsSubscribed_example : IsSubscribed service busy_user 4 no_stores no_stores
validate_user-IsSubscribed_example =
    validate_user-IsSubscribed service busy_user 4 no_stores validated_run

small : (n : ℕ) → n < 100 → n < 2 ^ 128
small n h = omega (arith, h)

decrypt-encrypt_example :
    MessageId.decrypt service
      (MessageId.encrypt service (with_topic 7 4 (codes "sale")) no_stores).0
    ≡ ok (with_topic 7 4 (codes "sale"))
decrypt-encrypt_example =
    decrypt-encrypt service service-AreTokenCrates (with_topic 7 4 (codes "sale")) no_stores
      (small 7 (omega arith), small 4 (omega arith), (refl, (refl, (refl, (refl, (refl, tt))))))

delete_notification_route-chidmessageid_example :
    delete_notification_route service (message_id_of service 7 4 none 9000) no_stores
    ≡ db_as database (
        subscribed_store.remove_message 7
          (chidmessageid (letters 36) 123 (into_notification sent))
          no_stores)
delete_notification_route-chidmessageid_example =
    delete_notification_route-chidmessageid service 123 sent no_stores (omega arith)

-- A token of 64 bytes, the last 32 of which are the digest of the sender's key.
abbrev sender_key : Text
sender_key = codes "abcdefghijklmnopqrstuvwxyz012345"

abbrev auth_header : Text
auth_header = codes "vapid t=signed,k=" ++ sender_key

abbrev push_header : Text → Option Text
push_header name =
    if text_eq name (codes "authorization")
    then some auth_header
    else if text_eq name (codes "ttl")
    then some (codes "60")
    else if text_eq name (codes "content-encoding")
    then some (codes "aes128gcm")
    else none

abbrev push_request : Request
push_request = record {
  api_version = some (codes "v2");
  token = sender_key ++ sender_key;
  header = push_header;
}

abbrev sender : VapidHeaderWithKey
sender = record {
  vapid = record {
    scheme = codes "vapid";
    token = codes "signed";
    version_data = version2 sender_key;
  };
  public_key = sender_key;
}

abbrev push_subscription : Subscription
push_subscription = record { user = busy_user; channel_id = 4; vapid = some sender }

authorized_run : subscription service push_request no_stores ≡ (ok push_subscription, no_stores)
unfolding subscription text_eq get contains insert
authorized_run = refl

subscription-IsSigned_example :
    (info : TokenInfo) × (token : Text) × (token_info push_request ≡ ok info)
    × (some (repad_base64 info.token) ≡ some token)
    × (vapid_with_key info (parse_vapid info) ≡ ok (some sender))
    × IsBound service info.api_version token (some sender)
    × IsFound service token push_subscription no_stores no_stores
    × IsSigned service no_stores (some sender)
subscription-IsSigned_example = subscription-IsSigned service push_request no_stores authorized_run

abbrev push_headers : EndpointHeaders
push_headers = record (sent.headers) { encoding = some (codes "aes128gcm") }

accepted_run : from_request service push_request true ≡ ok push_headers
unfolding from_request text_eq
accepted_run = refl

from_request-IsEncrypted_example :
    (push_headers.ttl ≤ 60 * 60 * 24 * 60)
    × IsTopic service none
    × IsEncrypted service true push_headers
from_request-IsEncrypted_example = from_request-IsEncrypted service push_request true accepted_run

abbrev posted : EndpointNotification
posted = record sent {
  message_id = (MessageId.encrypt service (without_topic 7 4 50123) no_stores).0;
  timestamp = 50;
  sort_key_timestamp = 50123;
}

posted_run : notification service push_request (some []) no_stores ≡ (ok posted, no_stores)
unfolding notification text_eq get contains insert message_id_of
posted_run = refl

decrypt-notification_example :
    MessageId.decrypt service posted.message_id ≡ ok (message_id_of service 7 4 none 50123)
decrypt-notification_example =
    decrypt-notification service service-AreTokenCrates is_topic-IsPart push_request (some [])
      no_stores posted_run (small 7 (omega arith)) (small 4 (omega arith)) (omega arith)
