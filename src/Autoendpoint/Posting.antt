-- ===== src/Autoendpoint/Posting.antt =====
-- The notification of a request (autoendpoint/src/extractors/notification.rs), and the id it gets.
use autopush_rs.Prelude.{
  ℕ, ◌^◌, ◌<◌, ◌≡◌, ◌∙◌, refl, ap, subst, sym, arith, true, Option, none, some, Text, is_empty,
  is_some, if◌then◌else◌,
}
use autopush_rs.Services.{Result, ok, err}
use autopush_rs.Records.Keys.{IsPart}
use autopush_rs.Autoendpoint.{
  ApiError, payload_error, Autoendpoint, EndpointHeaders, EndpointNotification, Handler, ◌>>=◌,
  and_then_handler-eq-ok,
}
use autopush_rs.Autoendpoint.MessageId.{message_id_of, encrypt, decrypt, generate_message_id}
use autopush_rs.Autoendpoint.Subscription.{Request, Subscription, subscription, lift}
use autopush_rs.Autoendpoint.Encryption.{from_request}
use autopush_rs.Autoendpoint.Accepted.{IsTopic, from_request-IsEncrypted}
use autopush_rs.Autoendpoint.Deletion.{AreTokenCrates, IsId, decrypt-encrypt}

module _ (a : Autoendpoint) where
  -- The payload, if it could be read.
  abbrev pub read_payload : Option Text → Result ApiError Text
  read_payload none = err payload_error
  read_payload (some body) = ok body

  abbrev pub encoded : Text → Option Text
  encoded body = if is_empty body then none else some (a.encode_base64_url body)

  abbrev pub named :
      Subscription
      → EndpointHeaders
      → Option Text
      → ℕ
      → ℕ
      → Text × a.World
      → Result ApiError EndpointNotification × a.World
  named sub headers body timestamp sort_key_timestamp (message_id, w) = (
    ok (record {
      message_id = message_id;
      user = sub.user;
      channel_id = sub.channel_id;
      headers = headers;
      timestamp = timestamp;
      sort_key_timestamp = sort_key_timestamp;
      body = body;
    }),
    w,
  )

  -- With the clock as it is now.
  unfoldable pub notification_now :
      Subscription → Option Text → EndpointHeaders → Handler a.World EndpointNotification
  unfolding generate_message_id
  notification_now sub body headers w =
      let sort_key_timestamp = a.ms_since_epoch w in
      named sub headers body (a.sec_since_epoch w) sort_key_timestamp
        (generate_message_id a sub.user.uaid sub.channel_id headers.topic sort_key_timestamp w)

  unfoldable pub notification : Request → Option Text → Handler a.World EndpointNotification
  unfolding subscription from_request notification_now
  notification req payload = do
    sub ← subscription a req
    body ← lift a (read_payload payload)
    headers ← lift a (from_request a req (is_some (encoded body)))
    notification_now sub (encoded body) headers

  -- A topic has the characters of base64, which are no colon.
  abbrev pub IsTopicPattern : Type 0
  IsTopicPattern = (t : Text) → a.is_valid_base64_url t ≡ true → IsPart t

  message_id_of-IsId :
      (uaid channel_id : ℕ) (topic : Option Text) (timestamp : ℕ)
      → IsTopicPattern
      → uaid < 2 ^ 128
      → channel_id < 2 ^ 128
      → timestamp < 2 ^ 64
      → IsTopic a topic
      → IsId (message_id_of a uaid channel_id topic timestamp)
  unfolding message_id_of
  message_id_of-IsId uaid channel_id none timestamp p h k b v = (h, k, b)
  message_id_of-IsId uaid channel_id (some topic) timestamp p h k b v = (h, k, p topic v.1)

  abbrev IsNamed : EndpointHeaders → a.World → EndpointNotification → Type 0
  IsNamed headers w n =
      (n.headers ≡ headers)
      × (n.message_id
          ≡ (encrypt a
              (message_id_of a n.user.uaid n.channel_id n.headers.topic n.sort_key_timestamp) w).0)

  named-eq :
      (x : EndpointNotification) {n : EndpointNotification} {w w' : a.World}
      → ◌≡◌ {A = Result ApiError EndpointNotification × a.World} (ok x, w) (ok n, w')
      → x ≡ n
  named-eq x h = ground (arith, h)

  notification_now-IsNamed :
      (sub : Subscription) (body : Option Text) (headers : EndpointHeaders) (w : a.World)
      {n : EndpointNotification} {w' : a.World}
      → notification_now sub body headers w ≡ (ok n, w')
      → IsNamed headers w n
  unfolding notification_now generate_message_id
  notification_now-IsNamed sub body headers w h =
      subst (IsNamed headers w) (named-eq _ h) (refl, refl)

  -- A notification that is taken from a request has a message id from which the service reads back the
  -- id of its user, channel, and topic or time, if the user and the channel are 128-bit numbers and the
  -- time is a `u64`.
  pub decrypt-notification :
      (laws : AreTokenCrates a) (pattern : IsTopicPattern) (req : Request) (payload : Option Text)
      (w : a.World) {n : EndpointNotification} {w' : a.World}
      → notification req payload w ≡ (ok n, w')
      → n.user.uaid < 2 ^ 128
      → n.channel_id < 2 ^ 128
      → n.sort_key_timestamp < 2 ^ 64
      → decrypt a n.message_id
        ≡ ok (message_id_of a n.user.uaid n.channel_id n.headers.topic n.sort_key_timestamp)
  unfolding notification
  decrypt-notification laws pattern req payload w {n = n} h bu bc bt =
      let (sub, w1, h1, k1) = and_then_handler-eq-ok (subscription a req w) _ h in
      let (body, w2, h2, k2) = and_then_handler-eq-ok (read_payload payload, w1) _ k1 in
      let (headers, w3, h3, k3) =
        and_then_handler-eq-ok (from_request a req (is_some (encoded body)), w2) _ k2 in
      let (same, name) = notification_now-IsNamed sub (encoded body) headers w3 k3 in
      let (_, topic, _) =
        from_request-IsEncrypted a req (is_some (encoded body))
          (ap (λ (p : Result ApiError EndpointHeaders × a.World). p.0) h3) in
      let id = message_id_of a n.user.uaid n.channel_id n.headers.topic n.sort_key_timestamp in
      ap (decrypt a) name
      ∙ decrypt-encrypt a laws id w3 (
          message_id_of-IsId n.user.uaid n.channel_id n.headers.topic n.sort_key_timestamp pattern
            bu bc bt (subst (λ (x : EndpointHeaders). IsTopic a x.topic) (sym same) topic))
