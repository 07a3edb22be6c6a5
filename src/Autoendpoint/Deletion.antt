-- ===== src/Autoendpoint/Deletion.antt =====
-- A notification is found again by the id that was given out for it
-- (autoendpoint/src/extractors/message_id.rs, routes/webpush.rs).
use autopush_rs.Prelude.{
  ℕ, ◌^◌, ◌<◌, ◌≡◌, refl, ◌∙◌, ap, true, Option, none, some, [], ◌∷◌, Text, split, All, All-append,
  All-mono, arith, leb, to_string, parse_u64-to_string, text_eq,
}
use autopush_rs.Notification.{
  chidmessageid, colon_join, topic_notification_prefix, standard_notification_prefix,
}
use autopush_rs.Services.{ok}
use autopush_rs.Records.Keys.{is_part_char, IsPart, split-part, split_three, to_string-IsPart}
use autopush_rs.Autoendpoint.{
  Autoendpoint, EndpointNotification, into_notification, database, db_as,
}
use autopush_rs.Autoendpoint.MessageId.{
  MessageId, with_topic, without_topic, id_str, encrypt, parse_segments, read_segments, decrypt,
  as_message_id, sort_key, message_id_of, uaid_of,
}
use autopush_rs.Autoendpoint.Router.{delete_notification_route}

abbrev pub IsAscii : Text → Type 0
IsAscii t = All (λ c. leb c 127 ≡ true) t

-- What the code relies on of the fernet and uuid crates and of the standard library.
pub record AreTokenCrates (a : Autoendpoint) : Type 0 where
  pub fernet : (t : Text) (w : a.World) → a.decrypt (a.encrypt t w).0 ≡ some t
  pub ascii : (t : Text) → IsAscii t → a.from_utf8_lossy t ≡ t
  pub parse_simple : (n : ℕ) → n < 2 ^ 128 → a.keys.parse_str (a.as_simple n) ≡ some n
  pub simple_part : (n : ℕ) → n < 2 ^ 128 → IsPart (a.as_simple n)

-- The ids that the service makes.
abbrev pub IsId : MessageId → Type 0
IsId (with_topic uaid channel_id topic) = (uaid < 2 ^ 128) × (channel_id < 2 ^ 128) × IsPart topic
IsId (without_topic uaid channel_id timestamp) =
    (uaid < 2 ^ 128) × (channel_id < 2 ^ 128) × (timestamp < 2 ^ 64)

part_ascii : (c : ℕ) → is_part_char c ≡ true → leb c 127 ≡ true
part_ascii c h = ground arith

part-IsAscii : (t : Text) → IsPart t → IsAscii t
part-IsAscii t h = All-mono _ _ part_ascii t h.1

colon_join-IsAscii : (t u : Text) → IsAscii t → IsAscii u → IsAscii (colon_join t u)
colon_join-IsAscii t u h k = All-append _ t (b':' ∷ u) h (refl, k)

four-IsAscii :
    (t u v x : Text)
    → IsPart t
    → IsPart u
    → IsPart v
    → IsPart x
    → IsAscii (colon_join t (colon_join u (colon_join v x)))
four-IsAscii t u v x p q r s = colon_join-IsAscii t _ (part-IsAscii t p) (
    colon_join-IsAscii u _ (part-IsAscii u q)
      (colon_join-IsAscii v x (part-IsAscii v r) (part-IsAscii x s)))

split_four :
    (t u v x : Text)
    → IsPart t
    → IsPart u
    → IsPart v
    → IsPart x
    → split b':' (colon_join t (colon_join u (colon_join v x))) ≡ t ∷ u ∷ v ∷ x ∷ []
split_four t u v x p q r s =
    split-part t (colon_join u (colon_join v x)) p.1
    ∙ ap (λ ts. t ∷ ts) (split_three u v x q.1 r.1 s.1)

topic_tag : IsPart topic_notification_prefix
topic_tag = (refl, (refl, (refl, tt)))

standard_tag : IsPart standard_notification_prefix
standard_tag = (refl, (refl, (refl, tt)))

module _ (a : Autoendpoint) (laws : AreTokenCrates a) where
  decrypt_text :
      (t : Text) (w : a.World)
      → IsAscii t
      → decrypt a (a.encrypt t w).0 ≡ as_message_id (parse_segments a (split b':' t))
  unfolding decrypt read_segments
  decrypt_text t w h =
      ap (read_segments a) (laws.fernet t w)
      ∙ ap (λ u. as_message_id (parse_segments a (split b':' u))) (laws.ascii t h)

  -- The id of a notification is read back from its encrypted text, for both kinds of ids. The user
  -- and the channel are 128-bit numbers; a topic is graphic ASCII text without a colon, and a
  -- timestamp is a `u64`.
  pub decrypt-encrypt : (m : MessageId) (w : a.World) → IsId m → decrypt a (encrypt a m w).0 ≡ ok m
  unfolding encrypt id_str parse_segments text_eq
  decrypt-encrypt (with_topic uaid channel_id topic) w (h, k, p) =
      let u = a.as_simple uaid in
      let c = a.as_simple channel_id in
      decrypt_text (id_str a (with_topic uaid channel_id topic)) w (
        four-IsAscii topic_notification_prefix u c topic topic_tag (laws.simple_part uaid h)
          (laws.simple_part channel_id k) p)
      ∙ ap (λ ts. as_message_id (parse_segments a ts))
          (split_four topic_notification_prefix u c topic topic_tag (laws.simple_part uaid h)
            (laws.simple_part channel_id k) p)
      ∙ ground (arith, laws.parse_simple uaid h, laws.parse_simple channel_id k)
  decrypt-encrypt (without_topic uaid channel_id timestamp) w (h, k, b) =
      let u = a.as_simple uaid in
      let c = a.as_simple channel_id in
      let t = to_string-IsPart timestamp in
      decrypt_text (id_str a (without_topic uaid channel_id timestamp)) w (
        four-IsAscii standard_notification_prefix u c (to_string timestamp) standard_tag
          (laws.simple_part uaid h) (laws.simple_part channel_id k) t)
      ∙ ap (λ ts. as_message_id (parse_segments a ts))
          (split_four standard_notification_prefix u c (to_string timestamp) standard_tag
            (laws.simple_part uaid h) (laws.simple_part channel_id k) t)
      ∙ ground (
        arith,
        laws.parse_simple uaid h,
        laws.parse_simple channel_id k,
        parse_u64-to_string timestamp b,
      )

module _ (a : Autoendpoint) where
  uaid_of-message_id_of :
      (uaid channel_id timestamp : ℕ) (topic : Option Text)
      → uaid_of (message_id_of a uaid channel_id topic timestamp) ≡ uaid
  unfolding message_id_of
  uaid_of-message_id_of uaid channel_id timestamp none = refl
  uaid_of-message_id_of uaid channel_id timestamp (some topic) = refl

  sort_key-chidmessageid :
      (ms_since_epoch : ℕ) (n : EndpointNotification) (topic : Option Text)
      → n.headers.topic ≡ topic
      → 0 < n.sort_key_timestamp
      → sort_key a (message_id_of a n.user.uaid n.channel_id topic n.sort_key_timestamp)
        ≡ chidmessageid a.keys.as_hyphenated ms_since_epoch (into_notification n)
  unfolding sort_key message_id_of chidmessageid into_notification
  sort_key-chidmessageid ms_since_epoch n (some topic) e h = rw e refl
  sort_key-chidmessageid ms_since_epoch n none e h = rw e (ground (arith, h))

  -- A DELETE with the id that a notification was given removes the row of the user that the
  -- notification is stored under, whatever the time of the clock, if the sort key timestamp is not 0.
  pub delete_notification_route-chidmessageid :
      (ms_since_epoch : ℕ) (n : EndpointNotification) (w : a.World)
      → 0 < n.sort_key_timestamp
      → delete_notification_route a
          (message_id_of a n.user.uaid n.channel_id n.headers.topic n.sort_key_timestamp)
          w
        ≡ db_as database (
            a.db.remove_message n.user.uaid
              (chidmessageid a.keys.as_hyphenated ms_since_epoch (into_notification n))
              w)
  unfolding delete_notification_route
  delete_notification_route-chidmessageid ms_since_epoch n w h =
      ap
        (λ uaid. db_as database (
          a.db.remove_message uaid
            (sort_key a
              (message_id_of a n.user.uaid n.channel_id n.headers.topic n.sort_key_timestamp))
            w))
        (uaid_of-message_id_of n.user.uaid n.channel_id n.sort_key_timestamp n.headers.topic)
      ∙ ap (λ key. db_as database (a.db.remove_message n.user.uaid key w))
          (sort_key-chidmessageid ms_since_epoch n n.headers.topic refl h)
