-- ===== src/Records/Keys.antt =====
-- A key is read back from the text that stores it.
use autopush_rs.Prelude.{
  ℕ, ◌^◌, ◌≤◌, ◌<◌, ◌≡◌, refl, ◌∙◌, ap, Bool, true, false, not, ◌&&◌, Option, none, some, [], ◌∷◌,
  Text, codes, text_eq, text_eq→eq, split, leb, ◌==◌, length, is_empty, All, arith, to_string,
  is_digit, to_string-All, to_string-nonempty, parse_u64-to_string, Bool-cases, inl, inr, All-mono,
  if◌then◌else◌,
}
use autopush_rs.Notification.{
  Notification, chidmessageid, colon_join, topic_notification_prefix, standard_notification_prefix,
}
use autopush_rs.Services.{ok}
use autopush_rs.Records.{KeyCrates, RangeKey, key_patterns, range_key, parse_chidmessageid}

-- A part of a key: graphic ASCII characters that are no colon, at least one.
abbrev pub is_part_char : ℕ → Bool
is_part_char c = leb 33 c && leb c 126 && not (c == b':')

abbrev pub IsPart : Text → Type 0
IsPart t = (is_empty t ≡ false) × All (λ c. is_part_char c ≡ true) t

-- What the code relies on of the uuid crate, for its 128-bit numbers, and of the regex crate, for the
-- three patterns.
pub record AreKeyCrates (k : KeyCrates) : Type 0 where
  pub parse_printed : (n : ℕ) → n < 2 ^ 128 → k.parse_str (k.as_hyphenated n) ≡ some n
  pub printed_part : (n : ℕ) → n < 2 ^ 128 → IsPart (k.as_hyphenated n)
  pub printed_length : (n : ℕ) → n < 2 ^ 128 → length (k.as_hyphenated n) ≡ 36
  pub match_topic :
      (a b : Text)
      → IsPart a
      → IsPart b
      → k.is_match key_patterns (colon_join topic_notification_prefix (colon_join a b)) ≡ true
  pub match_standard :
      (n : ℕ) (b : Text)
      → IsPart b
      → k.is_match key_patterns
          (colon_join standard_notification_prefix (colon_join (to_string n) b))
        ≡ true
  pub match_legacy :
      (a b : Text)
      → IsPart a
      → 3 ≤ length a
      → IsPart b
      → k.is_match key_patterns (colon_join a b) ≡ true

pub split-part :
    (a rest : Text)
    → All (λ c. is_part_char c ≡ true) a
    → split b':' (colon_join a rest) ≡ a ∷ split b':' rest
unfolding split
split-part [] rest h = refl
split-part (c ∷ a) rest h = ground (arith, h.0, split-part a rest h.1)

split-last : (a : Text) → All (λ c. is_part_char c ≡ true) a → split b':' a ≡ a ∷ []
unfolding split
split-last [] h = refl
split-last (c ∷ a) h = ground (arith, h.0, split-last a h.1)

split_two :
    (a b : Text)
    → All (λ c. is_part_char c ≡ true) a
    → All (λ c. is_part_char c ≡ true) b
    → split b':' (colon_join a b) ≡ a ∷ b ∷ []
split_two a b p q = split-part a b p ∙ ap (λ ts. a ∷ ts) (split-last b q)

pub split_three :
    (a b c : Text)
    → All (λ x. is_part_char x ≡ true) a
    → All (λ x. is_part_char x ≡ true) b
    → All (λ x. is_part_char x ≡ true) c
    → split b':' (colon_join a (colon_join b c)) ≡ a ∷ b ∷ c ∷ []
split_three a b c p q r = split-part a (colon_join b c) p ∙ ap (λ ts. a ∷ ts) (split_two b c q r)

-- The key of a notification, and the notifications whose stored key shows all of it. The sort key 0
-- stands for the time of the clock, and a part of a key has no colon in it.
abbrev pub key_of : Notification → RangeKey
key_of n = elim n.topic [
  | some topic ↦ record {
    channel_id = n.channel_id;
    topic = some topic;
    sortkey_timestamp = none;
    legacy_version = none;
  }
  | none ↦ elim n.sortkey_timestamp [
    | some sortkey ↦ record {
      channel_id = n.channel_id;
      topic = none;
      sortkey_timestamp = some sortkey;
      legacy_version = none;
    }
    | none ↦ record {
      channel_id = n.channel_id;
      topic = none;
      sortkey_timestamp = none;
      legacy_version = some n.version;
    }
  ]
]

abbrev pub IsKeyed : Notification → Type 0
IsKeyed n = (n.channel_id < 2 ^ 128) × (elim n.topic [
  | some topic ↦ IsPart topic
  | none ↦ elim n.sortkey_timestamp [
    | some sortkey ↦ (0 < sortkey) × (sortkey < 2 ^ 64)
    | none ↦ IsPart n.version
  ]
])

digit_part : (c : ℕ) → is_digit c ≡ true → is_part_char c ≡ true
digit_part c h = ground arith

pub to_string-IsPart : (n : ℕ) → IsPart (to_string n)
to_string-IsPart n = (to_string-nonempty n, All-mono _ _ digit_part (to_string n) (to_string-All n))

-- A long first part is no tag.
not_tag : (a b : Text) → length a ≡ 36 → length b ≡ 2 → text_eq a b ≡ false
not_tag a b h k = elim (Bool-cases (text_eq a b)) [
  | inl e ↦ absurd (ground (arith, h, k, text_eq→eq a b e))
  | inr e ↦ e
]

abbrev pub with_key : Notification → Option Text → Option ℕ → Notification
with_key n topic sortkey = record n { topic = topic; sortkey_timestamp = sortkey }

nonzero : (n m : ℕ) → 0 < n → (if n == 0 then m else n) ≡ n
nonzero n m h = ground (arith, h)

module _ (k : KeyCrates) (w : AreKeyCrates k) where
  parse_matched :
      (key : Text)
      → k.is_match key_patterns key ≡ true
      → parse_chidmessageid k key ≡ range_key k (split b':' key)
  unfolding parse_chidmessageid
  parse_matched key h = rw h refl

  parse_topic :
      (id : ℕ) (topic : Text)
      → id < 2 ^ 128
      → IsPart topic
      → parse_chidmessageid k
          (colon_join topic_notification_prefix (colon_join (k.as_hyphenated id) topic))
        ≡ ok (record {
          channel_id = id;
          topic = some topic;
          sortkey_timestamp = none;
          legacy_version = none;
        })
  unfolding range_key text_eq
  parse_topic id topic b p =
      let a = k.as_hyphenated id in
      parse_matched _ (w.match_topic a topic (w.printed_part id b) p)
      ∙ ap (range_key k) (
          split_three topic_notification_prefix a topic (refl, (refl, tt)) (w.printed_part id b).1
            p.1)
      ∙ ground (arith, w.parse_printed id b)

  parse_standard :
      (id sortkey : ℕ)
      → id < 2 ^ 128
      → sortkey < 2 ^ 64
      → parse_chidmessageid k (
          colon_join standard_notification_prefix
            (colon_join (to_string sortkey) (k.as_hyphenated id)))
        ≡ ok (record {
          channel_id = id;
          topic = none;
          sortkey_timestamp = some sortkey;
          legacy_version = none;
        })
  unfolding range_key text_eq
  parse_standard id sortkey b c =
      let a = k.as_hyphenated id in
      parse_matched _ (w.match_standard sortkey a (w.printed_part id b))
      ∙ ap (range_key k) (
          split_three standard_notification_prefix (to_string sortkey) a (refl, (refl, tt))
            (to_string-IsPart sortkey).1 (w.printed_part id b).1)
      ∙ ground (arith, w.parse_printed id b, parse_u64-to_string sortkey c)

  parse_legacy :
      (id : ℕ) (version : Text)
      → id < 2 ^ 128
      → IsPart version
      → parse_chidmessageid k (colon_join (k.as_hyphenated id) version)
        ≡ ok (record {
          channel_id = id;
          topic = none;
          sortkey_timestamp = none;
          legacy_version = some version;
        })
  unfolding range_key text_eq
  parse_legacy id version b p =
      let a = k.as_hyphenated id in
      parse_matched _
        (w.match_legacy a version (w.printed_part id b) (omega (arith, w.printed_length id b)) p)
      ∙ ap (range_key k) (split_two a version (w.printed_part id b).1 p.1)
      ∙ ground (
        arith,
        w.parse_printed id b,
        not_tag a (codes "01") (w.printed_length id b) refl,
        not_tag a (codes "02") (w.printed_length id b) refl,
      )

  keyed :
      (ms_since_epoch : ℕ) (n : Notification) (topic : Option Text) (sortkey : Option ℕ)
      → IsKeyed (with_key n topic sortkey)
      → parse_chidmessageid k
          (chidmessageid k.as_hyphenated ms_since_epoch (with_key n topic sortkey))
        ≡ ok (key_of (with_key n topic sortkey))
  unfolding chidmessageid
  keyed ms_since_epoch n (some topic) sortkey (b, h) = parse_topic n.channel_id topic b h
  keyed ms_since_epoch n none (some sortkey) (b, h) =
      rw (nonzero sortkey ms_since_epoch h.0) (parse_standard n.channel_id sortkey b h.1)
  keyed ms_since_epoch n none none (b, h) = parse_legacy n.channel_id n.version b h

  -- The key of a notification is read back from the text that the notification is stored under, for
  -- each of the three kinds of keys. The channel is a 128-bit number; a topic, or the version where
  -- neither a topic nor a sort key is there, is graphic ASCII text without a colon; and a sort key
  -- is not 0 and a `u64`.
  pub parse_chidmessageid-chidmessageid :
      (ms_since_epoch : ℕ) (n : Notification)
      → IsKeyed n
      → parse_chidmessageid k (chidmessageid k.as_hyphenated ms_since_epoch n) ≡ ok (key_of n)
  parse_chidmessageid-chidmessageid ms_since_epoch n h =
      keyed ms_since_epoch n n.topic n.sortkey_timestamp h
