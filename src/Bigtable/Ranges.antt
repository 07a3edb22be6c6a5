-- ===== src/Bigtable/Ranges.antt =====
-- Which rows the two reads of messages ask for (bigtable_client/mod.rs).
use autopush_rs.Prelude.{
  ℕ, ◌^◌, ◌<◌, ◌≡◌, ◌∙◌, refl, sym, ap, arith, Bool, true, false, ◌&&◌, Option, none, some, [], ◌∷◌,
  ◌++◌, Text, codes, text_lt, text_lt_asym, text_lt_front, text_lt-to_string, to_string, length,
  ltb, Bool-cases, inl, inr, ◌==◌, eqb→eq,
}
use autopush_rs.Notification.{colon_join, standard_notification_prefix, topic_notification_prefix}
use autopush_rs.Bigtable.{Bigtable}
use autopush_rs.Bigtable.Messages.{message_key}
use autopush_rs.Bigtable.Pending.{start_key, end_key, topic_start, topic_end}

-- The row of a message with a sort key.
abbrev pub stamped_key : Bigtable → ℕ → ℕ → ℕ → Text
stamped_key b uaid sortkey channel_id = message_key b uaid (
    colon_join standard_notification_prefix
      (colon_join (to_string sortkey) (b.keys.as_hyphenated channel_id)))

-- The row of a message with a topic.
abbrev pub topic_key : Bigtable → ℕ → ℕ → Text → Text
topic_key b uaid channel_id topic =
    message_key b uaid
      (colon_join topic_notification_prefix (colon_join (b.keys.as_hyphenated channel_id) topic))

-- A range that is open at both ends.
abbrev pub is_between : Text → Text → Text → Bool
is_between low high key = text_lt low key && text_lt key high

abbrev pub is_later : Option ℕ → ℕ → Bool
is_later none sortkey = true
is_later (some timestamp) sortkey = ltb timestamp sortkey

module _ (b : Bigtable) where
  -- All the keys of a user begin alike.
  key_lt :
      (uaid : ℕ) (x y : Text) → text_lt (message_key b uaid x) (message_key b uaid y) ≡ text_lt x y
  unfolding text_lt
  key_lt uaid x y = text_lt_front (b.as_simple uaid) (b'#' ∷ x) (b'#' ∷ y) ∙ ground arith

  stamped_after :
      (timestamp sortkey : ℕ) (rest : Text)
      → timestamp < 2 ^ 64
      → sortkey < 2 ^ 64
      → length (to_string timestamp) ≡ length (to_string sortkey)
      → text_lt (to_string timestamp ++ codes "z") (to_string sortkey ++ b':' ∷ rest)
        ≡ ltb timestamp sortkey
  unfolding text_lt
  stamped_after timestamp sortkey rest t k e = elim (Bool-cases (ltb timestamp sortkey)) [
    | inl l ↦
        text_lt-to_string timestamp sortkey (codes "z") (b':' ∷ rest) (ground (arith, l)) k e
        ∙ sym l
    | inr l ↦ elim (Bool-cases (timestamp == sortkey)) [
      | inl m ↦
          ap (λ (n : ℕ). text_lt (to_string timestamp ++ codes "z") (to_string n ++ b':' ∷ rest))
            (sym (eqb→eq timestamp sortkey m))
          ∙ text_lt_front (to_string timestamp) (codes "z") (b':' ∷ rest)
          ∙ sym l
      | inr m ↦
          text_lt_asym (to_string sortkey ++ b':' ∷ rest) (to_string timestamp ++ codes "z") (
            text_lt-to_string sortkey timestamp (b':' ∷ rest) (codes "z") (ground (arith, l, m)) t
              (sym e))
          ∙ sym l
    ]
  ]

  nil_lt : (t : Text) (c : ℕ) (rest : Text) → text_lt [] (t ++ c ∷ rest) ≡ true
  unfolding text_lt
  nil_lt [] c rest = refl
  nil_lt (d ∷ t) c rest = refl

  stamped_start :
      (uaid : ℕ) (timestamp : Option ℕ) (sortkey channel_id : ℕ)
      → ((t : ℕ)
          → timestamp ≡ some t
          → (t < 2 ^ 64) × (length (to_string t) ≡ length (to_string sortkey)))
      → sortkey < 2 ^ 64
      → text_lt (start_key b uaid timestamp) (stamped_key b uaid sortkey channel_id)
        ≡ is_later timestamp sortkey
  unfolding start_key text_lt
  stamped_start uaid none sortkey channel_id h k =
      let x = to_string sortkey ++ b':' ∷ b.keys.as_hyphenated channel_id in
      key_lt uaid (codes "02:") (codes "02:" ++ x)
      ∙ text_lt_front (codes "02:") [] x
      ∙ nil_lt (to_string sortkey) b':' (b.keys.as_hyphenated channel_id)
  stamped_start uaid (some t) sortkey channel_id h k =
      let rest = b.keys.as_hyphenated channel_id in
      let x = to_string sortkey ++ b':' ∷ rest in
      let y = to_string t ++ codes "z" in
      key_lt uaid (codes "02:" ++ y) (codes "02:" ++ x)
      ∙ text_lt_front (codes "02:") y x
      ∙ stamped_after t sortkey rest (h t refl).0 k (h t refl).1

  -- The row range of `fetch_timestamp_messages` has the row of a message with a sort key exactly if
  -- that key is later than the timestamp, or no timestamp is given. Both are `u64`s, of as many
  -- digits as one another: the order of the rows is that of their texts.
  pub is_between-stamped_key :
      (uaid : ℕ) (timestamp : Option ℕ) (sortkey channel_id : ℕ)
      → ((t : ℕ)
          → timestamp ≡ some t
          → (t < 2 ^ 64) × (length (to_string t) ≡ length (to_string sortkey)))
      → sortkey < 2 ^ 64
      → is_between
          (start_key b uaid timestamp)
          (end_key b uaid)
          (stamped_key b uaid sortkey channel_id)
        ≡ is_later timestamp sortkey
  unfolding text_lt
  is_between-stamped_key uaid timestamp sortkey channel_id h k =
      let x = to_string sortkey ++ b':' ∷ b.keys.as_hyphenated channel_id in
      ground (
        arith,
        stamped_start uaid timestamp sortkey channel_id h k,
        key_lt uaid (codes "02:" ++ x) (codes "03:"),
      )

  topic_before_start :
      (uaid : ℕ) (timestamp : Option ℕ) (rest : Text)
      → text_lt (start_key b uaid timestamp) (message_key b uaid (codes "01:" ++ rest)) ≡ false
  unfolding start_key text_lt
  topic_before_start uaid none rest = key_lt uaid (codes "02:") (codes "01:" ++ rest)
  topic_before_start uaid (some t) rest =
      key_lt uaid (codes "02:" ++ to_string t ++ codes "z") (codes "01:" ++ rest)

  topic_after_start :
      (uaid : ℕ) (a rest : Text)
      → text_lt (topic_start b uaid) (message_key b uaid (codes "01:" ++ a ++ b':' ∷ rest)) ≡ true
  topic_after_start uaid a rest =
      key_lt uaid (codes "01:") (codes "01:" ++ a ++ b':' ∷ rest)
      ∙ text_lt_front (codes "01:") [] (a ++ b':' ∷ rest)
      ∙ nil_lt a b':' rest

  stamped_after_topics :
      (uaid : ℕ) (x : Text)
      → text_lt (message_key b uaid (codes "02:" ++ x)) (topic_end b uaid) ≡ false
  unfolding text_lt
  stamped_after_topics uaid x =
      key_lt uaid (codes "02:" ++ x) (codes "02:") ∙ text_lt_front (codes "02:") x []

  -- The row of a message with a topic is in the range of `fetch_topic_messages` and not in that of
  -- `fetch_timestamp_messages`, and the row of a message with a sort key is not in the first.
  pub is_between-topic_key :
      (uaid : ℕ) (timestamp : Option ℕ) (sortkey channel_id : ℕ) (topic : Text)
      → (is_between (topic_start b uaid) (topic_end b uaid) (topic_key b uaid channel_id topic)
          ≡ true)
        × (is_between
              (start_key b uaid timestamp)
              (end_key b uaid)
              (topic_key b uaid channel_id topic)
            ≡ false)
        × (is_between
              (topic_start b uaid)
              (topic_end b uaid)
              (stamped_key b uaid sortkey channel_id)
            ≡ false)
  unfolding text_lt
  is_between-topic_key uaid timestamp sortkey channel_id topic =
      let rest = b.keys.as_hyphenated channel_id ++ b':' ∷ topic in
      let x = to_string sortkey ++ b':' ∷ b.keys.as_hyphenated channel_id in
      (
        ground (
          arith,
          topic_after_start uaid (b.keys.as_hyphenated channel_id) topic,
          key_lt uaid (codes "01:" ++ rest) (codes "02:"),
        ),
        ground (arith, topic_before_start uaid timestamp rest),
        ground (arith, stamped_after_topics uaid x),
      )
