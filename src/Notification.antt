-- ===== src/Notification.antt =====
-- autopush-common/src/notification.rs. A `Uuid` is its 128-bit number, and a header map a list.
use autopush_rs.Prelude.{
  ℕ, Bool, Option, none, some, List, ◌∷◌, ◌++◌, Text, codes, leb, add64, to_string, ◌==◌,
  if◌then◌else◌,
}

pub record Notification : Type 0 where
  pub channel_id : ℕ
  pub version : Text
  pub ttl : ℕ
  pub topic : Option Text
  pub timestamp : ℕ
  pub body : Option Text
  pub sortkey_timestamp : Option ℕ
  pub headers : Option (List (Text × Text))

abbrev pub topic_notification_prefix : Text
topic_notification_prefix = codes "01"

abbrev pub standard_notification_prefix : Text
standard_notification_prefix = codes "02"

-- `format!("{a}:{b}")`.
abbrev pub colon_join : Text → Text → Text
colon_join a b = a ++ b':' ∷ b

-- `chidmessageid`, given the printer of the uuid crate and the reading of the clock that it takes if
-- the sort key is 0.
unfoldable pub chidmessageid : (ℕ → Text) → ℕ → Notification → Text
unfolding to_string
chidmessageid as_hyphenated ms_since_epoch n = elim n.topic [
  | some topic ↦
      colon_join topic_notification_prefix (colon_join (as_hyphenated n.channel_id) topic)
  | none ↦ elim n.sortkey_timestamp [
    | some sortkey_timestamp ↦ colon_join standard_notification_prefix (
        colon_join
          (to_string (if sortkey_timestamp == 0 then ms_since_epoch else sortkey_timestamp))
          (as_hyphenated n.channel_id))
    | none ↦ colon_join (as_hyphenated n.channel_id) n.version
  ]
]

unfoldable pub expired : Notification → ℕ → Bool
expired n at_sec = leb (add64 n.timestamp n.ttl) at_sec
