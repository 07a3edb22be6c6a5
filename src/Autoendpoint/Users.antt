-- ===== src/Autoendpoint/Users.antt =====
-- autoendpoint/src/extractors/user.rs: whether a user may still get notifications.
use autopush_rs.Prelude.{
  ℕ, not, Option, none, some, List, Text, codes, text_eq, contains, nat_eq, if◌then◌else◌,
}
use autopush_rs.Services.{User}
use autopush_rs.Autoendpoint.Headers.{to_lowercase}
use autopush_rs.Autoendpoint.{
  ApiError, database, no_subscription, not_found, Autoendpoint, Handler, ◌>>=◌, ◌>>◌, pure, throw,
  db_as,
}

-- `RouterType` of extractors/routers.rs.
pub data RouterType : Type 0 where
  webpush fcm gcm apns adm : RouterType

unfoldable pub from_str : Text → Option RouterType
unfolding to_lowercase
from_str s =
    let name = to_lowercase s in
    if text_eq name (codes "webpush")
    then some webpush
    else if text_eq name (codes "fcm")
    then some fcm
    else if text_eq name (codes "gcm")
    then some gcm
    else if text_eq name (codes "apns")
    then some apns
    else if text_eq name (codes "adm")
    then some adm
    else none

module _ (a : Autoendpoint) where
  unfoldable pub drop_user : ℕ → Handler a.World (Unit {0})
  drop_user uaid w = db_as database (a.db.remove_user uaid w)

  abbrev pub drop_with : {A : Type 0} → ApiError → User → Handler a.World A
  drop_with e user = drop_user user.uaid >> throw e

  abbrev pub if_subscribed : ℕ → List ℕ → Handler a.World (Unit {0})
  if_subscribed channel_id channel_ids =
      if not (contains channel_ids channel_id) then throw no_subscription else pure tt

  unfoldable pub check_channel : User → ℕ → Handler a.World (Unit {0})
  check_channel user channel_id =
      (λ w. db_as database (a.db.get_channels user.uaid w)) >>= if_subscribed channel_id

  -- The month of the database, if it has months, against the month of the user.
  unfoldable pub check_month : User → ℕ → Option Text → Option Text → Handler a.World (Unit {0})
  unfolding drop_user check_channel
  check_month user channel_id none current_month = check_channel user channel_id
  check_month user channel_id (some rotating_message_table) none = drop_with no_subscription user
  check_month user channel_id (some rotating_message_table) (some current_month) =
      if not (text_eq current_month rotating_message_table)
      then drop_with no_subscription user
      else check_channel user channel_id

  unfoldable pub validate_webpush_user : User → ℕ → Handler a.World (Unit {0})
  unfolding check_month
  validate_webpush_user user channel_id =
      check_month user channel_id a.db.rotating_message_table user.current_month

  -- By the type of the router: the users of a service that is gone are dropped.
  unfoldable pub validate_type : User → ℕ → Option RouterType → Handler a.World RouterType
  unfolding validate_webpush_user drop_user
  validate_type user channel_id none = drop_with no_subscription user
  validate_type user channel_id (some gcm) = drop_with not_found user
  validate_type user channel_id (some webpush) =
      validate_webpush_user user channel_id >> pure webpush
  validate_type user channel_id (some fcm) = pure fcm
  validate_type user channel_id (some apns) = pure apns
  validate_type user channel_id (some adm) = pure adm

  unfoldable pub validate_user : User → ℕ → Handler a.World RouterType
  unfolding validate_type from_str
  validate_user user channel_id = validate_type user channel_id (from_str user.router_type)
