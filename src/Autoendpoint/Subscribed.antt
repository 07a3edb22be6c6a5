-- ===== src/Autoendpoint/Subscribed.antt =====
-- Who may get a notification (autoendpoint/src/extractors/user.rs).
use autopush_rs.Prelude.{
  ℕ, ◌≡◌, ◌∙◌, refl, sym, ap, subst, arith, ◌⊎◌, inl, inr, true, false, Option, none, some, List,
  Text, Bool-cases, if_true, if_false, contains, nat_eq, text_eq, text_eq→eq, not,
}
use autopush_rs.Services.{User, ok}
use autopush_rs.Autoendpoint.{
  ApiError, database, no_subscription, not_found, pure, Autoendpoint, Handler,
  and_then_handler-eq-ok, db_as-eq-ok, db_as,
}
use autopush_rs.Autoendpoint.Users.{
  RouterType, webpush, fcm, gcm, apns, adm, from_str, drop_with, if_subscribed, check_channel,
  check_month, validate_webpush_user, validate_type, validate_user,
}

module _ (a : Autoendpoint) where
  at : {A : Type 0} {f g : Handler a.World A} → f ≡ g → (w : a.World) → f w ≡ g w
  at {A} e w = ap (λ (f : Handler a.World A). f w) e

  -- What a user has to have for web push: a month that is the database's, where it has months, and
  -- the channel.
  abbrev pub HasChannel : User → ℕ → a.World → a.World → Type 0
  HasChannel user channel_id w w' =
      (channels : List ℕ) × (a.db.get_channels user.uaid w ≡ (ok channels, w'))
      × (contains channels channel_id ≡ true)

  abbrev pub IsSubscribed : User → ℕ → a.World → a.World → Type 0
  IsSubscribed user channel_id w w' =
      HasChannel user channel_id w w'
      × ((a.db.rotating_message_table ≡ none) ⊎ (user.current_month ≡ a.db.rotating_message_table))

  if_subscribed-contains :
      (channel_id : ℕ) (channels : List ℕ) (w : a.World) {w' : a.World}
      → if_subscribed a channel_id channels w ≡ (ok tt, w')
      → (contains channels channel_id ≡ true) × (w ≡ w')
  if_subscribed-contains channel_id channels w h = (ground (arith, h), ground (arith, h))

  check_channel-contains :
      (user : User) (channel_id : ℕ) (w : a.World) {w' : a.World}
      → check_channel a user channel_id w ≡ (ok tt, w')
      → HasChannel user channel_id w w'
  unfolding check_channel
  check_channel-contains user channel_id w h =
      let (channels, w1, hg, hc) =
        and_then_handler-eq-ok (db_as database (a.db.get_channels user.uaid w))
          (if_subscribed a channel_id) h in
      let (has, same) = if_subscribed-contains channel_id channels w1 hc in
      (
        channels,
        db_as-eq-ok database (a.db.get_channels user.uaid w) hg
            ∙ ap (λ (x : a.World). (ok channels, x)) same,
        has,
      )

  drop_with-fails :
      {A : Type 0} (e : ApiError) (user : User) (w : a.World) {x : A} {w' : a.World}
      → drop_with a e user w ≡ (ok x, w')
      → true ≡ false
  drop_with-fails e user w h = ground (arith, h)

  check_month-IsSubscribed :
      (user : User) (channel_id : ℕ) (table month : Option Text) (w : a.World) {w' : a.World}
      → check_month a user channel_id table month w ≡ (ok tt, w')
      → HasChannel user channel_id w w' × ((table ≡ none) ⊎ (month ≡ table))
  unfolding check_month
  check_month-IsSubscribed user channel_id none month w h =
      (check_channel-contains user channel_id w h, inl refl)
  check_month-IsSubscribed user channel_id (some table) none w h =
      absurd (cc (drop_with-fails no_subscription user w h))
  check_month-IsSubscribed user channel_id (some table) (some month) w h =
      elim (Bool-cases (text_eq month table)) [
        | inl e ↦ (
          check_channel-contains user channel_id w
              (sym (at (if_false (not (text_eq month table)) _ _ (ground (arith, e))) w) ∙ h),
          inr (ap some (text_eq→eq month table e)),
        )
        | inr e ↦ absurd (
            cc (
              drop_with-fails no_subscription user w
                (sym (at (if_true (not (text_eq month table)) _ _ (ground (arith, e))) w) ∙ h)))
      ]

  validate_type-IsSubscribed :
      (user : User) (channel_id : ℕ) (type : Option RouterType) (w : a.World) {w' : a.World}
      → validate_type a user channel_id type w ≡ (ok webpush, w')
      → IsSubscribed user channel_id w w'
  unfolding validate_type validate_webpush_user
  validate_type-IsSubscribed user channel_id (some webpush) w h =
      let (_, w1, hv, hp) =
        and_then_handler-eq-ok (validate_webpush_user a user channel_id w) (λ _. pure webpush) h in
      subst (IsSubscribed user channel_id w) (ground (arith, hp)) (
        check_month-IsSubscribed user channel_id a.db.rotating_message_table user.current_month w
          hv)
  validate_type-IsSubscribed user channel_id none w h =
      absurd (cc (drop_with-fails no_subscription user w h))
  validate_type-IsSubscribed user channel_id (some gcm) w h =
      absurd (cc (drop_with-fails not_found user w h))
  validate_type-IsSubscribed user channel_id (some fcm) w h = absurd (ground (arith, h))
  validate_type-IsSubscribed user channel_id (some apns) w h = absurd (ground (arith, h))
  validate_type-IsSubscribed user channel_id (some adm) w h = absurd (ground (arith, h))

  -- A validation that lets a web push user through for a channel has made one call, from the world it
  -- began in to the one it ends in: it read the channels of the user, and the channel is among them;
  -- and the month in the record of the user is the database's, if that has months.
  pub validate_user-IsSubscribed :
      (user : User) (channel_id : ℕ) (w : a.World) {w' : a.World}
      → validate_user a user channel_id w ≡ (ok webpush, w')
      → IsSubscribed user channel_id w w'
  unfolding validate_user
  validate_user-IsSubscribed user channel_id w h =
      validate_type-IsSubscribed user channel_id (from_str user.router_type) w h
