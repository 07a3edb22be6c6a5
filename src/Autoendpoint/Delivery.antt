-- ===== src/Autoendpoint/Delivery.antt =====
-- No notification that is answered for gets lost (autoendpoint/src/routers/webpush.rs).
use autopush_rs.Prelude.{ℕ, ◌≡◌, Bool, true, false, none, some, Text, ◌==◌, nat_eq}
use autopush_rs.Services.{ok}
use autopush_rs.Autoendpoint.{Autoendpoint, EndpointNotification, into_notification}
use autopush_rs.Autoendpoint.Router.{push_url, remove_node_id}

module _ (a : Autoendpoint) where
  -- The node of the user answers the PUT of the notification with status 200.
  abbrev pub IsTaken : EndpointNotification → a.World → a.World → Type 0
  IsTaken n w w' =
      (node_id : Text) × (n.user.node_id ≡ some node_id)
      × (a.put (push_url a node_id n.user.uaid) (some n) w ≡ (some 200, w'))

  -- What happens when no node takes the notification: there is none, or it answers with another status,
  -- or it cannot be reached, and then it is removed from the user.
  pub data Refused (n : EndpointNotification) : a.World → a.World → Type 0 where
    no_node : (w : a.World) → n.user.node_id ≡ none → Refused n w w
    busy :
        (node_id : Text) (status : ℕ) (w w' : a.World)
        → n.user.node_id ≡ some node_id
        → a.put (push_url a node_id n.user.uaid) (some n) w ≡ (some status, w')
        → (status == 200) ≡ false
        → Refused n w w'
    unreachable :
        (node_id : Text) (removed : Bool) (w w1 w' : a.World)
        → n.user.node_id ≡ some node_id
        → a.put (push_url a node_id n.user.uaid) (some n) w ≡ (none, w1)
        → a.db.remove_node_id n.user.uaid node_id n.user.connected_at n.user.version w1
          ≡ (ok removed, w')
        → Refused n w w'

  -- No node takes it, and next the database saves it.
  abbrev pub IsSaved : EndpointNotification → a.World → Type 0
  IsSaved n w =
      (w1 : a.World) × (w2 : a.World) × Refused n w w1
      × (a.db.save_message n.user.uaid (into_notification n) w1 ≡ (ok tt, w2))

  -- It has a TTL of 0, and that no node takes it is all that happens.
  abbrev pub IsDropped : EndpointNotification → a.World → a.World → Type 0
  IsDropped n w w' = (n.headers.ttl ≡ 0) × Refused n w w'

  -- How an attempt at the node ends.
  abbrev Tried : EndpointNotification → Bool → a.World → a.World → Type 0
  Tried n true w w' = IsTaken n w w'
  Tried n false w w' = Refused n w w'
