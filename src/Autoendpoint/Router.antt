-- ===== src/Autoendpoint/Router.antt =====
-- autoendpoint/src/routers/webpush.rs: a notification goes to the node of the user, or to the database;
-- and the removal of one by its id (routes/webpush.rs).
use autopush_rs.Prelude.{
  ℕ, Bool, true, false, ◌==◌, Option, none, some, ◌++◌, Text, codes, to_string, if◌then◌else◌,
}
use autopush_rs.Protocol.{DbError}
use autopush_rs.Services.{User, Result, ok, err}
use autopush_rs.Autoendpoint.{
  ApiError, database, save_db, user_was_deleted, Autoendpoint, EndpointNotification, Handler, ◌>>=◌,
  ◌>>◌, pure, db_as, into_notification,
}
use autopush_rs.Autoendpoint.MessageId
use autopush_rs.Autoendpoint.MessageId.{MessageId, uaid_of}

-- `Location` is missing where the url crate refuses the id; there the code panics. Of the metrics, and
-- of an error in sending one, the model has nothing.
pub record RouterResponse : Type 0 where
  pub status : ℕ
  pub location : Option Text
  pub ttl : Text

module _ (a : Autoendpoint) where
  -- The answer is the same for a delivered and for a stored notification, but for its metrics.
  unfoldable pub make_response : EndpointNotification → RouterResponse
  unfolding to_string
  make_response n = record {
    status = 201;
    location = a.join_url a.endpoint_url (codes "/m/" ++ n.message_id);
    ttl = to_string n.headers.ttl;
  }

  abbrev pub push_url : Text → ℕ → Text
  push_url node_id uaid = node_id ++ codes "/push/" ++ a.keys.as_hyphenated uaid

  abbrev pub notif_url : Text → ℕ → Text
  notif_url node_id uaid = node_id ++ codes "/notif/" ++ a.keys.as_hyphenated uaid

  unfoldable pub send_notification : EndpointNotification → Text → a.World → Option ℕ × a.World
  send_notification n node_id = a.put (push_url node_id n.user.uaid) (some n)

  unfoldable pub trigger_notification_check : ℕ → Text → a.World → Option ℕ × a.World
  trigger_notification_check uaid node_id = a.put (notif_url node_id uaid) none

  unfoldable pub store_notification : EndpointNotification → Handler a.World (Unit {0})
  unfolding into_notification
  store_notification n w = db_as save_db (a.db.save_message n.user.uaid (into_notification n) w)

  abbrev pub forget : Bool → Handler a.World (Unit {0})
  forget removed = pure tt

  unfoldable pub remove_node_id : User → Text → Handler a.World (Unit {0})
  remove_node_id user node_id =
      (λ w. db_as database (a.db.remove_node_id user.uaid node_id user.connected_at user.version w))
      >>= forget

  -- Whether the node has taken the notification. A node that cannot be reached is forgotten.
  unfoldable pub after_send : User → Text → Option ℕ × a.World → Result ApiError Bool × a.World
  unfolding remove_node_id
  after_send user node_id (some status, w) = (ok (status == 200), w)
  after_send user node_id (none, w) = (remove_node_id user node_id >> pure false) w

  unfoldable pub try_node : EndpointNotification → Option Text → Handler a.World Bool
  unfolding send_notification after_send
  try_node n none = pure false
  try_node n (some node_id) = λ w. after_send n.user node_id (send_notification n node_id w)

  -- The node, once the notification is stored: it only has to look.
  unfoldable pub after_check :
      EndpointNotification
      → User
      → Text
      → Option ℕ × a.World
      → Result ApiError RouterResponse × a.World
  unfolding remove_node_id make_response
  after_check n user node_id (some status, w) = (ok (make_response n), w)
  after_check n user node_id (none, w) = (remove_node_id user node_id >> pure (make_response n)) w

  unfoldable pub notify_node :
      EndpointNotification → User → Option Text → Handler a.World RouterResponse
  unfolding trigger_notification_check after_check make_response
  notify_node n user none = pure (make_response n)
  notify_node n user (some node_id) =
      λ w. after_check n user node_id (trigger_notification_check user.uaid node_id w)

  -- The user again: it may have reconnected. An error of the database comes too late to matter.
  unfoldable pub after_store :
      EndpointNotification
      → Result DbError (Option User) × a.World
      → Result ApiError RouterResponse × a.World
  unfolding notify_node make_response
  after_store n (ok (some user), w) = notify_node n user user.node_id w
  after_store n (ok none, w) = (err user_was_deleted, w)
  after_store n (err e, w) = (ok (make_response n), w)

  unfoldable pub store_and_notify : EndpointNotification → Handler a.World RouterResponse
  unfolding store_notification after_store
  store_and_notify n = store_notification n >> (λ w. after_store n (a.db.get_user n.user.uaid w))

  unfoldable pub unless_taken : EndpointNotification → Bool → Handler a.World RouterResponse
  unfolding store_and_notify make_response
  unless_taken n true = pure (make_response n)
  unless_taken n false = if n.headers.ttl == 0 then pure (make_response n) else store_and_notify n

  unfoldable pub route_notification : EndpointNotification → Handler a.World RouterResponse
  unfolding try_node unless_taken
  route_notification n = try_node n n.user.node_id >>= unless_taken n

  unfoldable pub delete_notification_route : MessageId → Handler a.World (Unit {0})
  unfolding MessageId.sort_key
  delete_notification_route message_id w =
      db_as database (a.db.remove_message (uaid_of message_id) (MessageId.sort_key a message_id) w)
