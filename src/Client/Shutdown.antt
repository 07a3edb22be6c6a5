-- ===== src/Client/Shutdown.antt =====
-- The end of a session: `webpush_ws` of autoconnect-ws/src/handler.rs after the select loop, and
-- `shutdown` of identified/mod.rs. The task that it spawns drops its errors.
use mathlib.Core.Path.{subst₂}
use autopush_rs.Prelude.{
  ◌⊎◌, inl, inr, Bool-cases, eqb→eq, false, ℕ, ◌≡◌, refl, ◌∙◌, Option, none, some, List, [], ◌∷◌,
  ◌++◌, map, Text, codes, ◌==◌, is_empty, add32, length, if◌then◌else◌, append-nil, append_assoc,
  sym,
}
use autopush_rs.Notification.{Notification}
use autopush_rs.Protocol.{ServerNotification, DbError}
use autopush_rs.Services.{Services, User, Result, ok, err}
use autopush_rs.Client.{WebPushClient, Session}
use autopush_rs.Client.Storage.{on_server_notif_shutdown, push_direct}

-- The notifications that still wait in the channel once it is closed.
unfoldable pub drain_channel : List ServerNotification → WebPushClient → WebPushClient
unfolding on_server_notif_shutdown
drain_channel [] c = c
drain_channel (n ∷ ns) c = drain_channel ns (on_server_notif_shutdown n c)

abbrev pub as_stored : Notification → Notification
as_stored n = record n { sortkey_timestamp = some 0 }

-- `mem::take`, and the count of what goes to storage.
abbrev pub take_direct : WebPushClient → WebPushClient
take_direct c = record c {
  ack_state = record (c.ack_state) { unacked_direct_notifs = [] };
  stats = record (c.stats) {
    direct_storage = add32 c.stats.direct_storage (length c.ack_state.unacked_direct_notifs);
  };
}

module _ (s : Services) where
  unfoldable pub notify_node : ℕ → Option Text → s.World → s.World
  notify_node uaid none w = w
  notify_node uaid (some node_id) w =
      (s.http_put (node_id ++ codes "/notif/" ++ s.as_simple uaid) w).1

  -- The user may have connected to another node meanwhile.
  unfoldable pub notify_reconnected :
      WebPushClient → Result DbError (Option User) × s.World → s.World
  unfolding notify_node
  notify_reconnected c (err e, w) = w
  notify_reconnected c (ok none, w) = w
  notify_reconnected c (ok (some user), w) =
      if c.connected_at == user.connected_at then w else notify_node c.uaid user.node_id w

  unfoldable pub after_save : WebPushClient → Result DbError (Unit {0}) × s.World → s.World
  unfolding notify_reconnected
  after_save c (err e, w) = w
  after_save c (ok _, w) = notify_reconnected c (s.get_user c.uaid w)

  unfoldable pub save_and_notify_unacked_direct_notifs : Session s → Session s
  unfolding after_save
  save_and_notify_unacked_direct_notifs t =
      let c = t.client in
      let notifs = map as_stored c.ack_state.unacked_direct_notifs in
      if is_empty notifs then t else record {
        client = take_direct c;
        world = after_save c (s.save_messages c.uaid notifs t.world);
      }

  unfoldable pub shutdown : List ServerNotification → Session s → Session s
  unfolding drain_channel save_and_notify_unacked_direct_notifs
  shutdown queued t =
      save_and_notify_unacked_direct_notifs (record t { client = drain_channel queued t.client })

-- The notifications among those of a channel.
abbrev pub queued_notifs : List ServerNotification → List Notification
queued_notifs [] = []
queued_notifs (ServerNotification.notification n ∷ ns) = n ∷ queued_notifs ns
queued_notifs (ServerNotification.check_storage ∷ ns) = queued_notifs ns
queued_notifs (ServerNotification.disconnect ∷ ns) = queued_notifs ns

direct-drain_channel :
    (ns : List ServerNotification) (c : WebPushClient)
    → (drain_channel ns c).ack_state.unacked_direct_notifs
      ≡ c.ack_state.unacked_direct_notifs ++ queued_notifs ns
unfolding drain_channel on_server_notif_shutdown
direct-drain_channel [] c = sym (append-nil c.ack_state.unacked_direct_notifs)
direct-drain_channel (ServerNotification.notification n ∷ ns) c =
    direct-drain_channel ns (push_direct n c)
    ∙ append_assoc c.ack_state.unacked_direct_notifs (n ∷ []) (queued_notifs ns)
direct-drain_channel (ServerNotification.check_storage ∷ ns) c = direct-drain_channel ns c
direct-drain_channel (ServerNotification.disconnect ∷ ns) c = direct-drain_channel ns c

uaid-drain_channel :
    (ns : List ServerNotification) (c : WebPushClient) → (drain_channel ns c).uaid ≡ c.uaid
unfolding drain_channel on_server_notif_shutdown
uaid-drain_channel [] c = refl
uaid-drain_channel (ServerNotification.notification n ∷ ns) c =
    uaid-drain_channel ns (push_direct n c)
uaid-drain_channel (ServerNotification.check_storage ∷ ns) c = uaid-drain_channel ns c
uaid-drain_channel (ServerNotification.disconnect ∷ ns) c = uaid-drain_channel ns c

connected_at-drain_channel :
    (ns : List ServerNotification) (c : WebPushClient)
    → (drain_channel ns c).connected_at ≡ c.connected_at
unfolding drain_channel on_server_notif_shutdown
connected_at-drain_channel [] c = refl
connected_at-drain_channel (ServerNotification.notification n ∷ ns) c =
    connected_at-drain_channel ns (push_direct n c)
connected_at-drain_channel (ServerNotification.check_storage ∷ ns) c =
    connected_at-drain_channel ns c
connected_at-drain_channel (ServerNotification.disconnect ∷ ns) c = connected_at-drain_channel ns c

module _ (s : Services) where
  -- Who gets told once the messages are saved: the node of the user, if the database has the user
  -- with another time of connection and with a node, and nobody else.
  pub data Told (uaid connected_at : ℕ) : s.World → s.World → Type 0 where
    unreadable :
        (e : DbError) (w w' : s.World)
        → s.get_user uaid w ≡ (err e, w')
        → Told uaid connected_at w w'
    unknown : (w w' : s.World) → s.get_user uaid w ≡ (ok none, w') → Told uaid connected_at w w'
    gone :
        (user : User) (w w' : s.World)
        → s.get_user uaid w ≡ (ok (some user), w')
        → (connected_at ≡ user.connected_at) ⊎ (user.node_id ≡ none)
        → Told uaid connected_at w w'
    reconnected :
        (user : User) (node_id : Text) (w w1 w' : s.World)
        → s.get_user uaid w ≡ (ok (some user), w1)
        → (connected_at == user.connected_at) ≡ false
        → user.node_id ≡ some node_id
        → (s.http_put (node_id ++ codes "/notif/" ++ s.as_simple uaid) w1).1 ≡ w'
        → Told uaid connected_at w w'

  -- What the end of a session does with the messages it has: nothing if there are none; else it saves
  -- exactly them, in one call, and if that succeeds it lets the user's new node know.
  pub data Ended (uaid connected_at : ℕ) : List Notification → s.World → s.World → Type 0 where
    nothing : (w : s.World) → Ended uaid connected_at [] w w
    unsaved :
        (m : Notification) (ms : List Notification) (e : DbError) (w w' : s.World)
        → s.save_messages uaid (m ∷ ms) w ≡ (err e, w')
        → Ended uaid connected_at (m ∷ ms) w w'
    saved :
        (m : Notification) (ms : List Notification) (w w1 w' : s.World)
        → s.save_messages uaid (m ∷ ms) w ≡ (ok tt, w1)
        → Told uaid connected_at w1 w'
        → Ended uaid connected_at (m ∷ ms) w w'

  elsewhere :
      (uaid connected_at : ℕ) (user : User) (node : Option Text) (w w1 : s.World)
      → s.get_user uaid w ≡ (ok (some user), w1)
      → (connected_at == user.connected_at) ≡ false
      → user.node_id ≡ node
      → Told uaid connected_at w (notify_node s uaid node w1)
  unfolding notify_node
  elsewhere uaid connected_at user none w w1 h other e = gone user w w1 h (inr e)
  elsewhere uaid connected_at user (some node_id) w w1 h other e =
      reconnected user node_id w w1 _ h other e refl

  told :
      (c : WebPushClient) (r : Result DbError (Option User) × s.World) (w : s.World)
      → s.get_user c.uaid w ≡ r
      → Told c.uaid c.connected_at w (notify_reconnected s c r)
  unfolding notify_reconnected
  told c (err e, w1) w h = unreadable e w w1 h
  told c (ok none, w1) w h = unknown w w1 h
  told c (ok (some user), w1) w h = elim (Bool-cases (c.connected_at == user.connected_at)) [
    | inl e ↦ rw e (gone user w w1 h (inl (eqb→eq c.connected_at user.connected_at e)))
    | inr e ↦ rw e (elsewhere c.uaid c.connected_at user user.node_id w w1 h e refl)
  ]

  ended :
      (c : WebPushClient) (m : Notification) (ms : List Notification)
      (r : Result DbError (Unit {0}) × s.World) (w : s.World)
      → s.save_messages c.uaid (m ∷ ms) w ≡ r
      → Ended c.uaid c.connected_at (m ∷ ms) w (after_save s c r)
  unfolding after_save
  ended c m ms (err e, w1) w h = unsaved m ms e w w1 h
  ended c m ms (ok tt, w1) w h = saved m ms w w1 _ h (told c (s.get_user c.uaid w1) w1 refl)

  -- The saving of the client's direct notifications.
  save-Ended :
      (ds : List Notification) (t : Session s)
      → t.client.ack_state.unacked_direct_notifs ≡ ds
      → Ended t.client.uaid t.client.connected_at
          (map as_stored ds)
          t.world
          (save_and_notify_unacked_direct_notifs s t).world
        × ((save_and_notify_unacked_direct_notifs s t).client.ack_state.unacked_direct_notifs ≡ [])
  unfolding save_and_notify_unacked_direct_notifs
  save-Ended [] t e = rw e (nothing t.world, refl)
  save-Ended (n ∷ ns) t e =
      rw e (ended t.client (as_stored n) (map as_stored ns) _ t.world refl, refl)

  -- The end of a session gives every direct notification without an ack, and after them every
  -- notification that was still in the channel, to the database in one save, each marked as a stored
  -- one, and the world stays as it is if there is none. After a save that succeeds it reads the
  -- user, and calls the node of a user that has connected again. The client then holds none.
  pub shutdown-Ended :
      (queued : List ServerNotification) (t : Session s)
      → Ended t.client.uaid t.client.connected_at
          (map as_stored (t.client.ack_state.unacked_direct_notifs ++ queued_notifs queued))
          t.world
          (shutdown s queued t).world
        × ((shutdown s queued t).client.ack_state.unacked_direct_notifs ≡ [])
  unfolding shutdown
  shutdown-Ended queued t =
      let c = drain_channel queued t.client in
      let t1 : Session s = record t { client = c } in
      let (end, empty) = save-Ended _ t1 (direct-drain_channel queued t.client) in
      (
        subst₂
            (λ uaid connected_at.
              Ended uaid connected_at
                (map as_stored (t.client.ack_state.unacked_direct_notifs ++ queued_notifs queued))
                t.world (save_and_notify_unacked_direct_notifs s t1).world)
            (uaid-drain_channel queued t.client) (connected_at-drain_channel queued t.client) end,
        empty,
      )
