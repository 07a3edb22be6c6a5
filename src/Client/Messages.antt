-- ===== src/Client/Messages.antt =====
-- identified/on_client_msg.rs: the messages of an identified client.
use autopush_rs.Prelude.{
  ℕ, Bool, ◌&&◌, Option, none, some, List, [], ◌∷◌, Text, codes, leb, ◌==◌, is_empty, is_none,
  text_eq, add32, sub64, if◌then◌else◌, insert, text_key,
}
use autopush_rs.Notification.{Notification, chidmessageid}
use autopush_rs.Protocol.{
  ApcError, ClientMessage, ClientAck, ServerMessage, SmErrorKind, invalid_message, uaid_reset,
  excessive_ping, make_endpoint, BroadcastValue, BroadcastMap, from_hashmap, vec_into_hashmap,
  extend_with, to_fields,
}
use autopush_rs.Broadcast.Tracker.{
  Broadcast, or_default, subscribe_to_broadcasts, missing_broadcasts,
}
use autopush_rs.Services.{Services, User, Result, ok, err}
use autopush_rs.Endpoint
use autopush_rs.Client.{
  WebPushClient, Session, Outcome, M, pure, throw, self, set_client, db, read, done, fail,
  out_of_fuel, ◌>>=◌, ◌>>◌, unacked_notifs,
}
use autopush_rs.Client.Storage.{increment_if_flagged, check_storage_loop}

-- The response of `broadcast_subscribe` and `broadcast_init`, from the delta and what is missing.
unfoldable pub broadcast_response : List Broadcast → List Broadcast → BroadcastMap
unfolding vec_into_hashmap extend_with to_fields
broadcast_response delta missing =
    let response = vec_into_hashmap delta in
    if is_empty missing
    then response
    else insert (codes "errors") (BroadcastValue.nested (to_fields (vec_into_hashmap missing)))
        response

unfoldable pub is_acked_by : ClientAck → Notification → Bool
is_acked_by u n = (n.channel_id == u.channel_id) && text_eq n.version u.version

-- `position` and `remove`: the first notification that the update acks, and the others.
unfoldable pub take_acked :
    ClientAck → List Notification → Option (Notification × List Notification)
unfolding is_acked_by
take_acked u [] = none
take_acked u (n ∷ ns) =
    let rest = take_acked u ns in
    if is_acked_by u n
    then some (n, ns)
    else elim rest [ none ↦ none | some (m, ms) ↦ some (m, n ∷ ms) ]

-- The invalid channel id of a `Register`; the texts of the errors go without the id.
abbrev pub invalid_channel_id : SmErrorKind
invalid_channel_id = invalid_message (codes "Invalid channelID")

abbrev pub invalid_uuid_format : SmErrorKind
invalid_uuid_format = invalid_message (codes "Invalid UUID format, not lower-case/dashed")

-- The status and the text of a failed `do_register`.
abbrev pub register_failure : SmErrorKind → ℕ × Text
register_failure (make_endpoint e) = (400, codes "Failed to generate endpoint")
register_failure _ = (500, [])

abbrev pub count_register : WebPushClient → WebPushClient
count_register c = record c { stats = record (c.stats) { registers = add32 c.stats.registers 1 } }

abbrev pub count_unregister : WebPushClient → WebPushClient
count_unregister c = record c {
  stats = record (c.stats) { unregisters = add32 c.stats.unregisters 1 };
}

abbrev pub ack_direct : List Notification → WebPushClient → WebPushClient
ack_direct rest c = record c {
  ack_state = record (c.ack_state) { unacked_direct_notifs = rest };
  stats = record (c.stats) { direct_acked = add32 c.stats.direct_acked 1 };
}

abbrev pub ack_stored : List Notification → WebPushClient → WebPushClient
ack_stored rest c = record c {
  ack_state = record (c.ack_state) { unacked_stored_notifs = rest };
  stats = record (c.stats) { stored_acked = add32 c.stats.stored_acked 1 };
}

module _ (s : Services) where
  unfoldable pub add_deferred_user : Option User → M s (Unit {0})
  add_deferred_user none = pure tt
  add_deferred_user (some user) = do
    db (s.add_user user)
    c ← self
    set_client (record c { deferred_add_user = none })

  -- `make_endpoint(..).map_err(SMErrorKind::MakeEndpoint)?`.
  abbrev pub endpoint_reply : Session s → Result ApcError Text × s.World → Outcome (Session s) Text
  endpoint_reply t (ok url, w) = done url (record t { world = w })
  endpoint_reply t (err e, w) = fail (make_endpoint e) (record t { world = w })

  unfoldable pub endpoint_for : ℕ → ℕ → Option Text → M s Text
  endpoint_for uaid channel_id key t =
      endpoint_reply t (Endpoint.make_endpoint s uaid channel_id key t.world)

  unfoldable pub do_register : ℕ → Option Text → M s Text
  do_register channel_id key = do
    c ← self
    add_deferred_user c.deferred_add_user
    endpoint ← endpoint_for c.uaid channel_id key
    db (s.add_channel c.uaid channel_id)
    pure endpoint

  unfoldable pub register_reply : ℕ → Outcome (Session s) Text → Outcome (Session s) ServerMessage
  register_reply channel_id (done endpoint t) =
      done (ServerMessage.register channel_id 200 endpoint)
        (record t { client = count_register t.client })
  register_reply channel_id (fail e t) =
      done (ServerMessage.register channel_id (register_failure e).0 (register_failure e).1) t
  register_reply channel_id (out_of_fuel t) = out_of_fuel t

  unfoldable pub register : Text → Option Text → M s ServerMessage
  register channel_id_str key = elim (s.try_parse channel_id_str) [
    | none ↦ throw invalid_channel_id
    | some channel_id ↦
        if text_eq (s.as_hyphenated channel_id) channel_id_str
        then (λ t. register_reply channel_id (do_register channel_id key t))
        else throw invalid_uuid_format
  ]

  unfoldable pub unregister_reply : ℕ → Outcome (Session s) Bool → Outcome (Session s) ServerMessage
  unregister_reply channel_id (done existed t) =
      done (ServerMessage.unregister channel_id 200)
        (record t { client = count_unregister t.client })
  unregister_reply channel_id (fail e t) = done (ServerMessage.unregister channel_id 500) t
  unregister_reply channel_id (out_of_fuel t) = out_of_fuel t

  -- The code goes to the metrics alone.
  unfoldable pub unregister : ℕ → Option ℕ → M s ServerMessage
  unregister channel_id code t =
      unregister_reply channel_id (db (s.remove_channel t.client.uaid channel_id) t)

  abbrev pub broadcast_message : BroadcastMap → List ServerMessage
  broadcast_message response =
      if is_empty response then [] else ServerMessage.broadcast response ∷ []

  unfoldable pub broadcast_subscribe : List (Text × Text) → M s (List ServerMessage)
  unfolding broadcast_response from_hashmap subscribe_to_broadcasts missing_broadcasts
  broadcast_subscribe broadcasts t =
      let bs = from_hashmap broadcasts in
      let bc = s.broadcaster t.world in
      let (subs, delta) = subscribe_to_broadcasts bc t.client.broadcast_subs bs in
      done (broadcast_message (broadcast_response (or_default delta) (missing_broadcasts bc bs)))
        (record t { client = record (t.client) { broadcast_subs = subs } })

  -- Only a message with no sort key is removed at once, so its key needs no clock.
  unfoldable pub ack_stored_update : Notification → List Notification → M s (Unit {0})
  unfolding chidmessageid
  ack_stored_update n rest = do
    c ← self
    if is_none n.sortkey_timestamp
        then db (s.remove_message c.uaid (chidmessageid s.as_hyphenated 0 n))
        else pure tt
    set_client (ack_stored rest c)

  -- The body of the loop over the updates.
  unfoldable pub ack_update : ClientAck → M s (Unit {0})
  ack_update u = do
    c ← self
    elim (take_acked u c.ack_state.unacked_direct_notifs) [
      | some (n, rest) ↦ set_client (ack_direct rest c)
      | none ↦ elim (take_acked u c.ack_state.unacked_stored_notifs) [
        | some (n, rest) ↦ ack_stored_update n rest
        | none ↦ pure tt
      ]
    ]

  unfoldable pub ack_updates : List ClientAck → M s (Unit {0})
  ack_updates [] = pure tt
  ack_updates (u ∷ us) = do ack_update u; ack_updates us

  -- The end of `post_process_all_acked`.
  unfoldable pub reset_if_old : M s (List ServerMessage)
  reset_if_old = do
    c ← self
    if c.flags.old_record_version then (do db (s.remove_user c.uaid); throw uaid_reset) else pure []

  unfoldable pub after_loop : List ServerMessage → M s (List ServerMessage)
  after_loop smsgs = if is_empty smsgs then reset_if_old else pure smsgs

  -- The branch of `post_process_all_acked` that goes on reading.
  unfoldable pub read_more : ℕ → M s (List ServerMessage)
  read_more fuel = do increment_if_flagged s; smsgs ← check_storage_loop s fuel; after_loop smsgs

  unfoldable pub post_process_all_acked : ℕ → M s (List ServerMessage)
  post_process_all_acked fuel = do
    c ← self
    if c.flags.check_storage then read_more fuel else reset_if_old

  -- The end of `ack`: nothing more while a notification waits for its ack.
  unfoldable pub after_acks : ℕ → M s (List ServerMessage)
  after_acks fuel = do
    c ← self
    if unacked_notifs c.ack_state then pure [] else post_process_all_acked fuel

  unfoldable pub ack : ℕ → List ClientAck → M s (List ServerMessage)
  ack fuel updates = do ack_updates updates; after_acks fuel

  -- The code goes to the metrics alone.
  unfoldable pub nack : Option ℕ → M s (Unit {0})
  nack code = do
    c ← self
    set_client (record c { stats = record (c.stats) { nacks = add32 c.stats.nacks 1 } })

  unfoldable pub ping : M s ServerMessage
  ping = do
    now ← read s.sec_since_epoch
    c ← self
    if leb 45 (sub64 now c.last_ping)
        then (do
          later ← read s.sec_since_epoch
          set_client (record c { last_ping = later })
          pure ServerMessage.ping)
        else throw excessive_ping

  abbrev pub one : M s ServerMessage → M s (List ServerMessage)
  one m = do smsg ← m; pure (smsg ∷ [])

  unfoldable pub on_client_msg : ℕ → ClientMessage → M s (List ServerMessage)
  on_client_msg fuel (ClientMessage.hello _ _ _ _) =
      throw (invalid_message (codes "Already Hello'd"))
  on_client_msg fuel (ClientMessage.register channel_id key) = one (register channel_id key)
  on_client_msg fuel (ClientMessage.unregister channel_id code) = one (unregister channel_id code)
  on_client_msg fuel (ClientMessage.broadcast_subscribe broadcasts) = broadcast_subscribe broadcasts
  on_client_msg fuel (ClientMessage.ack updates) = ack fuel updates
  on_client_msg fuel (ClientMessage.nack code version) = do nack code; pure []
  on_client_msg fuel ClientMessage.ping = one ping
