-- ===== src/Client/Storage.antt =====
-- identified/on_server_notif.rs: direct notifications, and the reading of stored ones.
use autopush_rs.Prelude.{
  ℕ, zero, suc, Bool, true, false, not, ◌&&◌, Option, none, some, List, [], ◌∷◌, ◌++◌, map, Text,
  codes, ltb, ◌==◌, is_empty, is_some, is_none, or_else, retain, length, add32, if◌then◌else◌,
}
use autopush_rs.Notification.{Notification, expired, chidmessageid}
use autopush_rs.Protocol.{ServerNotification, ServerMessage, internal, uaid_reset, ghost}
use autopush_rs.Services.{Services, FetchMessageResponse, CheckStorageResponse}
use autopush_rs.Client.{
  WebPushClient, M, pure, throw, self, set_client, db, read, out_of_fuel, ◌>>=◌, ◌>>◌,
}

-- A copy of a direct notification is kept until the client acks it.
abbrev pub push_direct : Notification → WebPushClient → WebPushClient
push_direct n c = record c {
  ack_state = record (c.ack_state) {
    unacked_direct_notifs = c.ack_state.unacked_direct_notifs ++ n ∷ [];
  };
}

unfoldable pub on_server_notif_shutdown : ServerNotification → WebPushClient → WebPushClient
on_server_notif_shutdown (ServerNotification.notification n) c = push_direct n c
on_server_notif_shutdown ServerNotification.check_storage c = c
on_server_notif_shutdown ServerNotification.disconnect c = c

-- Where the read of timestamp messages starts.
abbrev pub start_from : WebPushClient → FetchMessageResponse → Option ℕ
start_from c topic_resp =
    if c.flags.include_topic
    then or_else topic_resp.timestamp c.current_timestamp
    else or_else c.ack_state.unacked_stored_highest c.current_timestamp

-- The fields that a response sets before its messages are looked at.
abbrev pub receive : CheckStorageResponse → WebPushClient → WebPushClient
receive r c = record c {
  flags = record (c.flags) { include_topic = r.include_topic };
  ack_state = record (c.ack_state) { unacked_stored_highest = r.timestamp };
}

abbrev pub finish_storage : WebPushClient → WebPushClient
finish_storage c = record c {
  flags = record (c.flags) { check_storage = false };
  sent_from_storage = 0;
}

abbrev pub set_increment : Bool → WebPushClient → WebPushClient
set_increment b c = record c { flags = record (c.flags) { increment_storage = b } }

-- The messages go out, and wait for their acks.
abbrev pub send_stored : List Notification → WebPushClient → WebPushClient
send_stored ms c = record c {
  ack_state = record (c.ack_state) {
    unacked_stored_notifs = c.ack_state.unacked_stored_notifs ++ ms;
  };
  sent_from_storage = add32 c.sent_from_storage (length ms);
}

-- The two parts of `messages.retain(..)`. The key of a message with no sort key needs no clock.
unfoldable pub unexpired : ℕ → List Notification → List Notification
unexpired now_sec = retain (λ m. not (expired m now_sec))

abbrev pub start_check : WebPushClient → WebPushClient
start_check c = record c { flags = record (c.flags) { check_storage = true; include_topic = true } }

module _ (s : Services) where
  unfoldable pub notif : Notification → M s ServerMessage
  notif n = do
    c ← self
    set_client (if n.ttl == 0 then c else push_direct n c)
    pure (ServerMessage.notification n)

  unfoldable pub fetch_topics : WebPushClient → M s FetchMessageResponse
  fetch_topics c =
      if c.flags.include_topic
      then db (s.fetch_topic_messages c.uaid 11)
      else pure (record { timestamp = none; messages = [] })

  unfoldable pub fetch_timestamps : WebPushClient → Option ℕ → M s CheckStorageResponse
  fetch_timestamps c timestamp = do
    timestamp_resp ← db (s.fetch_timestamp_messages c.uaid timestamp 10)
    pure (record {
      include_topic = false;
      messages = timestamp_resp.messages;
      timestamp = or_else timestamp_resp.timestamp timestamp;
    })

  unfoldable pub do_check_storage : M s CheckStorageResponse
  unfolding fetch_topics fetch_timestamps
  do_check_storage = do
    c ← self
    topic_resp ← fetch_topics c
    if is_empty topic_resp.messages
        then fetch_timestamps c (start_from c topic_resp)
        else pure (record {
          include_topic = true;
          messages = topic_resp.messages;
          timestamp = topic_resp.timestamp;
        })

  unfoldable pub remove_messages : ℕ → List Text → M s (Unit {0})
  remove_messages uaid [] = pure tt
  remove_messages uaid (sort_key ∷ keys) = do
    db (s.remove_message uaid sort_key)
    remove_messages uaid keys

  unfoldable pub expired_topic_sort_keys : ℕ → List Notification → List Text
  expired_topic_sort_keys now_sec ms =
      map (chidmessageid s.as_hyphenated 0)
        (retain (λ m. expired m now_sec && is_none m.sortkey_timestamp) ms)

  -- What follows the removal of the expired: nothing is sent if all were.
  unfoldable pub send_unexpired : List Notification → M s (List ServerMessage)
  send_unexpired ms =
      if is_empty ms
      then pure []
      else (do c ← self; set_client (send_stored ms c); pure (map ServerMessage.notification ms))

  unfoldable pub deliver : CheckStorageResponse → M s (List ServerMessage)
  deliver r = do
    now_sec ← read s.sec_since_epoch
    c ← self
    remove_messages c.uaid (expired_topic_sort_keys now_sec r.messages)
    set_client (set_increment (not r.include_topic && is_some r.timestamp) c)
    send_unexpired (unexpired now_sec r.messages)

  unfoldable pub finish_reading : M s (List ServerMessage)
  finish_reading = do c ← self; set_client (finish_storage c); pure []

  -- `check_storage_advance`, once the response is there.
  unfoldable pub take_batch : CheckStorageResponse → M s (List ServerMessage)
  take_batch r = do
    c ← self
    set_client (receive r c)
    if is_empty r.messages then finish_reading else deliver r

  unfoldable pub check_storage_advance : M s (List ServerMessage)
  check_storage_advance = do r ← do_check_storage; take_batch r

  -- The client's pointer moves before the database is told.
  unfoldable pub increment_to : WebPushClient → Option ℕ → M s (Unit {0})
  increment_to c none = throw (internal (codes "increment_storage w/ no unacked_stored_highest"))
  increment_to c (some timestamp) = do
    set_client (record c { current_timestamp = some timestamp })
    db (s.increment_storage c.uaid timestamp)
    set_client (set_increment false (record c { current_timestamp = some timestamp }))

  unfoldable pub increment_storage : M s (Unit {0})
  unfolding increment_to
  increment_storage = do c ← self; increment_to c c.ack_state.unacked_stored_highest

  unfoldable pub check_msg_limit : M s (Unit {0})
  check_msg_limit = do
    c ← self
    if ltb s.msg_limit c.sent_from_storage
        then (do db (s.remove_user c.uaid); throw uaid_reset)
        else pure tt

  unfoldable pub increment_if_flagged : M s (Unit {0})
  increment_if_flagged = do
    c ← self
    if c.flags.increment_storage then increment_storage else pure tt

  -- The end of `check_storage_loop`, where no message was left.
  unfoldable pub loop_end : M s (List ServerMessage)
  loop_end = do increment_if_flagged; pure []

  -- What a round of the loop does with the messages that it read.
  unfoldable pub send_or_continue :
      M s (List ServerMessage) → List ServerMessage → M s (List ServerMessage)
  send_or_continue rest smsgs = if is_empty smsgs then rest else (do check_msg_limit; pure smsgs)

  -- One round, given the rounds after it.
  unfoldable pub loop_round : M s (List ServerMessage) → M s (List ServerMessage)
  loop_round rest = do
    c ← self
    if c.flags.check_storage
        then (do smsgs ← check_storage_advance; send_or_continue rest smsgs)
        else loop_end

  unfoldable pub check_storage_loop : ℕ → M s (List ServerMessage)
  check_storage_loop zero = λ t. out_of_fuel t
  check_storage_loop (suc fuel) = let rest = check_storage_loop fuel in loop_round rest

  unfoldable pub check_storage : ℕ → M s (List ServerMessage)
  check_storage fuel = do c ← self; set_client (start_check c); check_storage_loop fuel

  unfoldable pub on_server_notif : ℕ → ServerNotification → M s (List ServerMessage)
  on_server_notif fuel (ServerNotification.notification n) = do m ← notif n; pure (m ∷ [])
  on_server_notif fuel ServerNotification.check_storage = check_storage fuel
  on_server_notif fuel ServerNotification.disconnect = throw ghost
