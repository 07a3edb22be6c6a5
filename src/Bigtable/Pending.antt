-- ===== src/Bigtable/Pending.antt =====
-- The saving, the removal and the fetching of messages, and the whole `DbClient`
-- (bigtable_client/mod.rs).
use autopush_rs.Prelude.{
  ℕ, Bool, ◌==◌, true, false, Option, none, some, List, [], ◌∷◌, ◌++◌, Text, codes, to_string,
  if◌then◌else◌,
}
use autopush_rs.Notification.{Notification, chidmessageid}
use autopush_rs.Services.{Call, FetchMessageResponse}
use autopush_rs.Db.{DbClient, ◌>>=◌, ◌>>◌, pure, read, lift}
use autopush_rs.Bigtable.{
  Bigtable, filter_chain, family_name_regex, message_family, message_topic_family,
  message_gc_policy_filter, whole, ReadRowsRequest, RowFilter, read_rows,
}
use autopush_rs.Bigtable.Cells.{last}
use autopush_rs.Bigtable.Messages.{message_key, message_row, rows_to_notifications}
use autopush_rs.Bigtable.Store.{
  write_row, delete_row, expiry_after, add_user, update_user, get_user, remove_user,
}
use autopush_rs.Bigtable.Channels.{
  add_channel, add_channels, get_channels, remove_channel, remove_node_id, increment_storage,
}

-- A sort key of 0 takes the time of the clock.
abbrev pub needs_clock : Notification → Option ℕ → Option Text → Bool
needs_clock n (some sortkey) none = sortkey == 0
needs_clock n _ _ = false

module _ (b : Bigtable) where
  unfoldable pub key_time : Notification → b.World → ℕ × b.World
  key_time message w =
      if needs_clock message message.sortkey_timestamp message.topic
      then b.users.ms_since_epoch w
      else (0, w)

  unfoldable pub save_message : ℕ → Notification → Call b.World (Unit {0})
  unfolding key_time expiry_after write_row message_row
  save_message uaid message = do
    ms ← read (key_time message)
    expiry ← read (expiry_after b message.ttl)
    write_row b (message_row b ms expiry uaid message)

  unfoldable pub save_messages : ℕ → List Notification → Call b.World (Unit {0})
  unfolding save_message
  save_messages uaid [] = pure tt
  save_messages uaid (message ∷ messages) = do
    save_message uaid message
    save_messages uaid messages

  unfoldable pub remove_message : ℕ → Text → Call b.World (Unit {0})
  unfolding delete_row
  remove_message uaid chidmessageid = delete_row b (message_key b uaid chidmessageid)

  -- The rows between two keys, both excluded.
  abbrev pub range_request : Text → Text → List RowFilter → ℕ → ReadRowsRequest
  range_request start_key end_key filters limit = record {
    table_name = b.table_name;
    row_keys = [];
    row_ranges = (start_key, end_key) ∷ [];
    filter = some (filter_chain filters);
    rows_limit = limit;
  }

  abbrev pub topic_start : ℕ → Text
  topic_start uaid = message_key b uaid (codes "01:")

  abbrev pub topic_end : ℕ → Text
  topic_end uaid = message_key b uaid (codes "02:")

  unfoldable pub fetch_topic_messages : ℕ → ℕ → Call b.World FetchMessageResponse
  unfolding message_gc_policy_filter read_rows rows_to_notifications
  fetch_topic_messages uaid limit = do
    filters ← read (message_gc_policy_filter b)
    rows ← read_rows b (
        range_request (topic_start uaid) (topic_end uaid)
          (filters ++ family_name_regex (whole message_topic_family) ∷ []) limit)
    messages ← lift (rows_to_notifications b rows)
    pure (record { timestamp = none; messages = messages })

  -- The key behind every message at a time: no channel id goes on with a "z".
  unfoldable pub start_key : ℕ → Option ℕ → Text
  unfolding to_string
  start_key uaid none = message_key b uaid (codes "02:")
  start_key uaid (some ts) = message_key b uaid (codes "02:" ++ to_string ts ++ codes "z")

  abbrev pub end_key : ℕ → Text
  end_key uaid = message_key b uaid (codes "03:")

  abbrev pub last_sortkey : Option Notification → Option ℕ
  last_sortkey none = none
  last_sortkey (some m) = m.sortkey_timestamp

  unfoldable pub fetch_timestamp_messages : ℕ → Option ℕ → ℕ → Call b.World FetchMessageResponse
  unfolding start_key message_gc_policy_filter read_rows rows_to_notifications
  fetch_timestamp_messages uaid timestamp limit = do
    filters ← read (message_gc_policy_filter b)
    rows ← read_rows b (
        range_request (start_key uaid timestamp) (end_key uaid)
          (filters ++ family_name_regex (whole message_family) ∷ []) limit)
    messages ← lift (rows_to_notifications b rows)
    pure (record { timestamp = last_sortkey (last messages); messages = messages })

  unfoldable pub bigtable_client : DbClient b.World
  unfolding add_user update_user get_user remove_user add_channel add_channels get_channels
      remove_channel remove_node_id save_message save_messages fetch_topic_messages
      fetch_timestamp_messages increment_storage remove_message
  bigtable_client = record {
    add_user = add_user b;
    update_user = update_user b;
    get_user = get_user b;
    remove_user = remove_user b;
    add_channel = add_channel b;
    add_channels = add_channels b;
    get_channels = get_channels b;
    remove_channel = remove_channel b;
    remove_node_id = remove_node_id b;
    save_message = save_message;
    save_messages = save_messages;
    fetch_topic_messages = fetch_topic_messages;
    fetch_timestamp_messages = fetch_timestamp_messages;
    increment_storage = increment_storage b;
    remove_message = remove_message;
    router_table_exists = pure true;
    message_table_exists = pure true;
    rotating_message_table = none;
    name = codes "Bigtable";
  }
