-- ===== src/Dual/Messages.antt =====
-- The node and the messages of a user in two databases, and the whole `DbClient`
-- (autopush-common/src/db/dual/mod.rs).
use autopush_rs.Prelude.{
  ℕ, Bool, false, ◌&&◌, ◌||◌, Option, none, List, Text, codes, is_empty, if◌then◌else◌,
}
use autopush_rs.Notification.{Notification}
use autopush_rs.Protocol.{DbError}
use autopush_rs.Services.{Result, ok, err, Call, FetchMessageResponse}
use autopush_rs.Db.{DbClient, ◌>>=◌, ◌>>◌, pure}
use autopush_rs.Dual.{
  DualClient, allot, also_if, add_user, update_user, get_user, remove_user, add_channel,
  add_channels, get_channels, remove_channel,
}

module _ {World : Type 0} (d : DualClient World) where
  -- `unwrap_or_else(|e| false) || result`.
  abbrev pub or_result : Result DbError Bool × World → Bool → Result DbError Bool × World
  or_result (ok removed, w) result = (ok (removed || result), w)
  or_result (err e, w) result = (ok (false || result), w)

  unfoldable pub remove_node_id : ℕ → Text → ℕ → Option ℕ → Call World Bool
  unfolding allot
  remove_node_id uaid node_id connected_at version = do
    let (target, is_primary) = allot d uaid
    result ← target.remove_node_id uaid node_id connected_at version
    λ w.
        if is_primary
        then or_result (d.secondary.remove_node_id uaid node_id connected_at version w) result
        else (ok result, w)

  -- An error of the secondary database ends the call.
  abbrev pub first_if : Bool → Call World (Unit {0}) → Call World (Unit {0})
  first_if also call = if also then call else pure tt

  unfoldable pub save_message : ℕ → Notification → Call World (Unit {0})
  unfolding allot
  save_message uaid message = do
    let (target, is_primary) = allot d uaid
    first_if (is_primary && d.write_to_secondary) (d.secondary.save_message uaid message)
    target.save_message uaid message

  unfoldable pub save_messages : ℕ → List Notification → Call World (Unit {0})
  unfolding allot
  save_messages uaid messages = do
    let (target, is_primary) = allot d uaid
    first_if (is_primary && d.write_to_secondary) (d.secondary.save_messages uaid messages)
    target.save_messages uaid messages

  unfoldable pub remove_message : ℕ → Text → Call World (Unit {0})
  unfolding allot
  remove_message uaid sort_key = do
    let (target, is_primary) = allot d uaid
    result ← target.remove_message uaid sort_key
    also_if d is_primary (d.secondary.remove_message uaid sort_key)
    pure result

  -- Where the primary database has none, the secondary one may still have some.
  abbrev pub or_secondary :
      Bool
      → Call World FetchMessageResponse
      → FetchMessageResponse
      → Call World FetchMessageResponse
  or_secondary is_primary call result =
      if is_empty result.messages && is_primary then call else pure result

  unfoldable pub fetch_topic_messages : ℕ → ℕ → Call World FetchMessageResponse
  unfolding allot
  fetch_topic_messages uaid limit = do
    let (target, is_primary) = allot d uaid
    result ← target.fetch_topic_messages uaid limit
    or_secondary is_primary (d.secondary.fetch_topic_messages uaid limit) result

  unfoldable pub fetch_timestamp_messages : ℕ → Option ℕ → ℕ → Call World FetchMessageResponse
  unfolding allot
  fetch_timestamp_messages uaid timestamp limit = do
    let (target, is_primary) = allot d uaid
    result ← target.fetch_timestamp_messages uaid timestamp limit
    or_secondary is_primary (d.secondary.fetch_timestamp_messages uaid timestamp limit) result

  unfoldable pub increment_storage : ℕ → ℕ → Call World (Unit {0})
  unfolding allot
  increment_storage uaid timestamp = do
    let (target, is_primary) = allot d uaid
    also_if d is_primary (d.secondary.increment_storage uaid timestamp)
    target.increment_storage uaid timestamp

  unfoldable pub dual_client : DbClient World
  unfolding add_user update_user get_user remove_user add_channel add_channels get_channels
      remove_channel remove_node_id save_message save_messages fetch_topic_messages
      fetch_timestamp_messages increment_storage remove_message
  dual_client = record {
    add_user = add_user d;
    update_user = update_user d;
    get_user = get_user d;
    remove_user = remove_user d;
    add_channel = add_channel d;
    add_channels = add_channels d;
    get_channels = get_channels d;
    remove_channel = remove_channel d;
    remove_node_id = remove_node_id;
    save_message = save_message;
    save_messages = save_messages;
    fetch_topic_messages = fetch_topic_messages;
    fetch_timestamp_messages = fetch_timestamp_messages;
    increment_storage = increment_storage;
    remove_message = remove_message;
    router_table_exists = d.primary.router_table_exists;
    message_table_exists = d.primary.message_table_exists;
    rotating_message_table = none;
    name = codes "Dual";
  }
