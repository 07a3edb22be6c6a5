-- ===== src/Dual/Allotment.antt =====
-- A user outside the allowance (autopush-common/src/db/dual/mod.rs).
use autopush_rs.Prelude.{ℕ, ◌≡◌, true, false, Option, List, Text, if_true, if_false}
use autopush_rs.Notification.{Notification}
use autopush_rs.Services.{User}
use autopush_rs.Db.{DbClient}
use autopush_rs.Dual.{
  DualClient, should_migrate, allot, add_user, update_user, get_user, remove_user, add_channel,
  add_channels, get_channels, remove_channel,
}
use autopush_rs.Dual.Messages.{
  remove_node_id, save_message, save_messages, fetch_topic_messages, fetch_timestamp_messages,
  increment_storage, remove_message,
}

-- Every call for a user gives the same result, and leaves the same world, in both databases.
pub record IsSameFor {World : Type 0} (a b : DbClient World) (uaid : ℕ) : Type 0 where
  add_user_same :
      (user : User) (w : World)
      → a.add_user (record user { uaid = uaid }) w ≡ b.add_user (record user { uaid = uaid }) w
  update_user_same :
      (user : User) (w : World)
      → a.update_user (record user { uaid = uaid }) w
        ≡ b.update_user (record user { uaid = uaid }) w
  get_user_same : (w : World) → a.get_user uaid w ≡ b.get_user uaid w
  remove_user_same : (w : World) → a.remove_user uaid w ≡ b.remove_user uaid w
  add_channel_same :
      (channel_id : ℕ) (w : World)
      → a.add_channel uaid channel_id w ≡ b.add_channel uaid channel_id w
  add_channels_same :
      (channels : List ℕ) (w : World)
      → a.add_channels uaid channels w ≡ b.add_channels uaid channels w
  get_channels_same : (w : World) → a.get_channels uaid w ≡ b.get_channels uaid w
  remove_channel_same :
      (channel_id : ℕ) (w : World)
      → a.remove_channel uaid channel_id w ≡ b.remove_channel uaid channel_id w
  remove_node_id_same :
      (node_id : Text) (connected_at : ℕ) (version : Option ℕ) (w : World)
      → a.remove_node_id uaid node_id connected_at version w
        ≡ b.remove_node_id uaid node_id connected_at version w
  save_message_same :
      (message : Notification) (w : World)
      → a.save_message uaid message w ≡ b.save_message uaid message w
  save_messages_same :
      (messages : List Notification) (w : World)
      → a.save_messages uaid messages w ≡ b.save_messages uaid messages w
  fetch_topic_same :
      (limit : ℕ) (w : World)
      → a.fetch_topic_messages uaid limit w ≡ b.fetch_topic_messages uaid limit w
  fetch_timestamp_same :
      (timestamp : Option ℕ) (limit : ℕ) (w : World)
      → a.fetch_timestamp_messages uaid timestamp limit w
        ≡ b.fetch_timestamp_messages uaid timestamp limit w
  increment_same :
      (timestamp : ℕ) (w : World)
      → a.increment_storage uaid timestamp w ≡ b.increment_storage uaid timestamp w
  remove_message_same :
      (sort_key : Text) (w : World)
      → a.remove_message uaid sort_key w ≡ b.remove_message uaid sort_key w

module _ {World : Type 0} (d : DualClient World) where
  pub allot_secondary :
      (uaid : ℕ) → should_migrate d uaid ≡ false → allot d uaid ≡ (d.secondary, false)
  unfolding allot
  allot_secondary uaid h = if_false (should_migrate d uaid) (d.primary, true) (d.secondary, false) h

  pub allot_primary : (uaid : ℕ) → should_migrate d uaid ≡ true → allot d uaid ≡ (d.primary, true)
  unfolding allot
  allot_primary uaid h = if_true (should_migrate d uaid) (d.primary, true) (d.secondary, false) h
