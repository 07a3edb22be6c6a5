-- ===== src/Tests/Stores.antt =====
-- A user that moves from one database to another.
use autopush_rs.Prelude.{
  ℕ, ◌≡◌, refl, true, false, Option, none, some, List, [], ◌∷◌, codes, get, insert, nat_eq,
}
use autopush_rs.Protocol.{DbError, conditional}
use autopush_rs.Services.{User, Result, ok, err}
use autopush_rs.Db.{DbClient}
use autopush_rs.Dual.{DualClient, should_migrate, get_user}
use autopush_rs.Dual.Migration.{IsMoved, get_user-IsMoved}

pub record Stores : Type 0 where
  pub users : List (ℕ × User)
  pub channels : List (ℕ × List ℕ)

abbrev add_new : User → Option User → Stores → Result DbError (Unit {0}) × Stores
add_new user none w = (ok tt, record w { users = insert user.uaid user w.users })
add_new user (some old) w = (err conditional, w)

abbrev pub old_user : ℕ → User
old_user uaid = record {
  uaid = uaid;
  connected_at = 900;
  router_type = codes "webpush";
  router_data = none;
  last_connect = none;
  node_id = none;
  record_version = some 1;
  current_month = none;
  current_timestamp = none;
  version = none;
}

abbrev pub primary_store : DbClient Stores
primary_store = record {
  add_user = λ user w. add_new user (get user.uaid w.users) w;
  update_user = λ user w. (ok (true, user), w);
  get_user = λ uaid w. (ok (get uaid w.users), w);
  remove_user = λ uaid w. (ok tt, w);
  add_channel = λ uaid channel_id w. (ok tt, w);
  add_channels =
      λ uaid channels w. (ok tt, record w { channels = insert uaid channels w.channels });
  get_channels = λ uaid w. (ok [], w);
  remove_channel = λ uaid channel_id w. (ok true, w);
  remove_node_id = λ uaid node_id connected_at version w. (ok true, w);
  save_message = λ uaid message w. (ok tt, w);
  save_messages = λ uaid messages w. (ok tt, w);
  fetch_topic_messages = λ uaid limit w. (ok (record { timestamp = none; messages = [] }), w);
  fetch_timestamp_messages =
      λ uaid timestamp limit w. (ok (record { timestamp = none; messages = [] }), w);
  increment_storage = λ uaid timestamp w. (ok tt, w);
  remove_message = λ uaid sort_key w. (ok tt, w);
  router_table_exists = λ w. (ok true, w);
  message_table_exists = λ w. (ok true, w);
  rotating_message_table = none;
  name = codes "primary";
}

abbrev secondary_store : DbClient Stores
secondary_store = record primary_store {
  get_user = λ uaid w. (ok (some (old_user uaid)), w);
  get_channels = λ uaid w. (ok (3 ∷ 4 ∷ []), w);
  name = codes "secondary";
}

-- The first byte of an id is the id, for the test.
abbrev stores : DualClient Stores
stores = record {
  primary = primary_store;
  secondary = secondary_store;
  median = some 100;
  end_median = none;
  write_to_secondary = false;
  as_bytes = λ uaid. uaid ∷ [];
  new_v4 = λ w. (5, w);
}

abbrev nothing_moved : Stores
nothing_moved = record { users = []; channels = [] }

abbrev moved_user : User
moved_user = record (old_user 7) { version = some 5 }

abbrev user_moved : Stores
user_moved = record { users = (7, moved_user) ∷ []; channels = (7, 3 ∷ 4 ∷ []) ∷ [] }

in_allowance : should_migrate stores 7 ≡ true
unfolding should_migrate
in_allowance = refl

get_user-moves : get_user stores 7 nothing_moved ≡ (ok (some moved_user), user_moved)
unfolding get_user get insert
get_user-moves = refl

get_user-IsMoved_example : IsMoved stores 7 moved_user nothing_moved user_moved
get_user-IsMoved_example =
    get_user-IsMoved stores 7 moved_user nothing_moved user_moved in_allowance get_user-moves
