-- ===== src/Client/Hello.antt =====
-- autoconnect-ws-sm/src/unidentified.rs, with `process_existing_user` and `WebPushClient::new` of
-- identified/mod.rs, and the making of a `User` in autopush-common/src/db. A method has no client
-- yet, so it runs on the world alone; a client that is not handed over is dropped.
use autopush_rs.Prelude.{
  ℕ, Bool, true, false, not, Option, none, some, List, [], ◌∷◌, Text, codes, ltb, text_eq, is_none,
  if◌then◌else◌,
}
use autopush_rs.Protocol.{
  ClientMessage, ServerMessage, SmErrorKind, database, invalid_message, already_connected,
  BroadcastMap, from_hashmap, DbError,
}
use autopush_rs.Broadcast.Tracker.{Broadcast, BroadcastSubs, broadcast_delta, missing_broadcasts}
use autopush_rs.Services.{Services, User, Result, ok, err, Call}
use autopush_rs.Users.{user_crates, user_record_version, default_user, set_last_connect}
use autopush_rs.Client.{
  ClientFlags, default_flags, SessionStatistics, WebPushClient, Session, Outcome, done, fail,
  out_of_fuel, and_then,
}
use autopush_rs.Client.Storage
use autopush_rs.Client.Messages.{broadcast_response}

pub record GetOrCreateUser : Type 0 where
  pub user : User
  pub existing_user : Bool
  pub flags : ClientFlags

abbrev pub W : Type 0 → Type 0 → Type 0
W World A = World → Outcome World A

infixl 5 ◌>>=◌ ◌>>◌
abbrev pub ◌>>=◌ : {World A B : Type 0} → W World A → (A → W World B) → W World B
◌>>=◌ m f w = and_then (m w) f

abbrev pub ◌>>◌ : {World B : Type 0} → W World (Unit {0}) → W World B → W World B
m >> k = m >>= λ _. k

-- The record of a user whose version is not known is old too.
abbrev pub is_old : Option ℕ → Bool
is_old none = true
is_old (some rec_ver) = ltb rec_ver user_record_version

abbrev pub no_stats : Bool → SessionStatistics
no_stats existing_uaid = record {
  direct_acked = 0;
  direct_storage = 0;
  stored_retrieved = 0;
  stored_acked = 0;
  nacks = 0;
  unregisters = 0;
  registers = 0;
  existing_uaid = existing_uaid;
}

module _ (s : Services) where
  abbrev pub return : {A : Type 0} → A → W s.World A
  return a w = done a w

  abbrev pub throw : {A : Type 0} → SmErrorKind → W s.World A
  throw e w = fail e w

  abbrev pub reply : {A : Type 0} → Result DbError A × s.World → Outcome s.World A
  reply (ok a, w) = done a w
  reply (err e, w) = fail (database e) w

  abbrev pub db : {A : Type 0} → Call s.World A → W s.World A
  db f w = reply (f w)

  abbrev pub read : {A : Type 0} → (s.World → A × s.World) → W s.World A
  read f w = let (a, w') = f w in done a w'

  abbrev pub drop_user : User → W s.World (Option ClientFlags)
  drop_user user = do db (s.remove_user user.uaid); return none

  abbrev pub flags_of : User → ClientFlags
  flags_of user = record default_flags {
    check_storage = true;
    old_record_version = is_old user.record_version;
  }

  unfoldable pub process_existing_user : User → W s.World (Option ClientFlags)
  process_existing_user user = elim s.rotating_message_table [
    | none ↦ return (some (flags_of user))
    | some rotating_message_table ↦ elim user.current_month [
      | none ↦ drop_user user
      | some current_month ↦
          if not (text_eq current_month rotating_message_table)
          then drop_user user
          else return (some (flags_of user))
    ]
  ]

  -- A record for a user that the database does not have: it is added at the first `Register`.
  unfoldable pub create_user : ℕ → W s.World GetOrCreateUser
  unfolding default_user
  create_user connected_at = do
    user ← read (default_user (user_crates s))
    return (record {
      user = record user {
        current_month = s.rotating_message_table;
        node_id = some s.router_url;
        connected_at = connected_at;
      };
      existing_user = false;
      flags = default_flags;
    })

  -- `db.update_user(..)`, whose refusal means that another connection has changed the record.
  unfoldable pub store_user : ClientFlags → User → W s.World GetOrCreateUser
  store_user flags user = do
    (updated, stored) ← db (s.update_user user)
    if updated
        then return (record { user = stored; existing_user = true; flags = flags })
        else throw already_connected

  abbrev pub stamp_user : ℕ → User → User
  stamp_user connected_at user = record user {
    node_id = some s.router_url;
    connected_at = connected_at;
  }

  -- The rest of the lookup for a user whose record is valid.
  unfoldable pub reconnect_user : ℕ → User → ClientFlags → W s.World GetOrCreateUser
  unfolding set_last_connect store_user
  reconnect_user connected_at user flags =
      if ltb connected_at user.connected_at then throw already_connected else (do
        stamped ← read (set_last_connect (user_crates s) (stamp_user connected_at user))
        store_user flags stamped)

  unfoldable pub known_user : ℕ → User → Option ClientFlags → W s.World GetOrCreateUser
  unfolding create_user reconnect_user
  known_user connected_at user none = create_user connected_at
  known_user connected_at user (some flags) = reconnect_user connected_at user flags

  unfoldable pub found_user : ℕ → Option User → W s.World GetOrCreateUser
  unfolding process_existing_user known_user create_user
  found_user connected_at none = create_user connected_at
  found_user connected_at (some user) = do
    flags ← process_existing_user user
    known_user connected_at user flags

  unfoldable pub get_or_create_user : Option ℕ → W s.World GetOrCreateUser
  unfolding found_user
  get_or_create_user none = do connected_at ← read s.ms_since_epoch; create_user connected_at
  get_or_create_user (some uaid) = do
    connected_at ← read s.ms_since_epoch
    user ← db (s.get_user uaid)
    found_user connected_at user

  unfoldable pub broadcast_init : List Broadcast → W s.World (BroadcastSubs × BroadcastMap)
  unfolding broadcast_response broadcast_delta missing_broadcasts
  broadcast_init broadcasts w =
      let bc = s.broadcaster w in
      let (subs, delta) = broadcast_delta bc broadcasts in
      done (subs, broadcast_response delta (missing_broadcasts bc broadcasts)) w

  -- `WebPushClient::new`, with what it reads from storage.
  abbrev pub handed_over :
      Outcome (Session s) (List ServerMessage)
      → Outcome s.World (WebPushClient × List ServerMessage)
  handed_over (done smsgs t) = done (t.client, smsgs) t.world
  handed_over (fail e t) = fail e t.world
  handed_over (out_of_fuel t) = out_of_fuel t.world

  abbrev pub new_client :
      ℕ → BroadcastSubs → ClientFlags → ℕ → Option ℕ → Option User → ℕ → WebPushClient
  new_client uaid subs flags connected_at current_timestamp deferred_add_user uid = record {
    uaid = uaid;
    uid = uid;
    broadcast_subs = subs;
    flags = flags;
    ack_state = record {
      unacked_direct_notifs = [];
      unacked_stored_notifs = [];
      unacked_stored_highest = none;
    };
    sent_from_storage = 0;
    deferred_add_user = deferred_add_user;
    stats = no_stats (is_none deferred_add_user);
    connected_at = connected_at;
    last_ping = 0;
    current_timestamp = current_timestamp;
  }

  unfoldable pub start_client : ℕ → WebPushClient → W s.World (WebPushClient × List ServerMessage)
  start_client fuel c w =
      if c.flags.check_storage
      then handed_over (Storage.check_storage s fuel (record { client = c; world = w }))
      else done (c, []) w

  unfoldable pub new :
      ℕ
      → ℕ
      → BroadcastSubs
      → ClientFlags
      → ℕ
      → Option ℕ
      → Option User
      → W s.World (WebPushClient × List ServerMessage)
  unfolding start_client
  new fuel uaid subs flags connected_at current_timestamp deferred_add_user = do
    uid ← read s.new_v4
    start_client fuel
        (new_client uaid subs flags connected_at current_timestamp deferred_add_user uid)

  -- `Uuid::try_parse(..).ok()` of the uaid, if there is one.
  abbrev pub original_uaid : Option Text → Option ℕ
  original_uaid none = none
  original_uaid (some uaid) = s.try_parse uaid

  abbrev pub unwrap_broadcasts : Option (List (Text × Text)) → List (Text × Text)
  unwrap_broadcasts none = []
  unwrap_broadcasts (some bs) = bs

  abbrev pub hello_message : ℕ → BroadcastMap → ServerMessage
  hello_message uaid broadcasts = ServerMessage.hello (s.as_simple uaid) 200 (some true) broadcasts

  abbrev pub answer :
      ℕ
      → BroadcastMap
      → WebPushClient × List ServerMessage
      → W s.World (WebPushClient × List ServerMessage)
  answer uaid response (client, smsgs) = return (client, hello_message uaid response ∷ smsgs)

  -- What follows the lookup of the user, and of its broadcasts.
  abbrev pub greet_subscribed :
      ℕ
      → GetOrCreateUser
      → BroadcastSubs × BroadcastMap
      → W s.World (WebPushClient × List ServerMessage)
  greet_subscribed fuel found (subs, response) = do
    let user = found.user
    handed ←
        new fuel user.uaid subs found.flags user.connected_at user.current_timestamp
          (if found.existing_user then none else some user)
    answer user.uaid response handed

  unfoldable pub greet :
      ℕ → List (Text × Text) → GetOrCreateUser → W s.World (WebPushClient × List ServerMessage)
  unfolding broadcast_init new
  greet fuel broadcasts found = do
    init ← broadcast_init (from_hashmap broadcasts)
    greet_subscribed fuel found init

  unfoldable pub on_hello :
      ℕ → Option Text → Option (List (Text × Text)) → W s.World (WebPushClient × List ServerMessage)
  unfolding get_or_create_user greet
  on_hello fuel uaid broadcasts = do
    found ← get_or_create_user (original_uaid uaid)
    greet fuel (unwrap_broadcasts broadcasts) found

  abbrev pub not_hello : SmErrorKind
  not_hello = invalid_message (codes "Expected messageType=\"hello\", \"use_webpush\": true")

  unfoldable pub on_client_msg : ℕ → ClientMessage → W s.World (WebPushClient × List ServerMessage)
  unfolding on_hello
  on_client_msg fuel (ClientMessage.hello uaid _ (some true) broadcasts) =
      on_hello fuel uaid broadcasts
  on_client_msg fuel _ = throw not_hello
