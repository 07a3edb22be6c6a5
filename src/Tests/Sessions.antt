-- ===== src/Tests/Sessions.antt =====
-- Sessions of a client over the database in memory.
use autopush_rs.Prelude.{
  ◌≡◌, ◌+◌, ◌≤◌, refl, true, none, List, [], ◌∷◌, map, codes, arith, text_eq, to_string, ap, length,
}
use autopush_rs.Notification.{Notification, chidmessageid, expired}
use autopush_rs.Protocol.{ClientAck, ClientMessage, ServerNotification, ServerMessage}
use autopush_rs.Client.{WebPushClient, Session, final, default_flags, unacked_notifs}
use autopush_rs.Client.Storage.{
  notif, fetch_topics, fetch_timestamps, do_check_storage, remove_messages, unexpired,
  expired_topic_sort_keys, send_unexpired, deliver, finish_reading, take_batch,
  check_storage_advance, increment_to, increment_storage, increment_if_flagged, check_msg_limit,
  loop_end, send_or_continue, loop_round, check_storage_loop, check_storage, on_server_notif,
}
use autopush_rs.Client.Messages.{
  is_acked_by, take_acked, ack_stored_update, ack_update, ack_updates, reset_if_old, after_loop,
  read_more, post_process_all_acked, after_acks, ack, on_client_msg,
}
use autopush_rs.Client.Frame.{direct}
use autopush_rs.Client.Direct.{fitting}
use autopush_rs.Client.Shutdown.{shutdown, as_stored, Ended, shutdown-Ended}
use autopush_rs.Client.Storage.{push_direct}
use autopush_rs.Client.Run.{Input, from_client, from_registry, handle, run}
use autopush_rs.Client.Delivery.{all_acks_in, all_kept_in, kept_in, fitting-run, fitting-handle}
use autopush_rs.Client.Loop.{LoopPost, Batch, check_storage_loop-post}
use autopush_rs.Client.Drain.Termination.{IsFinished, check_storage_loop-IsFinished}
use autopush_rs.Tests.World.{
  memory, memory-IsDrainable, memory_keys, memory_pending, stamped_message, topic_message,
}

program : Unit {0}
unfolding notif fetch_topics fetch_timestamps do_check_storage remove_messages unexpired
    expired_topic_sort_keys send_unexpired deliver finish_reading take_batch check_storage_advance
    increment_to increment_storage increment_if_flagged check_msg_limit loop_end send_or_continue
    loop_round check_storage_loop check_storage on_server_notif is_acked_by take_acked
    ack_stored_update ack_update ack_updates reset_if_old after_loop read_more
    post_process_all_acked after_acks ack on_client_msg handle run unacked_notifs expired text_eq
    to_string chidmessageid
program = tt

abbrev client : WebPushClient
client = record {
  uaid = 1;
  uid = 2;
  broadcast_subs = record { broadcast_list = []; change_count = 0 };
  flags = default_flags;
  ack_state = record {
    unacked_direct_notifs = [];
    unacked_stored_notifs = [];
    unacked_stored_highest = none;
  };
  sent_from_storage = 0;
  deferred_add_user = none;
  stats = record {
    direct_acked = 0;
    direct_storage = 0;
    stored_retrieved = 0;
    stored_acked = 0;
    nacks = 0;
    unregisters = 0;
    registers = 0;
    existing_uaid = true;
  };
  connected_at = 900;
  last_ping = 0;
  current_timestamp = none;
}

-- At time 110 the messages in storage have not expired.
abbrev start : Session memory
start = record {
  client = client;
  world = record { clock = 110; topics = (1, codes "t") ∷ []; last = 2; saved = [] };
}

abbrev direct_notif : Notification
direct_notif = stamped_message 9

abbrev its_ack : ClientAck
its_ack = record { channel_id = 8; version = to_string 9 }

abbrev inputs : List Input
inputs =
    from_registry (ServerNotification.notification direct_notif)
    ∷ from_registry (ServerNotification.notification direct_notif)
    ∷ from_client (ClientMessage.ack (its_ack ∷ []))
    ∷ []

fitting-run_example :
    fitting its_ack (direct start) + all_kept_in its_ack inputs
    ≤ fitting its_ack (direct (final (run memory 5 inputs start))) + all_acks_in its_ack inputs
unfolding program
fitting-run_example = fitting-run its_ack 5 inputs start _ _ refl

fitting-handle_example :
    fitting its_ack (direct start)
      + kept_in its_ack (from_registry ServerNotification.check_storage)
    ≤ fitting its_ack
        (direct (final (handle memory 5 (from_registry ServerNotification.check_storage) start)))
      + 0
fitting-handle_example =
    fitting-handle its_ack 5 (from_registry ServerNotification.check_storage) start

abbrev reading : Session memory
reading = record start {
  client = record client { flags = record default_flags { check_storage = true } };
}

abbrev batch : List ServerMessage
batch = ServerMessage.notification (topic_message (codes "t")) ∷ []

check_storage_loop-post_example :
    LoopPost batch (final (check_storage_loop memory 5 reading))
    × Batch batch reading (final (check_storage_loop memory 5 reading))
unfolding program
check_storage_loop-post_example = check_storage_loop-post 5 reading _ batch refl

check_storage_loop-IsFinished_example : IsFinished (check_storage_loop memory 9 reading)
check_storage_loop-IsFinished_example = check_storage_loop-IsFinished memory-IsDrainable 9 reading (
    omega (
      arith,
      ap length (memory_keys reading.world reading.client.uaid),
      memory_pending reading.world reading.client.uaid none,
    ))

abbrev waiting : Session memory
waiting = record start { client = push_direct direct_notif client }

abbrev ended : Session memory
ended = shutdown memory (ServerNotification.notification direct_notif ∷ []) waiting

shutdown-Ended_example :
    Ended memory 1 900 (map as_stored (direct_notif ∷ direct_notif ∷ [])) waiting.world ended.world
    × (ended.client.ack_state.unacked_direct_notifs ≡ [])
shutdown-Ended_example =
    shutdown-Ended memory (ServerNotification.notification direct_notif ∷ []) waiting
