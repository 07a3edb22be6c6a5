-- ===== src/Tests/Rows.antt =====
-- Messages, users and channels in the rows of a Bigtable.
use autopush_rs.Prelude.{
  ◌++◌, ℕ, ◌≡◌, ◌<◌, ◌^◌, refl, subst, arith, contains, true, false, Option, none, some, List, [],
  ◌∷◌, Text, codes, from_utf8, All-mono, ◌==◌, length, to_string,
}
use autopush_rs.Notification.{Notification, chidmessageid}
use autopush_rs.Services.{User, ok}
use autopush_rs.Records.{parse_chidmessageid, into_notif, from_notif}
use autopush_rs.Records.Keys.{key_of, IsKeyed, parse_chidmessageid-chidmessageid}
use autopush_rs.Bigtable.{mutate_row_request}
use autopush_rs.Records.Stored.{AreHeaders, into_notif-from_notif}
use autopush_rs.Bigtable.{Bigtable, router_family}
use autopush_rs.Bigtable.Messages.{message_row, row_to_notification}
use autopush_rs.Bigtable.Messages.RoundTrip.{
  as_returned, as_kept, columns, IsMessage, AreMessageCrates, row_to_notification-message_row,
}
use autopush_rs.Bigtable.Channels.{channel_cells, channels_of_cells, add_channels}
use autopush_rs.Bigtable.ChannelSet.{
  mutations_for, add_channels-mutations, channels_of_cells-channel_cells,
}
use autopush_rs.Bigtable.Pending.{start_key, end_key, topic_start, topic_end}
use autopush_rs.Bigtable.Ranges.{
  is_between, stamped_key, topic_key, is_between-stamped_key, is_between-topic_key,
}
use autopush_rs.Tests.Letters.{
  letters, letters-All, value_of, letter_keys, letter_keys-AreKeyCrates,
}

abbrev some_headers : List (Text × Text)
some_headers = (codes "encoding", codes "aes128gcm") ∷ []

-- A table of one message and one user: only their JSON is ever read.
abbrev table : Bigtable
table = record {
  World = ℕ;
  keys = letter_keys;
  users = record {
    new_v4 = λ w. (5, w);
    ms_since_epoch = λ w. (1000, w);
    format_utc = λ pattern w. (codes "20240112", w);
    gen_range = λ n w. (3, w);
  };
  as_simple = letters 36;
  into_bytes = letters 36;
  from_bytes = λ t. some (value_of 0 t);
  to_json = λ m. codes "{}";
  from_json = λ t. some some_headers;
  router_data_to_json = λ m. codes "null";
  router_data_from_json = λ t. some (some []);
  table_name = codes "autopush";
  system_time = λ w. (1000, w);
  mutate_row = λ req w. (ok tt, w);
  check_and_mutate_row = λ req w. (ok true, w);
  read_rows = λ req w. (ok [], w);
}

abbrev stamped : Notification
stamped = record {
  channel_id = 8;
  version = codes "v1";
  ttl = 60;
  topic = none;
  timestamp = 100;
  body = some (codes "data");
  sortkey_timestamp = some 1700000000000001;
  headers = some some_headers;
}

stamped-IsKeyed : IsKeyed stamped
stamped-IsKeyed = (omega arith, (omega arith, omega arith))

parse_chidmessageid-chidmessageid_example :
    parse_chidmessageid letter_keys (chidmessageid letter_keys.as_hyphenated 0 stamped)
    ≡ ok (key_of stamped)
parse_chidmessageid-chidmessageid_example =
    parse_chidmessageid-chidmessageid letter_keys letter_keys-AreKeyCrates 0 stamped stamped-IsKeyed

into_notif-from_notif_example :
    (headers : Option (List (Text × Text))) × AreHeaders (some some_headers) headers
    × (into_notif letter_keys (from_notif letter_keys 0 1700000000 7 stamped)
        ≡ ok (record stamped { headers = headers }))
into_notif-from_notif_example =
    into_notif-from_notif letter_keys letter_keys-AreKeyCrates 0 1700000000 7 stamped
      stamped-IsKeyed

table-AreMessageCrates : AreMessageCrates table
table-AreMessageCrates = record {
  keys = letter_keys-AreKeyCrates;
  simple_hash =
      λ n. All-mono _ (λ c. (c == b'#') ≡ false) (λ c h. h.1) (letters 36 n) (letters-All 36 n);
}

stamped-IsMessage : IsMessage table stamped
unfolding from_utf8
stamped-IsMessage = record {
  keyed = stamped-IsKeyed;
  ttl_u64 = omega arith;
  timestamp_u64 = omega arith;
  version_string = refl;
  body_string = λ t h. ground (arith, h);
  headers_json = λ m h. (refl, ground (arith, h));
}

row_to_notification-message_row_example :
    row_to_notification table
      (message_row table 0 60000 7 stamped).row_key
      (as_returned (message_row table 0 60000 7 stamped))
    ≡ ok (as_kept stamped)
row_to_notification-message_row_example =
    row_to_notification-message_row table table-AreMessageCrates 0 60000 7 stamped stamped-IsMessage

abbrev kept_user : User
kept_user = record {
  uaid = 7;
  connected_at = 900;
  router_type = codes "webpush";
  router_data = none;
  last_connect = none;
  node_id = some (codes "http://localhost:8081");
  record_version = some 1;
  current_month = none;
  current_timestamp = some 42;
  version = some 5;
}

add_channels-mutations_example :
    (written : List ℕ) × (left : List ℕ) × (written ++ left ≡ 3 ∷ 4 ∷ [])
    × (length written ≡ 2)
    × (add_channels table 7 (3 ∷ 4 ∷ []) 0
        ≡ table.mutate_row
            (mutate_row_request table
              (table.as_simple 7)
              (mutations_for table (table.system_time 0).0 written))
            (table.system_time 0).1)
add_channels-mutations_example = add_channels-mutations table 7 (3 ∷ 4 ∷ []) 0

channels_of_cells-channel_cells_example :
    channels_of_cells table (columns router_family (channel_cells table 60000 (3 ∷ 4 ∷ [])))
    ≡ ok (3 ∷ 4 ∷ [])
unfolding contains
channels_of_cells-channel_cells_example =
    channels_of_cells-channel_cells table letter_keys-AreKeyCrates 60000 (3 ∷ 4 ∷ [])
      (omega arith, refl, (omega arith, refl, tt)) (omega arith)

abbrev last_read : Option ℕ
last_read = some 1700000000000000

abbrev HasItsDigits : ℕ → Type 0
HasItsDigits t = (t < 2 ^ 64) × (length (to_string t) ≡ length (to_string 1700000000000001))

last_read-HasItsDigits : HasItsDigits 1700000000000000
unfolding to_string
last_read-HasItsDigits = (omega arith, refl)

same_number : (t : ℕ) → last_read ≡ some t → 1700000000000000 ≡ t
same_number t h = ground (arith, h)

same_digits : (t : ℕ) → last_read ≡ some t → HasItsDigits t
same_digits t h = subst HasItsDigits (same_number t h) last_read-HasItsDigits

is_between-stamped_key_example :
    is_between
      (start_key table 7 last_read)
      (end_key table 7)
      (stamped_key table 7 1700000000000001 8)
    ≡ true
is_between-stamped_key_example =
    is_between-stamped_key table 7 last_read 1700000000000001 8 same_digits (omega arith)

is_between-topic_key_example :
    (is_between (topic_start table 7) (topic_end table 7) (topic_key table 7 8 (codes "news"))
      ≡ true)
    × (is_between
          (start_key table 7 last_read)
          (end_key table 7)
          (topic_key table 7 8 (codes "news"))
        ≡ false)
    × (is_between (topic_start table 7) (topic_end table 7) (stamped_key table 7 1700000000000001 8)
        ≡ false)
is_between-topic_key_example =
    is_between-topic_key table 7 last_read 1700000000000001 8 (codes "news")
