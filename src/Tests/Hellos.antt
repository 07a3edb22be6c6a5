-- ===== src/Tests/Hellos.antt =====
-- A first connection and a return, in a database in memory.
use autopush_rs.Prelude.{◌≡◌, refl, true, Option, none, some, [], ◌∷◌, codes, text_eq}
use autopush_rs.Protocol.{ClientMessage}
use autopush_rs.Services.{Services, User, ok}
use autopush_rs.Client.{WebPushClient, done, default_flags}
use autopush_rs.Client.Hello
use autopush_rs.Client.Hello.{
  GetOrCreateUser, new_client, get_or_create_user, hello_message, flags_of,
}
use autopush_rs.Client.Greeting.{
  IsHello, IsGreeting, IsFound, on_client_msg-IsGreeting, get_or_create_user-done,
}
use autopush_rs.Tests.World.{Memory, memory}

abbrev quiet : Memory
quiet = record { clock = 9; topics = []; last = 0; saved = [] }

abbrev first_hello : ClientMessage
first_hello = ClientMessage.hello none none (some true) none

abbrev old_record : User
old_record = record {
  uaid = 7;
  connected_at = 900;
  router_type = codes "webpush";
  router_data = none;
  last_connect = none;
  node_id = none;
  record_version = some 1;
  current_month = none;
  current_timestamp = some 42;
  version = some 5;
}

abbrev returning : Services
returning = record memory { get_user = λ uaid w. (ok (some old_record), w) }

abbrev updated : User
updated = record old_record {
  connected_at = 1000;
  node_id = some memory.router_url;
  last_connect = some 202401120003;
}

abbrev returned : GetOrCreateUser
returned = record { user = updated; existing_user = true; flags = flags_of returning old_record }

get_or_create_user-returning : get_or_create_user returning (some 7) quiet ≡ done returned quiet
unfolding get_or_create_user autopush_rs.Prelude.parse_u64 autopush_rs.Prelude.to_string
get_or_create_user-returning = refl

get_or_create_user-done_example :
    (user : Option User) × (w1 : Memory) × (returning.get_user 7 quiet ≡ (ok user, w1))
    × IsFound returning 1000 user returned quiet
get_or_create_user-done_example =
    get_or_create_user-done returning 7 quiet get_or_create_user-returning

abbrev created : User
created = record {
  uaid = 5;
  connected_at = 1000;
  router_type = codes "webpush";
  router_data = none;
  last_connect = some 202401120003;
  node_id = some memory.router_url;
  record_version = some 1;
  current_month = none;
  current_timestamp = none;
  version = some 5;
}

abbrev greeted : WebPushClient
greeted =
    new_client memory 5 (record { broadcast_list = []; change_count = 0 }) default_flags 1000 none
      (some created) 5

on_client_msg-first :
    Hello.on_client_msg memory 5 first_hello quiet
    ≡ done (greeted, hello_message memory 5 [] ∷ []) quiet
unfolding Hello.on_client_msg autopush_rs.Prelude.parse_u64 autopush_rs.Prelude.to_string
    autopush_rs.Protocol.from_hashmap
on_client_msg-first = refl

on_client_msg-IsGreeting_example :
    IsHello memory first_hello × IsGreeting memory greeted (hello_message memory 5 [] ∷ [])
on_client_msg-IsGreeting_example =
    on_client_msg-IsGreeting memory 5 first_hello quiet on_client_msg-first
