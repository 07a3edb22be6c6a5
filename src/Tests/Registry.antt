-- ===== src/Tests/Registry.antt =====
-- A registry over channels that are lists, of which no receiver is ever closed.
use autopush_rs.Prelude.{
  ℕ, ◌+◌, ◌≡◌, refl, true, false, some, List, [], ◌∷◌, ◌++◌, arith, ltb, ◌==◌, get, insert, remove,
  nat-beq_iff, nat_eq, if◌then◌else◌,
}
use autopush_rs.Protocol.{ServerNotification}
use autopush_rs.Services.{ok}
use autopush_rs.Clients.{
  Channels, IsChannels, ClientRegistry, RegisteredClient, drop_existing, connect, notify,
  disconnect, client_exists, send_to,
}
use autopush_rs.Clients.Registered.{
  connects, disconnects, call, calls, session_of, session_of-calls,
}
use autopush_rs.Clients.Ghosting.{IsWired, connect-ghosts, notify-connect}
use autopush_rs.Tests.World.{stamped_message}

program : Unit {0}
unfolding get insert remove drop_existing connect notify disconnect client_exists send_to call calls
    session_of
program = tt

record Queues : Type 0 where
  next : ℕ
  sent : ℕ → List ServerNotification

abbrev queues : Channels
queues = record {
  Hub = Queues;
  unbounded =
      λ h. (h.next, record { next = h.next + 1; sent = λ j. if j == h.next then [] else h.sent j });
  unbounded_send =
      λ tx n h. (true, record h { sent = λ j. if j == tx then h.sent j ++ n ∷ [] else h.sent j });
}

queues-IsChannels : IsChannels queues
queues-IsChannels = record {
  created = λ h tx. ltb tx h.next;
  closed = λ h tx. false;
  sent = λ h tx. h.sent tx;
  unbounded_new = λ h. (ground arith, ground arith, refl, ground arith);
  unbounded_others = λ h tx o.
      (ground (arith, nat-beq_iff tx h.next), refl, ground (arith, nat-beq_iff tx h.next));
  send_created = λ h tx j n. (refl, refl);
  send_open = λ h tx n o. (refl, ground (arith, nat-beq_iff tx tx));
  send_others = λ h tx j n o. ground (arith, nat-beq_iff j tx);
}

abbrev empty : ClientRegistry queues
empty = record { clients = []; hub = record { next = 0; sent = λ j. [] } }

abbrev first_session : RegisteredClient
first_session = record { uaid = 1; uid = 10; tx = 0 }

abbrev connected : ClientRegistry queues
connected = record { clients = (1, first_session) ∷ []; hub = record { next = 1; sent = λ j. [] } }

one_client :
    (uaid : ℕ) (c : RegisteredClient) → get uaid connected.clients ≡ some c → first_session ≡ c
unfolding get
one_client uaid c g = ground arith

connected-IsWired : IsWired queues-IsChannels connected
unfolding queues-IsChannels
connected-IsWired uaid c g = ground (arith, one_client uaid c g)

connect-ghosts_example :
    (connect queues 1 11 connected).1.hub.sent 0 ≡ [] ++ ServerNotification.disconnect ∷ []
unfolding program queues-IsChannels
connect-ghosts_example =
    connect-ghosts queues-IsChannels 1 11 connected first_session connected-IsWired refl refl

notify-connect_example :
    ((notify queues 1 (stamped_message 9) (connect queues 1 11 connected).1).0 ≡ ok tt)
    × ((notify queues 1 (stamped_message 9) (connect queues 1 11 connected).1).1.hub.sent 1
        ≡ ServerNotification.notification (stamped_message 9) ∷ [])
unfolding program queues-IsChannels
notify-connect_example =
    notify-connect queues-IsChannels 1 11 (stamped_message 9) connected connected-IsWired

session_of-calls_example :
    session_of queues (calls queues (connects 1 10 ∷ connects 1 11 ∷ disconnects 1 10 ∷ []) empty) 1
    ≡ some 11
unfolding program
session_of-calls_example =
    session_of-calls 1 (connects 1 10 ∷ connects 1 11 ∷ disconnects 1 10 ∷ []) empty
