-- ===== src/Clients.antt =====
-- autoconnect/autoconnect-common/src/registry.rs: the clients that are connected to a node, with the
-- channels of the futures crate as an interface.
pub mod Registered
pub mod Ghosting
use autopush_rs.Prelude.{
  ℕ, ◌≡◌, ◌≢◌, Bool, true, false, Option, none, some, List, [], ◌∷◌, ◌++◌, codes, get, insert,
  remove, nat_eq, ◌==◌, if◌then◌else◌,
}
use autopush_rs.Notification.{Notification}
use autopush_rs.Protocol.{ServerNotification, ApcError, general_error}
use autopush_rs.Services.{Result, ok, err}

-- `mpsc::unbounded` and `unbounded_send`, which succeeds or not. A sender is a number.
pub record Channels : Type 1 where
  pub Hub : Type 0
  pub unbounded : Hub → ℕ × Hub
  pub unbounded_send : ℕ → ServerNotification → Hub → Bool × Hub

-- What the channels do: which are there, which have lost their receiver, and all that was sent.
pub record IsChannels (ch : Channels) : Type 0 where
  pub created : ch.Hub → ℕ → Bool
  pub closed : ch.Hub → ℕ → Bool
  pub sent : ch.Hub → ℕ → List ServerNotification
  pub unbounded_new :
      (h : ch.Hub)
      → (created h (ch.unbounded h).0 ≡ false)
        × (created (ch.unbounded h).1 (ch.unbounded h).0 ≡ true)
        × (closed (ch.unbounded h).1 (ch.unbounded h).0 ≡ false)
        × (sent (ch.unbounded h).1 (ch.unbounded h).0 ≡ [])
  pub unbounded_others :
      (h : ch.Hub) (tx : ℕ)
      → tx ≢ (ch.unbounded h).0
      → (created (ch.unbounded h).1 tx ≡ created h tx)
        × (closed (ch.unbounded h).1 tx ≡ closed h tx)
        × (sent (ch.unbounded h).1 tx ≡ sent h tx)
  pub send_created :
      (h : ch.Hub) (tx j : ℕ) (n : ServerNotification)
      → (created (ch.unbounded_send tx n h).1 j ≡ created h j)
        × (closed (ch.unbounded_send tx n h).1 j ≡ closed h j)
  pub send_open :
      (h : ch.Hub) (tx : ℕ) (n : ServerNotification)
      → closed h tx ≡ false
      → ((ch.unbounded_send tx n h).0 ≡ true)
        × (sent (ch.unbounded_send tx n h).1 tx ≡ sent h tx ++ n ∷ [])
  pub send_others :
      (h : ch.Hub) (tx j : ℕ) (n : ServerNotification)
      → j ≢ tx
      → sent (ch.unbounded_send tx n h).1 j ≡ sent h j

pub record RegisteredClient : Type 0 where
  pub uaid : ℕ
  pub uid : ℕ
  pub tx : ℕ

pub record ClientRegistry (ch : Channels) : Type 0 where
  pub clients : List (ℕ × RegisteredClient)
  pub hub : ch.Hub

module _ (ch : Channels) where
  -- The old connection, if there is one, is told to go.
  unfoldable pub drop_existing : Option RegisteredClient → ch.Hub → ch.Hub
  drop_existing none h = h
  drop_existing (some client) h = (ch.unbounded_send client.tx ServerNotification.disconnect h).1

  -- The new sender stands for the stream of its receiver.
  unfoldable pub connect : ℕ → ℕ → ClientRegistry ch → ℕ × ClientRegistry ch
  unfolding drop_existing
  connect uaid uid r =
      let (tx, h) = ch.unbounded r.hub in
      (
        tx,
        record {
          clients = insert uaid (record { uaid = uaid; uid = uid; tx = tx }) r.clients;
          hub = drop_existing (get uaid r.clients) h;
        },
      )

  abbrev pub not_connected : Result ApcError (Unit {0})
  not_connected = err (general_error (codes "User not connected"))

  -- The common part of `notify` and `check_storage`.
  unfoldable pub send_to :
      ServerNotification → ℕ → ClientRegistry ch → Result ApcError (Unit {0}) × ClientRegistry ch
  send_to n uaid r = elim (get uaid r.clients) [
    | none ↦ (not_connected, r)
    | some client ↦
        let (sent, h) = ch.unbounded_send client.tx n r.hub in
        (if sent then ok tt else not_connected, record r { hub = h })
  ]

  unfoldable pub notify :
      ℕ → Notification → ClientRegistry ch → Result ApcError (Unit {0}) × ClientRegistry ch
  unfolding send_to
  notify uaid n r = send_to (ServerNotification.notification n) uaid r

  unfoldable pub check_storage :
      ℕ → ClientRegistry ch → Result ApcError (Unit {0}) × ClientRegistry ch
  unfolding send_to
  check_storage uaid r = send_to ServerNotification.check_storage uaid r

  unfoldable pub client_exists : ℕ → ℕ → ClientRegistry ch → Bool
  client_exists uaid uid r = elim (get uaid r.clients) [
    | none ↦ false
    | some client ↦ client.uid == uid
  ]

  unfoldable pub disconnect :
      ℕ → ℕ → ClientRegistry ch → Result ApcError (Unit {0}) × ClientRegistry ch
  unfolding client_exists
  disconnect uaid uid r =
      if client_exists uaid uid r
      then (ok tt, record r { clients = remove uaid r.clients })
      else (not_connected, r)
