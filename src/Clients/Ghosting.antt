-- ===== src/Clients/Ghosting.antt =====
-- What a new connection means for the session that it replaces, and for notifications.
use autopush_rs.Prelude.{
  ℕ, ◌≡◌, ◌≢◌, refl, ◌∙◌, sym, true, false, Option, none, some, List, [], ◌∷◌, ◌++◌, arith, get,
  insert, get-insert, nat_eq, nat-beq_iff,
}
use autopush_rs.Notification.{Notification}
use autopush_rs.Protocol.{ServerNotification}
use autopush_rs.Services.{ok}
use autopush_rs.Clients.{
  Channels, IsChannels, ClientRegistry, RegisteredClient, drop_existing, connect, notify, send_to,
}

module _ {ch : Channels} (w : IsChannels ch) where
  -- Every registered sender has been created.
  abbrev pub IsWired : ClientRegistry ch → Type 0
  IsWired r =
      (uaid : ℕ) (c : RegisteredClient) → get uaid r.clients ≡ some c → w.created r.hub c.tx ≡ true

  -- A sender that has been created is not the next one.
  not_next : (h : ch.Hub) (tx : ℕ) → w.created h tx ≡ true → tx ≢ (ch.unbounded h).0
  not_next h tx c e = absurd (ground (arith, (w.unbounded_new h).0))

  drop_existing_created :
      (h : ch.Hub) (old : Option RegisteredClient) (tx : ℕ)
      → w.created (drop_existing ch old h) tx ≡ w.created h tx
  unfolding drop_existing
  drop_existing_created h none tx = refl
  drop_existing_created h (some c) tx = (w.send_created h c.tx tx ServerNotification.disconnect).0

  created_next :
      (h : ch.Hub) (tx : ℕ) → w.created h tx ≡ true → w.created (ch.unbounded h).1 tx ≡ true
  created_next h tx c = (w.unbounded_others h tx (not_next h tx c)).0 ∙ c

  -- The new channel is open and empty once the old connection has been told to go.
  drop_existing_new :
      (h : ch.Hub) (old : Option RegisteredClient)
      → ((c : RegisteredClient) → old ≡ some c → w.created h c.tx ≡ true)
      → (w.closed (drop_existing ch old (ch.unbounded h).1) (ch.unbounded h).0 ≡ false)
        × (w.sent (drop_existing ch old (ch.unbounded h).1) (ch.unbounded h).0 ≡ [])
  unfolding drop_existing
  drop_existing_new h none k =
      let (_, _, listening, empty) = w.unbounded_new h in (listening, empty)
  drop_existing_new h (some c) k =
      let (_, _, listening, empty) = w.unbounded_new h in
      let h1 = (ch.unbounded h).1 in
      let tx = (ch.unbounded h).0 in
      (
        (w.send_created h1 c.tx tx ServerNotification.disconnect).1 ∙ listening,
        w.send_others h1 c.tx tx ServerNotification.disconnect
              (λ e. not_next h c.tx (k c refl) (sym e))
            ∙ empty,
      )

  registered_new :
      (uaid : ℕ) (c : RegisteredClient) (cs : List (ℕ × RegisteredClient))
      → get uaid (insert uaid c cs) ≡ some c
  registered_new uaid c cs = ground (arith, get-insert uaid uaid c cs, nat-beq_iff uaid uaid)

  -- A connection keeps every registered sender created.
  pub connect-IsWired :
      (uaid uid : ℕ) (r : ClientRegistry ch) → IsWired r → IsWired (connect ch uaid uid r).1
  unfolding connect
  connect-IsWired uaid uid r wired j c g =
      let new : RegisteredClient = record { uaid = uaid; uid = uid; tx = (ch.unbounded r.hub).0 } in
      drop_existing_created (ch.unbounded r.hub).1 (get uaid r.clients) c.tx
      ∙ ground (
        arith,
        get-insert uaid j new r.clients,
        (w.unbounded_new r.hub).1,
        wired j c,
        created_next r.hub c.tx,
      )

  -- Where every registered sender has been created, a session that is replaced is told to go, if its
  -- receiver is still there.
  pub connect-ghosts :
      (uaid uid : ℕ) (r : ClientRegistry ch) (old : RegisteredClient)
      → IsWired r
      → get uaid r.clients ≡ some old
      → w.closed r.hub old.tx ≡ false
      → w.sent (connect ch uaid uid r).1.hub old.tx
        ≡ w.sent r.hub old.tx ++ ServerNotification.disconnect ∷ []
  unfolding connect drop_existing
  connect-ghosts uaid uid r old wired g listening =
      let other = not_next r.hub old.tx (wired uaid old g) in
      let (made, shut, was) = w.unbounded_others r.hub old.tx other in
      let h = (ch.unbounded r.hub).1 in
      ground (arith, w.send_open h old.tx ServerNotification.disconnect (shut ∙ listening))

  -- Where every registered sender has been created, right after a connection a notification for the user is accepted and is all that was
  -- sent to the new session.
  pub notify-connect :
      (uaid uid : ℕ) (n : Notification) (r : ClientRegistry ch)
      → IsWired r
      → ((notify ch uaid n (connect ch uaid uid r).1).0 ≡ ok tt)
        × (w.sent (notify ch uaid n (connect ch uaid uid r).1).1.hub (connect ch uaid uid r).0
            ≡ ServerNotification.notification n ∷ [])
  unfolding connect notify send_to drop_existing
  notify-connect uaid uid n r wired =
      let new : RegisteredClient = record { uaid = uaid; uid = uid; tx = (ch.unbounded r.hub).0 } in
      let (listening, empty) = drop_existing_new r.hub (get uaid r.clients) (wired uaid) in
      let h = drop_existing ch (get uaid r.clients) (ch.unbounded r.hub).1 in
      let (accepted, received) =
        w.send_open h new.tx (ServerNotification.notification n) listening in
      (
        ground (arith, registered_new uaid new r.clients),
        ground (arith, registered_new uaid new r.clients),
      )
