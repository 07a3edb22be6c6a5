-- ===== src/Clients/Registered.antt =====
-- Which session is registered for a user, after any calls in any order.
use autopush_rs.Prelude.{
  ℕ, ◌≡◌, refl, Bool, false, Option, none, some, List, [], ◌∷◌, arith, get, get-insert, get-remove,
  nat_eq, ◌==◌, if◌then◌else◌, nat-beq_iff,
}
use autopush_rs.Notification.{Notification}
use autopush_rs.Clients.{
  Channels, ClientRegistry, RegisteredClient, connect, disconnect, notify, check_storage,
  client_exists, send_to,
}
use autopush_rs.Clients

-- A call of the registry, by sessions and by the routes of the node.
pub data RegistryCall : Type 0 where
  connects disconnects : ℕ → ℕ → RegistryCall
  notifies : ℕ → Notification → RegistryCall
  checks : ℕ → RegistryCall

module _ (ch : Channels) where
  unfoldable pub call : RegistryCall → ClientRegistry ch → ClientRegistry ch
  call (connects uaid uid) r = (connect ch uaid uid r).1
  call (disconnects uaid uid) r = (disconnect ch uaid uid r).1
  call (notifies uaid n) r = (notify ch uaid n r).1
  call (checks uaid) r = (Clients.check_storage ch uaid r).1

  unfoldable pub calls : List RegistryCall → ClientRegistry ch → ClientRegistry ch
  unfolding call
  calls [] r = r
  calls (c ∷ cs) r = calls cs (call c r)

  -- The session that is registered for a user.
  unfoldable pub session_of : ClientRegistry ch → ℕ → Option ℕ
  session_of r uaid = elim (get uaid r.clients) [ none ↦ none | some c ↦ some c.uid ]

-- The same without channels: the last session that connected, until it disconnects itself.
abbrev pub is_session : ℕ → Option ℕ → Bool
is_session uid none = false
is_session uid (some u) = u == uid

abbrev pub next_session : ℕ → RegistryCall → Option ℕ → Option ℕ
next_session j (connects uaid uid) now = if uaid == j then some uid else now
next_session j (disconnects uaid uid) now =
    if uaid == j then (if is_session uid now then none else now) else now
next_session j (notifies uaid n) now = now
next_session j (checks uaid) now = now

abbrev pub last_session : ℕ → List RegistryCall → Option ℕ → Option ℕ
last_session j [] now = now
last_session j (c ∷ cs) now = last_session j cs (next_session j c now)

module _ {ch : Channels} where
  session_of-call :
      (j : ℕ) (c : RegistryCall) (r : ClientRegistry ch)
      → session_of ch (call ch c r) j ≡ next_session j c (session_of ch r j)
  unfolding call session_of connect disconnect notify Clients.check_storage client_exists send_to
  session_of-call j (connects uaid uid) r =
      let c : RegisteredClient = record { uaid = uaid; uid = uid; tx = (ch.unbounded r.hub).0 } in
      ground (arith, get-insert uaid j c r.clients)
  session_of-call j (disconnects uaid uid) r =
      ground (arith, get-remove uaid j r.clients, nat-beq_iff uaid j)
  session_of-call j (notifies uaid n) r = ground arith
  session_of-call j (checks uaid) r = ground arith

  -- After any calls in any order, the session that is registered for a user is the last one that
  -- connected, unless that session has disconnected since: a session that was replaced does not
  -- remove the one after it, and calls for other users and notifications change nothing.
  pub session_of-calls :
      (j : ℕ) (cs : List RegistryCall) (r : ClientRegistry ch)
      → session_of ch (calls ch cs r) j ≡ last_session j cs (session_of ch r j)
  unfolding calls
  session_of-calls j [] r = refl
  session_of-calls j (c ∷ cs) r =
      ground (arith, session_of-call j c r, session_of-calls j cs (call ch c r))
