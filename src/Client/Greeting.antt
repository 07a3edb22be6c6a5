-- ===== src/Client/Greeting.antt =====
-- What a hello leads to (autoconnect-ws-sm/src/unidentified.rs).
use autopush_rs.Prelude.{
  ℕ, ◌≡◌, ◌≤◌, refl, ◌∙◌, ap, sym, subst, ◌⊎◌, inl, inr, true, false, Option, none, some, List, ◌∷◌,
  Text, arith, is_none, ltb, Bool-cases, if_true, if_false, if◌then◌else◌,
}
use autopush_rs.Protocol.{ClientMessage, ServerMessage, BroadcastMap, from_hashmap, DbError}
use autopush_rs.Broadcast.Tracker.{BroadcastSubs}
use autopush_rs.Services.{Services, User, Result, ok, err}
use autopush_rs.Users.{user_crates, set_last_connect}
use autopush_rs.Client.{
  ClientFlags, WebPushClient, Session, Outcome, final, done, fail, out_of_fuel, and_then-eq-done,
}
use autopush_rs.Client.Storage
use autopush_rs.Client.Hello
use autopush_rs.Client.Frame.{kept_of, check_storage_keeps}
use autopush_rs.Client.Hello.{
  GetOrCreateUser, W, handed_over, new_client, start_client, new, create_user, reconnect_user,
  found_user, get_or_create_user, greet, on_hello, on_client_msg, hello_message,
  process_existing_user, store_user, stamp_user, known_user, broadcast_init, answer,
  greet_subscribed, original_uaid, unwrap_broadcasts,
}

module _ (s : Services) where
  at : {A : Type 0} {f g : W s.World A} → f ≡ g → (w : s.World) → f w ≡ g w
  at {A} e w = ap (λ (f : W s.World A). f w) e

  handed_over-eq-done :
      (r : Outcome (Session s) (List ServerMessage)) {c : WebPushClient}
      {smsgs : List ServerMessage} {w : s.World}
      → handed_over s r ≡ done (c, smsgs) w
      → (final r).client ≡ c
  handed_over-eq-done (done a t) h = ground arith
  handed_over-eq-done (fail e t) h = absurd (cc)
  handed_over-eq-done (out_of_fuel t) h = absurd (cc)

  same_done :
      (c c' : WebPushClient) {a b : List ServerMessage} {w w' : s.World}
      → ◌≡◌ {A = Outcome s.World (WebPushClient × List ServerMessage)}
          (done (c, a) w)
          (done (c', b) w')
      → kept_of c' ≡ kept_of c
  same_done c c' h = ground arith

  start_client-keeps :
      (fuel : ℕ) (c : WebPushClient) (w : s.World) {c' : WebPushClient} {smsgs : List ServerMessage}
      {w' : s.World}
      → start_client s fuel c w ≡ done (c', smsgs) w'
      → kept_of c' ≡ kept_of c
  unfolding start_client
  start_client-keeps fuel c w {c' = c'} h = elim (Bool-cases c.flags.check_storage) [
    | inl e ↦
        ap kept_of (
          sym (
            handed_over-eq-done (Storage.check_storage s fuel (record { client = c; world = w }))
              (sym (if_true c.flags.check_storage _ _ e) ∙ h)))
        ∙ check_storage_keeps fuel (record { client = c; world = w })
    | inr e ↦ same_done c c' (sym (if_false c.flags.check_storage _ _ e) ∙ h)
  ]

  new-keeps :
      (fuel uaid : ℕ) (subs : BroadcastSubs) (flags : ClientFlags) (connected_at : ℕ)
      (current_timestamp : Option ℕ) (deferred_add_user : Option User) (w : s.World)
      {c : WebPushClient} {smsgs : List ServerMessage} {w' : s.World}
      → new s fuel uaid subs flags connected_at current_timestamp deferred_add_user w
        ≡ done (c, smsgs) w'
      → (c.uaid ≡ uaid)
        × (c.deferred_add_user ≡ deferred_add_user)
        × (c.connected_at ≡ connected_at)
        × (c.stats.existing_uaid ≡ is_none deferred_add_user)
  unfolding new
  new-keeps fuel uaid subs flags connected_at current_timestamp deferred_add_user w h =
      let k =
        start_client-keeps fuel
          (new_client s uaid subs flags connected_at current_timestamp deferred_add_user
            (s.new_v4 w).0)
          (s.new_v4 w).1 h in
      (ground (arith, k), ground (arith, k), ground (arith, k), ground (arith, k))

  create_user-fresh :
      (connected_at : ℕ) (w : s.World) {found : GetOrCreateUser} {w' : s.World}
      → create_user s connected_at w ≡ done found w'
      → (found.existing_user ≡ false)
        × (found.user.node_id ≡ some s.router_url)
        × (found.user.connected_at ≡ connected_at)
        × (found.user.current_month ≡ s.rotating_message_table)
  unfolding create_user
  create_user-fresh connected_at w h = (ground arith, ground arith, ground arith, ground arith)

  -- The record of a returning user is not from a later connection than this one, and the database
  -- has taken it with this node and this connection in it.
  abbrev pub IsUpdated : ℕ → User → GetOrCreateUser → s.World → Type 0
  IsUpdated connected_at user found w' =
      (stamped : User) × (w : s.World) × (user.connected_at ≤ connected_at)
      × (stamped.uaid ≡ user.uaid)
      × (stamped.node_id ≡ some s.router_url)
      × (stamped.connected_at ≡ connected_at)
      × (s.update_user stamped w ≡ (ok (true, found.user), w'))

  set_last_connect_user :
      (user : User) (w : s.World) {stamped : User} {w' : s.World}
      → Hello.read s (set_last_connect (user_crates s) user) w ≡ done stamped w'
      → (stamped.uaid ≡ user.uaid)
        × (stamped.node_id ≡ user.node_id)
        × (stamped.connected_at ≡ user.connected_at)
  unfolding set_last_connect
  set_last_connect_user user w h = (ground arith, ground arith, ground arith)

  store_user-done :
      (flags : ClientFlags) (stamped : User) (w : s.World) {found : GetOrCreateUser} {w' : s.World}
      → store_user s flags stamped w ≡ done found w'
      → (found.existing_user ≡ true) × (s.update_user stamped w ≡ (ok (true, found.user), w'))
  unfolding store_user
  store_user-done flags stamped w h = (ground arith, ground arith)

  reconnect_user-done :
      (connected_at : ℕ) (user : User) (flags : ClientFlags) (w : s.World) {found : GetOrCreateUser}
      {w' : s.World}
      → reconnect_user s connected_at user flags w ≡ done found w'
      → (found.existing_user ≡ true) × IsUpdated connected_at user found w'
  unfolding reconnect_user
  reconnect_user-done connected_at user flags w h =
      elim (Bool-cases (ltb connected_at user.connected_at)) [
        | inl e ↦
            absurd
              (ground (arith, sym (at (if_true (ltb connected_at user.connected_at) _ _ e) w) ∙ h))
        | inr e ↦
            let (stamped, w1, hs, hu) =
              and_then-eq-done
                (Hello.read s (set_last_connect (user_crates s) (stamp_user s connected_at user)) w)
                (store_user s flags)
                (sym (at (if_false (ltb connected_at user.connected_at) _ _ e) w) ∙ h) in
            let (existing, stored) = store_user-done flags stamped w1 hu in
            let (u, n, c) = set_last_connect_user (stamp_user s connected_at user) w hs in
            (existing, (stamped, w1, ground (arith, e), u, n, c, stored))
      ]

  -- A record for a user that is new to the database, on this node and with this connection.
  abbrev pub IsCreated : ℕ → GetOrCreateUser → Type 0
  IsCreated connected_at found =
      (found.existing_user ≡ false)
      × (found.user.node_id ≡ some s.router_url)
      × (found.user.connected_at ≡ connected_at)
      × (found.user.current_month ≡ s.rotating_message_table)

  abbrev pub IsFound : ℕ → Option User → GetOrCreateUser → s.World → Type 0
  IsFound connected_at user found w' =
      IsCreated connected_at found
      ⊎ ((u : User) × (user ≡ some u)
          × (found.existing_user ≡ true)
          × IsUpdated connected_at u found w')

  known_user-done :
      (connected_at : ℕ) (user : User) (flags : Option ClientFlags) (w : s.World)
      {found : GetOrCreateUser} {w' : s.World}
      → known_user s connected_at user flags w ≡ done found w'
      → IsFound connected_at (some user) found w'
  unfolding known_user
  known_user-done connected_at user none w h = inl (create_user-fresh connected_at w h)
  known_user-done connected_at user (some flags) w h =
      let (existing, updated) = reconnect_user-done connected_at user flags w h in
      inr (user, refl, existing, updated)

  got_user :
      {A : Type 0} (r : Result DbError A × s.World) {a : A} {w' : s.World}
      → Hello.reply s r ≡ done a w'
      → r ≡ (ok a, w')
  got_user (ok b, w) h = ground arith
  got_user (err e, w) h = absurd (cc)

  found_user-done :
      (connected_at : ℕ) (user : Option User) (w : s.World) {found : GetOrCreateUser} {w' : s.World}
      → found_user s connected_at user w ≡ done found w'
      → IsFound connected_at user found w'
  unfolding found_user
  found_user-done connected_at none w h = inl (create_user-fresh connected_at w h)
  found_user-done connected_at (some user) w h =
      let (flags, w1, hf, hr) = and_then-eq-done (process_existing_user s user w) _ h in
      known_user-done connected_at user flags w1 hr

  -- A lookup by uaid that ends with a user asked the database for that uaid. The user is new, on this
  -- node and with this connection; or the database had one, from no later a connection than this,
  -- and has taken it with this node and this connection in it.
  pub get_or_create_user-done :
      (uaid : ℕ) (w : s.World) {found : GetOrCreateUser} {w' : s.World}
      → get_or_create_user s (some uaid) w ≡ done found w'
      → (user : Option User) × (w1 : s.World) × (s.get_user uaid (s.ms_since_epoch w).1
          ≡ (ok user, w1))
        × IsFound (s.ms_since_epoch w).0 user found w'
  unfolding get_or_create_user
  get_or_create_user-done uaid w h =
      let w0 = (s.ms_since_epoch w).1 in
      let (user, w1, hg, hf) = and_then-eq-done (Hello.db s (s.get_user uaid) w0) _ h in
      (
        user,
        w1,
        got_user (s.get_user uaid w0) hg,
        found_user-done (s.ms_since_epoch w).0 user w1 hf,
      )

  -- The user that the session adds at the first registration, if the database does not have it.
  abbrev pub IsDeferred : WebPushClient → Type 0
  IsDeferred c =
      (c.deferred_add_user ≡ none)
      ⊎ ((user : User) × (c.deferred_add_user ≡ some user)
          × (user.uaid ≡ c.uaid)
          × (user.connected_at ≡ c.connected_at))

  IsDeferred-of :
      (found : GetOrCreateUser) (c : WebPushClient)
      → c.deferred_add_user ≡ (if found.existing_user then none else some found.user)
      → c.uaid ≡ found.user.uaid
      → c.connected_at ≡ found.user.connected_at
      → IsDeferred c
  IsDeferred-of found c d u n = elim (Bool-cases found.existing_user) [
    | inl e ↦ inl (d ∙ if_true found.existing_user _ _ e)
    | inr e ↦ inr (found.user, d ∙ if_false found.existing_user _ _ e, sym u, sym n)
  ]

  -- The answer, and the client that is handed over, for the user that was found.
  abbrev pub IsGreeting : WebPushClient → List ServerMessage → Type 0
  IsGreeting c smsgs =
      (response : BroadcastMap) × (rest : List ServerMessage) × (smsgs
        ≡ hello_message s c.uaid response ∷ rest)
      × IsDeferred c

  answered :
      (uaid : ℕ) (response : BroadcastMap) (client c : WebPushClient) (rest : List ServerMessage)
      {smsgs : List ServerMessage} {w w' : s.World}
      → answer s uaid response (client, rest) w ≡ done (c, smsgs) w'
      → (client ≡ c) × (smsgs ≡ hello_message s uaid response ∷ rest)
  answered uaid response client c rest h = (ground arith, ground arith)

  subscribed-done :
      (fuel : ℕ) (found : GetOrCreateUser) (subs : BroadcastSubs) (response : BroadcastMap)
      (w : s.World) {c : WebPushClient} {smsgs : List ServerMessage} {w' : s.World}
      → greet_subscribed s fuel found (subs, response) w ≡ done (c, smsgs) w'
      → (c.uaid ≡ found.user.uaid) × IsGreeting c smsgs
  subscribed-done fuel found subs response w {c = c} {smsgs = smsgs} h =
      let user = found.user in
      let deferred : Option User = if found.existing_user then none else some user in
      let ((client, rest), w2, hc, hr) =
        and_then-eq-done
          (new s fuel user.uaid subs found.flags user.connected_at user.current_timestamp deferred
            w)
          (answer s user.uaid response) h in
      let (u, d, n, _) =
        new-keeps fuel user.uaid subs found.flags user.connected_at user.current_timestamp deferred
          w hc in
      let (same, sent) = answered user.uaid response client c rest hr in
      (
        ap (λ (x : WebPushClient). x.uaid) (sym same) ∙ u,
        subst (λ (x : WebPushClient). IsGreeting x smsgs) same
            (
              response,
              rest,
              sent ∙ ap (λ (n : ℕ). hello_message s n response ∷ rest) (sym u),
              IsDeferred-of found client d u n,
            ),
      )

  greet-done :
      (fuel : ℕ) (broadcasts : List (Text × Text)) (found : GetOrCreateUser) (w : s.World)
      {c : WebPushClient} {smsgs : List ServerMessage} {w' : s.World}
      → greet s fuel broadcasts found w ≡ done (c, smsgs) w'
      → (c.uaid ≡ found.user.uaid) × IsGreeting c smsgs
  unfolding greet
  greet-done fuel broadcasts found w h =
      let ((subs, response), w1, hb, hs) =
        and_then-eq-done (broadcast_init s (from_hashmap broadcasts) w)
          (greet_subscribed s fuel found) h in
      subscribed-done fuel found subs response w1 hs

  on_hello-done :
      (fuel : ℕ) (uaid : Option Text) (broadcasts : Option (List (Text × Text))) (w : s.World)
      {c : WebPushClient} {smsgs : List ServerMessage} {w' : s.World}
      → on_hello s fuel uaid broadcasts w ≡ done (c, smsgs) w'
      → IsGreeting c smsgs
  unfolding on_hello
  on_hello-done fuel uaid broadcasts w h =
      let (found, w1, hf, hg) =
        and_then-eq-done (get_or_create_user s (original_uaid s uaid) w)
          (greet s fuel (unwrap_broadcasts s broadcasts)) h in
      (greet-done fuel (unwrap_broadcasts s broadcasts) found w1 hg).1

  -- The only first message that gets a session is a hello that uses webpush.
  abbrev pub IsHello : ClientMessage → Type 0
  IsHello msg =
      (uaid : Option Text) × (channels : Option (List ℕ)) × (broadcasts : Option
        (List (Text × Text)))
      × (msg ≡ ClientMessage.hello uaid channels (some true) broadcasts)

  -- A first message that gets a session is a hello that uses webpush, the first answer is a
  -- hello with status 200 for the uaid of the client that is handed over, and the user that this client
  -- still has to add to the database, if there is one, has its uaid and its time of connection.
  pub on_client_msg-IsGreeting :
      (fuel : ℕ) (msg : ClientMessage) (w : s.World) {c : WebPushClient}
      {smsgs : List ServerMessage} {w' : s.World}
      → Hello.on_client_msg s fuel msg w ≡ done (c, smsgs) w'
      → IsHello msg × IsGreeting c smsgs
  unfolding Hello.on_client_msg
  on_client_msg-IsGreeting fuel (ClientMessage.hello uaid channels (some true) broadcasts) w h =
      ((uaid, channels, broadcasts, refl), on_hello-done fuel uaid broadcasts w h)
  on_client_msg-IsGreeting fuel (ClientMessage.hello uaid channels (some false) broadcasts) w h =
      absurd (cc)
  on_client_msg-IsGreeting fuel (ClientMessage.hello uaid channels none broadcasts) w h =
      absurd (cc)
  on_client_msg-IsGreeting fuel (ClientMessage.register channel_id key) w h = absurd (cc)
  on_client_msg-IsGreeting fuel (ClientMessage.unregister channel_id code) w h = absurd (cc)
  on_client_msg-IsGreeting fuel (ClientMessage.broadcast_subscribe broadcasts) w h = absurd (cc)
  on_client_msg-IsGreeting fuel (ClientMessage.ack updates) w h = absurd (cc)
  on_client_msg-IsGreeting fuel (ClientMessage.nack code version) w h = absurd (cc)
  on_client_msg-IsGreeting fuel ClientMessage.ping w h = absurd (cc)
