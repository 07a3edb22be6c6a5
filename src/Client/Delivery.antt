-- ===== src/Client/Delivery.antt =====
-- Direct notifications across the handling of one input and of a run of them.
use autopush_rs.Prelude.{
  ℕ, ◌+◌, ◌≤◌, ◌≡◌, refl, not, ◌&&◌, Option, List, [], ◌∷◌, Text, arith, count_if-append, ◌==◌,
  if◌then◌else◌, Option-cases, inl, inr, ap,
}
use autopush_rs.Protocol.{ClientAck, ClientMessage, ServerNotification, ServerMessage}
use autopush_rs.Services.{Services}
use autopush_rs.Client.{Session, Outcome, final, done, fail, out_of_fuel, and_then-eq-done}
use autopush_rs.Client.Storage.{notif, on_server_notif}
use autopush_rs.Client.Messages.{
  is_acked_by, on_client_msg, register, do_register, register_reply, add_deferred_user,
  endpoint_for, unregister, unregister_reply, nack, ping, broadcast_subscribe,
}
use autopush_rs.Client.Frame.{direct, check_storage_direct}
use autopush_rs.Client.Run.{Input, from_client, from_registry, handle, run}
use autopush_rs.Client.Direct.{fitting, acks_of, fitting-ack}

-- The acks of a kind in an input, and the direct notifications that it brings and that are kept.
abbrev pub acks_in : ClientAck → Input → ℕ
acks_in u (from_client (ClientMessage.ack us)) = acks_of u us
acks_in u _ = 0

abbrev pub kept_in : ClientAck → Input → ℕ
kept_in u (from_registry (ServerNotification.notification n)) =
    if not (n.ttl == 0) && is_acked_by u n then 1 else 0
kept_in u _ = 0

abbrev pub all_acks_in : ClientAck → List Input → ℕ
all_acks_in u [] = 0
all_acks_in u (i ∷ is) = acks_in u i + all_acks_in u is

abbrev pub all_kept_in : ClientAck → List Input → ℕ
all_kept_in u [] = 0
all_kept_in u (i ∷ is) = kept_in u i + all_kept_in u is

module _ {s : Services} where
  direct-register_reply :
      (channel_id : ℕ) (r : Outcome (Session s) Text)
      → direct (final (register_reply s channel_id r)) ≡ direct (final r)
  unfolding register_reply
  direct-register_reply channel_id (done url t) = refl
  direct-register_reply channel_id (fail e t) = refl
  direct-register_reply channel_id (out_of_fuel t) = refl

  direct-do_register :
      (channel_id : ℕ) (key : Option Text) (t : Session s)
      → direct (final (do_register s channel_id key t)) ≡ direct t
  unfolding do_register add_deferred_user endpoint_for
  direct-do_register channel_id key t = ground arith

  direct-register :
      (channel_id : Text) (key : Option Text) (t : Session s)
      → direct (final (register s channel_id key t)) ≡ direct t
  unfolding register
  direct-register channel_id key t = elim (Option-cases (s.try_parse channel_id)) [
    | inl e ↦ rw (e, register) refl
    | inr (id, e) ↦
        ground
          (arith, direct-do_register id key t, direct-register_reply id (do_register s id key t))
  ]

  direct-unregister :
      (channel_id : ℕ) (code : Option ℕ) (t : Session s)
      → direct (final (unregister s channel_id code t)) ≡ direct t
  unfolding unregister unregister_reply
  direct-unregister channel_id code t = ground arith

  direct-broadcast_subscribe :
      (bs : List (Text × Text)) (t : Session s)
      → direct (final (broadcast_subscribe s bs t)) ≡ direct t
  unfolding broadcast_subscribe
  direct-broadcast_subscribe bs t = refl

  direct-nack : (code : Option ℕ) (t : Session s) → direct (final (nack s code t)) ≡ direct t
  unfolding nack
  direct-nack code t = refl

  direct-ping : (t : Session s) → direct (final (ping s t)) ≡ direct t
  unfolding ping
  direct-ping t = ground arith

  fitting-on_client_msg :
      (u : ClientAck) (fuel : ℕ) (msg : ClientMessage) (t : Session s)
      → fitting u (direct t)
        ≤ fitting u (direct (final (on_client_msg s fuel msg t))) + acks_in u (from_client msg)
  unfolding on_client_msg
  fitting-on_client_msg u fuel (ClientMessage.ack us) t = fitting-ack u fuel us t
  fitting-on_client_msg u fuel (ClientMessage.hello a b c d) t = omega arith
  fitting-on_client_msg u fuel (ClientMessage.register id key) t =
      ground (arith, direct-register id key t)
  fitting-on_client_msg u fuel (ClientMessage.unregister id code) t =
      ground (arith, direct-unregister id code t)
  fitting-on_client_msg u fuel (ClientMessage.broadcast_subscribe bs) t =
      ground (arith, direct-broadcast_subscribe bs t)
  fitting-on_client_msg u fuel (ClientMessage.nack code version) t =
      ground (arith, direct-nack code t)
  fitting-on_client_msg u fuel ClientMessage.ping t = ground (arith, direct-ping t)

  fitting-on_server_notif :
      (u : ClientAck) (fuel : ℕ) (snotif : ServerNotification) (t : Session s)
      → fitting u (direct (final (on_server_notif s fuel snotif t)))
        ≡ fitting u (direct t) + kept_in u (from_registry snotif)
  unfolding on_server_notif notif
  fitting-on_server_notif u fuel (ServerNotification.notification n) t =
      ground (arith, count_if-append (is_acked_by u) (direct t) (n ∷ []))
  fitting-on_server_notif u fuel ServerNotification.check_storage t =
      ground (arith, check_storage_direct fuel t)
  fitting-on_server_notif u fuel ServerNotification.disconnect t = omega arith

  -- However an input is handled, errors and unfinished loops included, the direct notifications of a
  -- kind (channel and version) that waited before, with the one that the input brings if its TTL is
  -- not 0, wait after it, except for one at most for each ack of that kind in the input.
  pub fitting-handle :
      (u : ClientAck) (fuel : ℕ) (i : Input) (t : Session s)
      → fitting u (direct t) + kept_in u i
        ≤ fitting u (direct (final (handle s fuel i t))) + acks_in u i
  unfolding handle
  fitting-handle u fuel (from_client msg) t = omega (arith, fitting-on_client_msg u fuel msg t)
  fitting-handle u fuel (from_registry n) t = omega (arith, fitting-on_server_notif u fuel n t)

  fitting_of_outcome :
      (u : ClientAck) {r r' : Outcome (Session s) (List ServerMessage)}
      → r ≡ r'
      → fitting u (direct (final r)) ≡ fitting u (direct (final r'))
  fitting_of_outcome u e = ap (λ x. fitting u (direct (final x))) e

  -- Over a whole run of inputs with no error, no direct notification that is kept gets lost: those of
  -- a kind that waited before and those that came in wait at the end, except for one at most for each
  -- ack of that kind.
  pub fitting-run :
      (u : ClientAck) (fuel : ℕ) (is : List Input) (t t' : Session s) (smsgs : List ServerMessage)
      → run s fuel is t ≡ done smsgs t'
      → fitting u (direct t) + all_kept_in u is ≤ fitting u (direct t') + all_acks_in u is
  unfolding run
  fitting-run u fuel [] t t' smsgs h = omega (arith, fitting_of_outcome u h)
  fitting-run u fuel (i ∷ is) t t' smsgs h =
      let (m, t1, e, k) = and_then-eq-done (handle s fuel i t) _ h in
      let (ms, t2, f, l) = and_then-eq-done (run s fuel is t1) _ k in
      omega (
        arith,
        fitting-handle u fuel i t,
        fitting-run u fuel is t1 t2 ms f,
        fitting_of_outcome u e,
        fitting_of_outcome u l,
      )
