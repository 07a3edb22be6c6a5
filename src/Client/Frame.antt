-- ===== src/Client/Frame.antt =====
-- What the reading of storage leaves alone in the client.
use autopush_rs.Prelude.{
  ℕ, zero, suc, ◌≡◌, refl, Bool, Option, ◌∙◌, true, false, List, [], ◌∷◌, Text, arith, Bool-cases,
  inl, inr, if_true, if_false, ap,
}
use autopush_rs.Notification.{Notification}
use autopush_rs.Protocol.{ServerMessage}
use autopush_rs.Services.{Services, User, CheckStorageResponse}
use autopush_rs.Client.{
  WebPushClient, Session, Outcome, M, final, done, fail, out_of_fuel, and_then,
}
use autopush_rs.Client.Storage.{
  do_check_storage, remove_messages, deliver, send_unexpired, receive, finish_reading, take_batch,
  check_storage_advance, increment_storage, increment_if_flagged, check_msg_limit, loop_end,
  loop_round, send_or_continue, check_storage_loop, check_storage,
}

module _ {s : Services} where
  abbrev pub direct : Session s → List Notification
  direct t = t.client.ack_state.unacked_direct_notifs

  pub client_of :
      {A : Type 0} {r r' : Outcome (Session s) A} → r ≡ r' → (final r).client ≡ (final r').client
  client_of {A} e = ap (λ (x : Outcome (Session s) A). (final x).client) e

  -- The rule for a step and the steps after it.
  pub and_then_keeps :
      {A B C : Type 0} (p : Session s → C) (r : Outcome (Session s) A)
      (f : A → Session s → Outcome (Session s) B)
      → ((a : A) (t : Session s) → p (final (f a t)) ≡ p t)
      → p (final (and_then r f)) ≡ p (final r)
  and_then_keeps p (done a t) f h = h a t
  and_then_keeps p (fail e t) f h = refl
  and_then_keeps p (out_of_fuel t) f h = refl

  pub do_check_storage_client : (t : Session s) → (final (do_check_storage s t)).client ≡ t.client
  unfolding do_check_storage
  do_check_storage_client t = ground arith

  pub remove_messages_client :
      (uaid : ℕ) (keys : List Text) (t : Session s)
      → (final (remove_messages s uaid keys t)).client ≡ t.client
  unfolding remove_messages
  remove_messages_client uaid [] t = refl
  remove_messages_client uaid (k ∷ keys) t = ground (
    arith,
    remove_messages_client uaid keys (record t { world = (s.remove_message uaid k t.world).1 }),
  )

  pub check_msg_limit_client : (t : Session s) → (final (check_msg_limit s t)).client ≡ t.client
  unfolding check_msg_limit
  check_msg_limit_client t = ground arith

  -- A round of the loop, by its test.
  pub loop_round_checking :
      (rest : M s (List ServerMessage)) (t : Session s)
      → t.client.flags.check_storage ≡ true
      → loop_round s rest t ≡ and_then (check_storage_advance s t) (send_or_continue s rest)
  unfolding loop_round
  loop_round_checking rest t e =
      ap (λ (f : M s (List ServerMessage)). f t) (if_true t.client.flags.check_storage _ _ e)

  pub loop_round_finished :
      (rest : M s (List ServerMessage)) (t : Session s)
      → t.client.flags.check_storage ≡ false
      → loop_round s rest t ≡ loop_end s t
  unfolding loop_round
  loop_round_finished rest t e =
      ap (λ (f : M s (List ServerMessage)). f t) (if_false t.client.flags.check_storage _ _ e)

-- The part of the client that the reading leaves alone.
pub record Kept : Type 0 where
  pub uaid : ℕ
  pub deferred_add_user : Option User
  pub direct_notifs : List Notification
  pub connected_at : ℕ
  pub existing_uaid : Bool

abbrev pub kept_of : WebPushClient → Kept
kept_of c = record {
  uaid = c.uaid;
  deferred_add_user = c.deferred_add_user;
  direct_notifs = c.ack_state.unacked_direct_notifs;
  connected_at = c.connected_at;
  existing_uaid = c.stats.existing_uaid;
}

module _ {s : Services} where
  abbrev pub kept : Session s → Kept
  kept t = kept_of t.client

  keeps-increment_storage : (t : Session s) → kept (final (increment_storage s t)) ≡ kept t
  unfolding increment_storage
  keeps-increment_storage t = ground arith

  keeps-send_unexpired :
      (ms : List Notification) (t : Session s) → kept (final (send_unexpired s ms t)) ≡ kept t
  unfolding send_unexpired
  keeps-send_unexpired ms t = ground arith

  keeps-deliver : (r : CheckStorageResponse) (t : Session s) → kept (final (deliver s r t)) ≡ kept t
  unfolding deliver
  keeps-deliver r t = grind (arith, remove_messages_client, keeps-send_unexpired)

  keeps-take_batch :
      (r : CheckStorageResponse) (t : Session s) → kept (final (take_batch s r t)) ≡ kept t
  unfolding take_batch finish_reading
  keeps-take_batch r t = ground (arith, keeps-deliver r (record t { client = receive r t.client }))

  keeps-check_storage_advance : (t : Session s) → kept (final (check_storage_advance s t)) ≡ kept t
  unfolding check_storage_advance
  keeps-check_storage_advance t =
      and_then_keeps kept (do_check_storage s t) _ keeps-take_batch
      ∙ ap kept_of (do_check_storage_client t)

  pub keeps-increment_if_flagged :
      (t : Session s) → kept (final (increment_if_flagged s t)) ≡ kept t
  unfolding increment_if_flagged
  keeps-increment_if_flagged t = ground (arith, keeps-increment_storage t)

  keeps-loop_end : (t : Session s) → kept (final (loop_end s t)) ≡ kept t
  unfolding loop_end
  keeps-loop_end t = ground (arith, keeps-increment_if_flagged t)

  keeps-send_or_continue :
      (rest : M s (List ServerMessage)) (smsgs : List ServerMessage) (t : Session s)
      → kept (final (rest t)) ≡ kept t
      → kept (final (send_or_continue s rest smsgs t)) ≡ kept t
  unfolding send_or_continue
  keeps-send_or_continue rest smsgs t h = ground (arith, check_msg_limit_client t)

  pub keeps-check_storage_loop :
      (fuel : ℕ) (t : Session s) → kept (final (check_storage_loop s fuel t)) ≡ kept t
  unfolding check_storage_loop
  keeps-check_storage_loop zero t = refl
  keeps-check_storage_loop (suc fuel) t = elim (Bool-cases t.client.flags.check_storage) [
    | inl e ↦ rw (loop_round_checking (check_storage_loop s fuel) t e) (
        and_then_keeps kept (check_storage_advance s t) _ (λ smsgs t'.
          keeps-send_or_continue (check_storage_loop s fuel) smsgs t'
            (keeps-check_storage_loop fuel t'))
        ∙ keeps-check_storage_advance t)
    | inr e ↦ rw (loop_round_finished (check_storage_loop s fuel) t e) (keeps-loop_end t)
  ]

  pub check_storage_keeps :
      (fuel : ℕ) (t : Session s) → kept (final (check_storage s fuel t)) ≡ kept t
  unfolding check_storage
  check_storage_keeps fuel t = keeps-check_storage_loop fuel _

  pub direct-increment_if_flagged :
      (t : Session s) → direct (final (increment_if_flagged s t)) ≡ direct t
  direct-increment_if_flagged t = ap (λ (k : Kept). k.direct_notifs) (keeps-increment_if_flagged t)

  pub direct-check_storage_loop :
      (fuel : ℕ) (t : Session s) → direct (final (check_storage_loop s fuel t)) ≡ direct t
  direct-check_storage_loop fuel t =
      ap (λ (k : Kept). k.direct_notifs) (keeps-check_storage_loop fuel t)

  pub check_storage_direct :
      (fuel : ℕ) (t : Session s) → direct (final (check_storage s fuel t)) ≡ direct t
  check_storage_direct fuel t = ap (λ (k : Kept). k.direct_notifs) (check_storage_keeps fuel t)
