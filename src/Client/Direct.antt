-- ===== src/Client/Direct.antt =====
-- Acks, and the direct notifications that wait for them.
use autopush_rs.Prelude.{
  ℕ, ◌+◌, ◌≤◌, ◌≡◌, refl, ◌∙◌, Bool, true, ◌&&◌, some, List, [], ◌∷◌, arith, count_if, text_eq,
  text_eq_iff, ◌==◌, Option-cases, inl, inr, ap,
}
use autopush_rs.Notification.{Notification}
use autopush_rs.Protocol.{ClientAck, ServerMessage}
use autopush_rs.Services.{Services}
use autopush_rs.Client.{Session, Outcome, final, done, fail, out_of_fuel, and_then}
use autopush_rs.Client.Storage.{increment_if_flagged, check_storage_loop}
use autopush_rs.Client.Messages.{
  is_acked_by, take_acked, ack_update, ack_updates, ack_stored_update, ack, after_acks,
  post_process_all_acked, reset_if_old, after_loop, read_more,
}
use autopush_rs.Client.Frame.{
  direct, direct-increment_if_flagged, and_then_keeps, direct-check_storage_loop,
}

-- Two acks for the same notification.
abbrev pub is_same_ack : ClientAck → ClientAck → Bool
is_same_ack u v = (u.channel_id == v.channel_id) && text_eq u.version v.version

-- How many unacked direct notifications an ack would fit, and how many of the updates are that ack.
abbrev pub fitting : ClientAck → List Notification → ℕ
fitting u = count_if (is_acked_by u)

abbrev pub acks_of : ClientAck → List ClientAck → ℕ
acks_of u = count_if (is_same_ack u)

acked_by_both :
    (u v : ClientAck) (n : Notification)
    → is_acked_by u n ≡ true
    → is_acked_by v n ≡ true
    → is_same_ack u v ≡ true
unfolding is_acked_by
acked_by_both u v n h k = ground (
  arith,
  text_eq_iff n.version u.version,
  text_eq_iff n.version v.version,
  text_eq_iff u.version v.version,
)

-- Removing what one ack fits takes at most one notification, and only one that it fits.
fitting-take_acked :
    (u v : ClientAck) (ns rest : List Notification) (n : Notification)
    → take_acked v ns ≡ some (n, rest)
    → fitting u ns ≤ fitting u rest + acks_of u (v ∷ [])
unfolding take_acked
fitting-take_acked u v [] rest n h = absurd (cc)
fitting-take_acked u v (x ∷ ns) rest n h = elim (Option-cases (take_acked v ns)) [
  | inl e ↦ ground (arith, acked_by_both u v x)
  | inr ((m, ms), e) ↦ ground (arith, acked_by_both u v x, fitting-take_acked u v ns ms m e)
]

module _ {s : Services} where
  direct-ack_stored_update :
      (n : Notification) (rest : List Notification) (t : Session s)
      → direct (final (ack_stored_update s n rest t)) ≡ direct t
  unfolding ack_stored_update
  direct-ack_stored_update n rest t = ground arith

  fitting-ack_update :
      (u v : ClientAck) (t : Session s)
      → fitting u (direct t) ≤ fitting u (direct (final (ack_update s v t))) + acks_of u (v ∷ [])
  unfolding ack_update
  fitting-ack_update u v t = elim (Option-cases (take_acked v (direct t))) [
    | inr ((n, rest), e) ↦ ground (arith, fitting-take_acked u v (direct t) rest n e)
    | inl e ↦ elim (Option-cases (take_acked v t.client.ack_state.unacked_stored_notifs)) [
      | inl f ↦ ground arith
      | inr ((n, rest), f) ↦ ground (arith, direct-ack_stored_update n rest t)
    ]
  ]

  -- A rule for a part that may remove what `a` acks fit, and a part after it for `b`.
  fitting-and_then :
      {A B : Type 0} (u : ClientAck) (m a b : ℕ) (r : Outcome (Session s) A)
      (f : A → Session s → Outcome (Session s) B)
      → m ≤ fitting u (direct (final r)) + a
      → ((x : A) (t : Session s) → fitting u (direct t) ≤ fitting u (direct (final (f x t))) + b)
      → m ≤ fitting u (direct (final (and_then r f))) + (a + b)
  fitting-and_then u m a b (done x t) f h k = omega (arith, k x t)
  fitting-and_then u m a b (fail e t) f h k = omega arith
  fitting-and_then u m a b (out_of_fuel t) f h k = omega arith

  fitting-ack_updates :
      (u : ClientAck) (us : List ClientAck) (t : Session s)
      → fitting u (direct t) ≤ fitting u (direct (final (ack_updates s us t))) + acks_of u us
  unfolding ack_updates
  fitting-ack_updates u [] t = omega arith
  fitting-ack_updates u (v ∷ us) t =
      let both =
        fitting-and_then u (fitting u (direct t)) (acks_of u (v ∷ [])) (acks_of u us)
          (ack_update s v t) (λ _. ack_updates s us) (fitting-ack_update u v t)
          (λ _ t'. fitting-ack_updates u us t') in
      ground (arith, both)

  direct-reset_if_old : (t : Session s) → direct (final (reset_if_old s t)) ≡ direct t
  unfolding reset_if_old
  direct-reset_if_old t = ground arith

  direct-after_loop :
      (smsgs : List ServerMessage) (t : Session s)
      → direct (final (after_loop s smsgs t)) ≡ direct t
  unfolding after_loop
  direct-after_loop [] t = direct-reset_if_old t
  direct-after_loop (m ∷ ms) t = refl

  direct-read_more : (fuel : ℕ) (t : Session s) → direct (final (read_more s fuel t)) ≡ direct t
  unfolding read_more
  direct-read_more fuel t =
      and_then_keeps direct (increment_if_flagged s t) _ (λ _ t'.
        and_then_keeps direct (check_storage_loop s fuel t') _ direct-after_loop
        ∙ direct-check_storage_loop fuel t')
      ∙ direct-increment_if_flagged t

  direct-post_process_all_acked :
      (fuel : ℕ) (t : Session s) → direct (final (post_process_all_acked s fuel t)) ≡ direct t
  unfolding post_process_all_acked
  direct-post_process_all_acked fuel t =
      ground (arith, direct-read_more fuel t, direct-reset_if_old t)

  direct-after_acks : (fuel : ℕ) (t : Session s) → direct (final (after_acks s fuel t)) ≡ direct t
  unfolding after_acks
  direct-after_acks fuel t = ground (arith, direct-post_process_all_acked fuel t)

  pub fitting-ack :
      (u : ClientAck) (fuel : ℕ) (us : List ClientAck) (t : Session s)
      → fitting u (direct t) ≤ fitting u (direct (final (ack s fuel us t))) + acks_of u us
  unfolding ack
  fitting-ack u fuel us t =
      let keep = ap (fitting u) (
        and_then_keeps direct (ack_updates s us t) (λ _. after_acks s fuel)
          (λ _ t'. direct-after_acks fuel t')) in
      omega (arith, keep, fitting-ack_updates u us t)
