-- ===== src/Client/Drain/Termination.antt =====
-- The rounds of `check_storage_loop`, and what each leaves to read.
use autopush_rs.Prelude.{
  ℕ, zero, suc, ◌+◌, ◌<◌, ◌≤◌, ◌≡◌, refl, ◌∙◌, sym, ap, subst, true, false, none, some, List, [],
  ◌∷◌, Text, arith, length, is_empty, All, Bool-cases, inl, inr,
}
use autopush_rs.Notification.{Notification}
use autopush_rs.Protocol.{ServerMessage}
use autopush_rs.Services.{Services, CheckStorageResponse}
use autopush_rs.Client.{
  WebPushClient, Session, Outcome, done, fail, out_of_fuel, and_then, and_then-eq-done,
}
use autopush_rs.Client.Storage.{
  receive, deliver, take_batch, finish_reading, do_check_storage, check_storage_advance,
  check_msg_limit, increment_storage, increment_if_flagged, loop_end, send_or_continue,
  check_storage_loop, remove_messages, send_unexpired,
}
use autopush_rs.Client.Frame.{
  loop_round_checking, loop_round_finished, client_of, do_check_storage_client,
}
use autopush_rs.Client.Drain.{IsDrainable, IsTopic, left}
use autopush_rs.Client.Drain.Removal.{deliver_none, deliver_topics_left, deliver_pending_left}
use autopush_rs.Client.Drain.Fetch.{FromTopics, FromTimestamps, do_check_storage_from}

-- The method has ended, with a result or with an error.
abbrev pub IsFinished : {S A : Type 0} → Outcome S A → Type 0
IsFinished (done a t) = Unit
IsFinished (fail e t) = Unit
IsFinished (out_of_fuel t) = ⊥

and_then-IsFinished :
    {S A B : Type 0} (r : Outcome S A) (f : A → S → Outcome S B)
    → IsFinished r
    → ((a : A) (t : S) → r ≡ done a t → IsFinished (f a t))
    → IsFinished (and_then r f)
and_then-IsFinished (done a t) f h k = k a t refl
and_then-IsFinished (fail e t) f h k = tt
and_then-IsFinished (out_of_fuel t) f h k = elim h [ ]

module _ {s : Services} where
  remove_messages-IsFinished :
      (uaid : ℕ) (keys : List Text) (t : Session s) → IsFinished (remove_messages s uaid keys t)
  unfolding remove_messages
  remove_messages-IsFinished uaid [] t = tt
  remove_messages-IsFinished uaid (k ∷ keys) t =
      and_then-IsFinished _ _ (ground arith) (λ _ t' _. remove_messages-IsFinished uaid keys t')

  do_check_storage-IsFinished : (t : Session s) → IsFinished (do_check_storage s t)
  unfolding do_check_storage
  do_check_storage-IsFinished t = ground arith

  deliver-IsFinished : (r : CheckStorageResponse) (t : Session s) → IsFinished (deliver s r t)
  unfolding deliver send_unexpired
  deliver-IsFinished r t =
      and_then-IsFinished _ _ (remove_messages-IsFinished _ _ _) (λ _ t' _. ground arith)

  check_storage_advance-IsFinished : (t : Session s) → IsFinished (check_storage_advance s t)
  unfolding check_storage_advance take_batch finish_reading
  check_storage_advance-IsFinished t =
      and_then-IsFinished _ _ (do_check_storage-IsFinished t) (λ r t' _.
        ground (arith, deliver-IsFinished r (record t' { client = receive r t'.client })))

  loop_end-IsFinished : (t : Session s) → IsFinished (loop_end s t)
  unfolding loop_end increment_if_flagged increment_storage
  loop_end-IsFinished t = ground arith

  check_msg_limit-IsFinished : (t : Session s) → IsFinished (check_msg_limit s t)
  unfolding check_msg_limit
  check_msg_limit-IsFinished t = ground arith

module _ {s : Services} (d : IsDrainable s) where
  -- A batch that was found and of which nothing is sent.
  topics_less :
      (r : CheckStorageResponse) (ms : List Notification) (t t1 t' : Session s)
      → r.messages ≡ ms
      → is_empty ms ≡ false
      → t1.client.uaid ≡ t.client.uaid
      → FromTopics d r t t1
      → deliver s r (record t1 { client = receive r t1.client }) ≡ done [] t'
      → left d t' < left d t
  topics_less r [] t t1 t' e found same (on, was, keys, pend, topics) h = absurd (cc)
  topics_less r (m ∷ ms) t t1 t' e found same (on, was, keys, pend, topics) h =
      let t2 : Session s = record t1 { client = receive r t1.client } in
      let first =
        subst (All (IsTopic d t1.client.uaid t1.world)) e
          (subst (λ (u : ℕ). All (IsTopic d u t1.world) r.messages) (sym same) topics) in
      let less =
        subst (λ (u : ℕ). length (d.topic_keys t'.world u) < length (d.topic_keys t1.world u)) same
          (deliver_topics_left d r t2 t' m ms e first.0 h) in
      let lower =
        subst (λ (u : ℕ). d.pending t'.world u none ≤ d.pending t1.world u none) same
          (deliver_pending_left d r t2 t' none h) in
      let (_, _, _, _, c) = deliver_none d r t2 t' h in
      let uaid : t'.client.uaid ≡ t.client.uaid = ap (λ (x : WebPushClient). x.uaid) c ∙ same in
      let on' : t'.client.flags.include_topic ≡ true =
        ap (λ (x : WebPushClient). x.flags.include_topic) c ∙ on in
      ground (
        arith,
        less,
        lower,
        ap length keys,
        ap (λ (u : ℕ). length (d.topic_keys t'.world u)) uaid,
        ap (λ (u : ℕ). d.pending t'.world u none) uaid,
      )

  timestamps_less :
      (r : CheckStorageResponse) (t t1 t' : Session s)
      → t1.client.uaid ≡ t.client.uaid
      → FromTimestamps d r t t1
      → deliver s r (record t1 { client = receive r t1.client }) ≡ done [] t'
      → left d t' < left d t
  timestamps_less r t t1 t' same (off, q, at, less) h =
      let t2 : Session s = record t1 { client = receive r t1.client } in
      let lower =
        subst (λ (u : ℕ). d.pending t'.world u (some q) ≤ d.pending t1.world u (some q)) same
          (deliver_pending_left d r t2 t' (some q) h) in
      let (_, _, _, _, c) = deliver_none d r t2 t' h in
      let uaid : t'.client.uaid ≡ t.client.uaid = ap (λ (x : WebPushClient). x.uaid) c ∙ same in
      let off' : t'.client.flags.include_topic ≡ false =
        ap (λ (x : WebPushClient). x.flags.include_topic) c ∙ off in
      let at' : t'.client.ack_state.unacked_stored_highest ≡ some q =
        ap (λ (x : WebPushClient). x.ack_state.unacked_stored_highest) c ∙ at in
      ground (arith, lower, ap (λ (u : ℕ). d.pending t'.world u (some q)) uaid)

  check_storage_advance_less :
      (t t' : Session s)
      → check_storage_advance s t ≡ done [] t'
      → t'.client.flags.check_storage ≡ true
      → left d t' < left d t
  unfolding check_storage_advance take_batch finish_reading
  check_storage_advance_less t t' h more =
      let (r, t1, e, k) = and_then-eq-done (do_check_storage s t) _ h in
      let same : t1.client.uaid ≡ t.client.uaid =
        ap (λ (x : WebPushClient). x.uaid) (sym (client_of e) ∙ do_check_storage_client t) in
      elim (Bool-cases (is_empty r.messages)) [
        | inl none_left ↦ absurd (ground arith)
        | inr found ↦
            let l : deliver s r (record t1 { client = receive r t1.client }) ≡ done [] t' =
              ground arith in
            elim (do_check_storage_from d r t t1 found e) [
              | inl topics ↦ topics_less r r.messages t t1 t' refl found same topics l
              | inr stamps ↦ timestamps_less r t t1 t' same stamps l
            ]
      ]

  loop_off-IsFinished :
      (fuel : ℕ) (t : Session s)
      → 0 < fuel
      → t.client.flags.check_storage ≡ false
      → IsFinished (check_storage_loop s fuel t)
  unfolding check_storage_loop
  loop_off-IsFinished zero t h off = absurd (omega arith)
  loop_off-IsFinished (suc fuel) t h off =
      rw (loop_round_finished (check_storage_loop s fuel) t off) (loop_end-IsFinished t)

  send_or_continue-IsFinished :
      (fuel : ℕ) (batch : List ServerMessage) (t : Session s)
      → (batch ≡ [] → IsFinished (check_storage_loop s fuel t))
      → IsFinished (send_or_continue s (check_storage_loop s fuel) batch t)
  unfolding send_or_continue
  send_or_continue-IsFinished fuel [] t h = h refl
  send_or_continue-IsFinished fuel (m ∷ ms) t h =
      and_then-IsFinished _ _ (check_msg_limit-IsFinished t) (λ _ t' _. tt)

  next_round :
      (fuel : ℕ) (t t1 : Session s)
      → check_storage_advance s t ≡ done [] t1
      → left d t + 1 < suc fuel
      → (left d t1 + 1 < fuel → IsFinished (check_storage_loop s fuel t1))
      → IsFinished (check_storage_loop s fuel t1)
  next_round fuel t t1 e h ih = elim (Bool-cases t1.client.flags.check_storage) [
    | inl more ↦ let less = check_storage_advance_less t t1 e more in ih (omega (arith, less))
    | inr off ↦ loop_off-IsFinished fuel t1 (omega arith) off
  ]

  -- Against a database that satisfies `IsDrainable`, with at least two rounds more than `left`
  -- counts, the loop ends with a result or an error, whatever the state in which it starts.
  pub check_storage_loop-IsFinished :
      (fuel : ℕ) (t : Session s) → left d t + 1 < fuel → IsFinished (check_storage_loop s fuel t)
  unfolding check_storage_loop
  check_storage_loop-IsFinished zero t h = absurd (omega arith)
  check_storage_loop-IsFinished (suc fuel) t h = elim (Bool-cases t.client.flags.check_storage) [
    | inr off ↦ rw (loop_round_finished (check_storage_loop s fuel) t off) (loop_end-IsFinished t)
    | inl on ↦ rw (loop_round_checking (check_storage_loop s fuel) t on) (
        and_then-IsFinished _ _ (check_storage_advance-IsFinished t) (λ batch t1 e.
          send_or_continue-IsFinished fuel batch t1 (λ nil.
            next_round fuel t t1 (e ∙ ap (λ (b : List ServerMessage). done b t1) nil) h
              (check_storage_loop-IsFinished fuel t1))))
  ]
