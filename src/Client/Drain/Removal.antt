-- ===== src/Client/Drain/Removal.antt =====
-- A batch of which nothing is sent leaves less to read.
use autopush_rs.Prelude.{
  ℕ, ◌≤◌, ◌<◌, ◌≡◌, refl, ◌∙◌, sym, ap, true, not, ◌&&◌, Option, none, List, [], ◌∷◌, Text, arith,
  length, is_some, contains, text_key,
}
use autopush_rs.Notification.{Notification, chidmessageid}
use autopush_rs.Services.{Services, CheckStorageResponse}
use autopush_rs.Client.{Session, done, and_then-eq-done, db-eq-done, db}
use autopush_rs.Client.Storage.{
  set_increment, remove_messages, unexpired, expired_topic_sort_keys, send_unexpired, deliver,
}
use autopush_rs.Client.Drain.{IsDrainable, IsTopic}

module _ {s : Services} (d : IsDrainable s) where
  pub remove_messages_left :
      (uaid : ℕ) (keys : List Text) (t t' : Session s)
      → remove_messages s uaid keys t ≡ done tt t'
      → (length (d.topic_keys t'.world uaid) ≤ length (d.topic_keys t.world uaid))
        × ((p : Option ℕ) → d.pending t'.world uaid p ≤ d.pending t.world uaid p)
  unfolding remove_messages
  remove_messages_left uaid [] t t' h = (ground arith, λ p. ground arith)
  remove_messages_left uaid (k ∷ keys) t t' h =
      let (_, t1, e, rest) = and_then-eq-done (db (s.remove_message uaid k) t) _ h in
      let (call, _) = db-eq-done (s.remove_message uaid k) t e in
      let (fewer, _, lower) = d.remove uaid k t.world t1.world call in
      let (fewer', lower') = remove_messages_left uaid keys t1 t' rest in
      (omega arith, λ p. omega (arith, lower p, lower' p))

  pub remove_messages_less :
      (uaid : ℕ) (k : Text) (keys : List Text) (t t' : Session s)
      → contains (d.topic_keys t.world uaid) k ≡ true
      → remove_messages s uaid (k ∷ keys) t ≡ done tt t'
      → length (d.topic_keys t'.world uaid) < length (d.topic_keys t.world uaid)
  unfolding remove_messages
  remove_messages_less uaid k keys t t' stored h =
      let (_, t1, e, rest) = and_then-eq-done (db (s.remove_message uaid k) t) _ h in
      let (call, _) = db-eq-done (s.remove_message uaid k) t e in
      let (_, less, _) = d.remove uaid k t.world t1.world call in
      omega (arith, less stored, (remove_messages_left uaid keys t1 t' rest).0)

  expired_keys-cons :
      (now : ℕ) (m : Notification) (ms : List Notification)
      → m.sortkey_timestamp ≡ none
      → unexpired now (m ∷ ms) ≡ []
      → expired_topic_sort_keys s now (m ∷ ms)
        ≡ chidmessageid s.as_hyphenated 0 m ∷ expired_topic_sort_keys s now ms
  unfolding unexpired expired_topic_sort_keys
  expired_keys-cons now m ms e h = ground arith

  send_unexpired_none :
      (ms : List Notification) (t t' : Session s)
      → send_unexpired s ms t ≡ done [] t'
      → (ms ≡ []) × (t.world ≡ t'.world) × (t.client ≡ t'.client)
  unfolding send_unexpired
  send_unexpired_none [] t t' h = (refl, ground arith, ground arith)
  send_unexpired_none (m ∷ ms) t t' h = absurd (cc)

  -- A batch of which nothing is sent: all of it had expired, and the topic messages are removed.
  pub deliver_none :
      (r : CheckStorageResponse) (t t' : Session s)
      → deliver s r t ≡ done [] t'
      → let now = (s.sec_since_epoch t.world).0 in
        (t2 : Session s) × (remove_messages s t.client.uaid
            (expired_topic_sort_keys s now r.messages)
            (record t { world = (s.sec_since_epoch t.world).1 })
          ≡ done tt t2)
        × (unexpired now r.messages ≡ [])
        × (t'.world ≡ t2.world)
        × (t'.client ≡ set_increment (not r.include_topic && is_some r.timestamp) t.client)
  unfolding deliver
  deliver_none r t t' h =
      let now = (s.sec_since_epoch t.world).0 in
      let t1 : Session s = record t { world = (s.sec_since_epoch t.world).1 } in
      let keys = expired_topic_sort_keys s now r.messages in
      let (u, t2, e, k) = and_then-eq-done (remove_messages s t.client.uaid keys t1) _ h in
      let (none_left, w, c) = send_unexpired_none (unexpired now r.messages) _ t' k in
      (t2, e, none_left, sym w, sym c)

  -- A batch of topic messages that have all expired leaves fewer of them, and no more of the others.
  pub deliver_topics_left :
      (r : CheckStorageResponse) (t t' : Session s) (m : Notification) (ms : List Notification)
      → r.messages ≡ m ∷ ms
      → IsTopic d t.client.uaid t.world m
      → deliver s r t ≡ done [] t'
      → length (d.topic_keys t'.world t.client.uaid) < length (d.topic_keys t.world t.client.uaid)
  deliver_topics_left r t t' m ms e topic h =
      let now = (s.sec_since_epoch t.world).0 in
      let (t2, removed, gone, w, _) = deliver_none r t t' h in
      let keys = expired_keys-cons now m ms topic.0 (sym (ap (unexpired now) e) ∙ gone) in
      let removed' =
        ap
          (λ (ks : List Text).
            remove_messages s t.client.uaid ks (record t { world = (s.sec_since_epoch t.world).1 }))
          (sym (ap (expired_topic_sort_keys s now) e ∙ keys))
        ∙ removed in
      let (same, _) = d.clock t.world t.client.uaid none in
      let less =
        remove_messages_less t.client.uaid _ _ (record t { world = (s.sec_since_epoch t.world).1 })
          t2 (rw same topic.1) removed' in
      rw w (omega (arith, less, ap length same))

  pub deliver_pending_left :
      (r : CheckStorageResponse) (t t' : Session s) (p : Option ℕ)
      → deliver s r t ≡ done [] t'
      → d.pending t'.world t.client.uaid p ≤ d.pending t.world t.client.uaid p
  deliver_pending_left r t t' p h =
      let (t2, removed, _, w, _) = deliver_none r t t' h in
      let (_, lower) = remove_messages_left t.client.uaid _ _ t2 removed in
      rw w (omega (arith, lower p, (d.clock t.world t.client.uaid p).1))
