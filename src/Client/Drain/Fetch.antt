-- ===== src/Client/Drain/Fetch.antt =====
-- Where the batches come from, and what each leaves to read.
use mathlib.Core.Path.{subst₂}
use autopush_rs.Prelude.{
  ℕ, ◌≤◌, ◌<◌, ◌≡◌, sym, ap, ◌∙◌, subst, true, false, Option, none, some, [], arith, is_empty,
  or_else, contains, text_key, All, Bool-cases, ◌⊎◌, inl, inr, if◌then◌else◌,
}
use autopush_rs.Notification.{chidmessageid}
use autopush_rs.Services.{Services, FetchMessageResponse, CheckStorageResponse}
use autopush_rs.Client.{WebPushClient, Session, done, and_then-eq-done, db-eq-done, db, pure}
use autopush_rs.Client.Storage.{start_from, fetch_topics, fetch_timestamps, do_check_storage}
use autopush_rs.Client.Drain.{IsDrainable, IsTopic, left}

module _ {s : Services} (d : IsDrainable s) where
  -- Where a batch comes from: stored topic messages, or timestamp messages after which fewer are
  -- pending.
  abbrev pub FromTopics : CheckStorageResponse → Session s → Session s → Type 0
  FromTopics r t t1 =
      (r.include_topic ≡ true)
      × (t.client.flags.include_topic ≡ true)
      × (d.topic_keys t1.world t.client.uaid ≡ d.topic_keys t.world t.client.uaid)
      × (d.pending t1.world t.client.uaid none ≡ d.pending t.world t.client.uaid none)
      × All (IsTopic d t.client.uaid t1.world) r.messages

  abbrev pub FromTimestamps : CheckStorageResponse → Session s → Session s → Type 0
  FromTimestamps r t t1 =
      (r.include_topic ≡ false)
      × (q : ℕ) × (r.timestamp ≡ some q)
      × (d.pending t1.world t.client.uaid (some q) < left d t)

  fetch_timestamps_less :
      (c : WebPushClient) (p : Option ℕ) (r : CheckStorageResponse) (t t1 : Session s)
      → is_empty r.messages ≡ false
      → fetch_timestamps s c p t ≡ done r t1
      → (r.include_topic ≡ false)
        × (q : ℕ) × (r.timestamp ≡ some q)
        × (d.pending t1.world c.uaid (some q) < d.pending t.world c.uaid p)
  unfolding fetch_timestamps
  fetch_timestamps_less c p r t t1 some_left h =
      let (fr, t2, e, k) = and_then-eq-done (db (s.fetch_timestamp_messages c.uaid p 10) t) _ h in
      let (call, _) = db-eq-done (s.fetch_timestamp_messages c.uaid p 10) t e in
      let (q, at, less) = d.fetch_timestamp c.uaid 10 p t.world t2.world fr call (ground arith) in
      (ground arith, q, ground arith, ground arith)

  fetch_topics_kept :
      (c : WebPushClient) (tr : FetchMessageResponse) (t t1 : Session s)
      → fetch_topics s c t ≡ done tr t1
      → (d.topic_keys t1.world c.uaid ≡ d.topic_keys t.world c.uaid)
        × ((p : Option ℕ) → d.pending t1.world c.uaid p ≡ d.pending t.world c.uaid p)
        × All (IsTopic d c.uaid t1.world) tr.messages
        × (is_empty tr.messages ≡ false → c.flags.include_topic ≡ true)
  unfolding fetch_topics
  fetch_topics_kept c tr t t1 h = elim (Bool-cases c.flags.include_topic) [
    | inl on ↦
        let k : db (s.fetch_topic_messages c.uaid 11) t ≡ done tr t1 = ground arith in
        let (call, _) = db-eq-done (s.fetch_topic_messages c.uaid 11) t k in
        let (keys, pend, topics) = d.fetch_topic c.uaid 11 t.world t1.world tr call in
        (
          keys,
          pend,
          subst
              (λ ks.
                All
                  (λ m.
                    (m.sortkey_timestamp ≡ none)
                    × (contains ks (chidmessageid s.as_hyphenated 0 m) ≡ true))
                  tr.messages)
              (sym keys) topics,
          λ _. on,
        )
    | inr off ↦
        let nil : tr.messages ≡ [] = ground arith in
        let same : t1.world ≡ t.world = ground arith in
        (
          ap (λ w. d.topic_keys w c.uaid) same,
          λ p. ap (λ w. d.pending w c.uaid p) same,
          rw nil tt,
          λ some_left. absurd (ground arith),
        )
  ]

  start-le-left :
      (t : Session s) (tr : FetchMessageResponse)
      → d.pending t.world t.client.uaid (start_from t.client tr) ≤ left d t
  start-le-left t tr =
      ground (
        arith,
        d.pending_all t.world t.client.uaid (or_else tr.timestamp t.client.current_timestamp),
      )

  from_timestamps :
      (tr : FetchMessageResponse) (r : CheckStorageResponse) (t t2 t1 : Session s)
      → ((p : Option ℕ) → d.pending t2.world t.client.uaid p ≡ d.pending t.world t.client.uaid p)
      → is_empty r.messages ≡ false
      → fetch_timestamps s t.client (start_from t.client tr) t2 ≡ done r t1
      → FromTimestamps r t t1
  from_timestamps tr r t t2 t1 pend some_left h =
      let p = start_from t.client tr in
      let (off, q, at, less) = fetch_timestamps_less t.client p r t2 t1 some_left h in
      (off, q, at, omega (arith, less, pend p, start-le-left t tr))

  -- A read that finds something, by where it was found.
  pub do_check_storage_from :
      (r : CheckStorageResponse) (t t1 : Session s)
      → is_empty r.messages ≡ false
      → do_check_storage s t ≡ done r t1
      → FromTopics r t t1 ⊎ FromTimestamps r t t1
  unfolding do_check_storage
  do_check_storage_from r t t1 some_left h =
      let (tr, t2, e, k) = and_then-eq-done (fetch_topics s t.client t) _ h in from_reply tr t2 e k
    where
      from_reply :
          (tr : FetchMessageResponse) (t2 : Session s)
          → fetch_topics s t.client t ≡ done tr t2
          → (if is_empty tr.messages
                then fetch_timestamps s t.client (start_from t.client tr)
                else pure (record {
                  include_topic = true;
                  messages = tr.messages;
                  timestamp = tr.timestamp;
                }))
              t2
            ≡ done r t1
          → FromTopics r t t1 ⊎ FromTimestamps r t t1
      from_reply tr t2 e k =
          let (keys, pend, topics, on) = fetch_topics_kept t.client tr t t2 e in
          elim (Bool-cases (is_empty tr.messages)) [
            | inl none_left ↦ inr (from_timestamps tr r t t2 t1 pend some_left (ground arith))
            | inr found ↦
                let ms : tr.messages ≡ r.messages = ground arith in
                let same : t2 ≡ t1 = ground arith in
                inl (
                  ground arith,
                  on found,
                  sym (ap (λ (x : Session s). d.topic_keys x.world t.client.uaid) same) ∙ keys,
                  sym (ap (λ (x : Session s). d.pending x.world t.client.uaid none) same)
                      ∙ pend none,
                  subst₂ (λ (x : Session s) l. All (IsTopic d t.client.uaid x.world) l) same ms
                      topics,
                )
          ]
