-- ===== src/Tests/World.antt =====
-- A database in memory: topic messages by their user and topic, and timestamp messages numbered from
-- 1, which it hands out one by one. What a session saves is kept apart.
use autopush_rs.Prelude.{
  ◌==◌, ◌&&◌, inl, inr, Bool-cases, nat_eq, ℕ, ◌+◌, ◌-◌, ◌≤◌, ◌<◌, ◌≡◌, refl, true, Option, none,
  some, List, [], ◌∷◌, ◌++◌, Text, codes, arith, ltb, text_eq, text_eq_refl, to_string, length,
  contains, text_key, All, sym, ap, subst, if◌then◌else◌,
}
use autopush_rs.Notification.{Notification, chidmessageid}
use autopush_rs.Protocol.{DbError}
use autopush_rs.Services.{Services, Result, ok, FetchMessageResponse}
use autopush_rs.Client.Drain.{IsDrainable}

pub record Memory : Type 0 where
  pub clock : ℕ
  pub topics : List (ℕ × Text)
  pub last : ℕ
  pub saved : List Notification

abbrev pub topic_message : Text → Notification
topic_message topic = record {
  channel_id = 7;
  version = topic;
  ttl = 60;
  topic = some topic;
  timestamp = 100;
  body = none;
  sortkey_timestamp = none;
  headers = none;
}

abbrev pub stamped_message : ℕ → Notification
stamped_message n = record {
  channel_id = 8;
  version = to_string n;
  ttl = 60;
  topic = none;
  timestamp = 100;
  body = none;
  sortkey_timestamp = some n;
  headers = none;
}

abbrev pub key_of : Text → Text
key_of topic = chidmessageid to_string 0 (topic_message topic)

abbrev pub drop_key : ℕ → Text → List (ℕ × Text) → List (ℕ × Text)
drop_key uaid key [] = []
drop_key uaid key ((u, n) ∷ ns) =
    let rest = drop_key uaid key ns in
    if u == uaid && text_eq (key_of n) key then ns else (u, n) ∷ rest

-- The keys that a user has.
abbrev pub keys_at : ℕ → List (ℕ × Text) → List Text
keys_at uaid [] = []
keys_at uaid ((u, n) ∷ ns) =
    let rest = keys_at uaid ns in if u == uaid then key_of n ∷ rest else rest

abbrev pub first_topic : ℕ → List (ℕ × Text) → FetchMessageResponse
first_topic uaid [] = record { timestamp = none; messages = [] }
first_topic uaid ((u, n) ∷ ns) =
    let rest = first_topic uaid ns in
    if u == uaid then record { timestamp = none; messages = topic_message n ∷ [] } else rest

abbrev pub position : Option ℕ → ℕ
position none = 0
position (some n) = n

abbrev pub next_stamped : ℕ → Option ℕ → FetchMessageResponse
next_stamped last p =
    if ltb (position p) last
    then record {
      timestamp = some (position p + 1);
      messages = stamped_message (position p + 1) ∷ [];
    }
    else record { timestamp = none; messages = [] }

abbrev pub memory : Services
memory = record {
  World = Memory;
  sec_since_epoch = λ w. (w.clock, w);
  ms_since_epoch = λ w. (1000, w);
  new_v4 = λ w. (5, w);
  format_utc = λ pattern w. (codes "20240112", w);
  gen_range = λ n w. (3, w);
  try_parse = λ t. some 7;
  as_hyphenated = to_string;
  as_simple = to_string;
  msg_limit = 100;
  router_url = codes "http://localhost:8081";
  broadcaster = λ w. record {
    broadcast_list = [];
    broadcast_registry = record { lookup = []; table = [] };
    broadcast_versions = [];
    change_count = 0;
  };
  endpoint_url = codes "http://localhost:8082";
  parse_url = λ t. some t;
  join_url = λ root path. some path;
  as_bytes = to_string;
  decode_base64 = λ t. some t;
  sha256 = λ t. some t;
  encrypt = λ t w. (t, w);
  http_put = λ url w. (true, w);
  rotating_message_table = none;
  add_user = λ user w. (ok tt, w);
  update_user = λ user w. (ok (true, user), w);
  get_user = λ uaid w. (ok none, w);
  remove_user = λ uaid w. (ok tt, w);
  add_channel = λ uaid channel_id w. (ok tt, w);
  remove_channel = λ uaid channel_id w. (ok true, w);
  save_messages = λ uaid ms w. (ok tt, record w { saved = w.saved ++ ms });
  fetch_topic_messages = λ uaid limit w. (ok (first_topic uaid w.topics), w);
  fetch_timestamp_messages = λ uaid p limit w. (ok (next_stamped w.last p), w);
  increment_storage = λ uaid timestamp w. (ok tt, w);
  remove_message = λ uaid key w. (ok tt, record w { topics = drop_key uaid key w.topics });
}

drop_key-length :
    (uaid : ℕ) (key : Text) (ns : List (ℕ × Text))
    → (length (keys_at uaid (drop_key uaid key ns)) ≤ length (keys_at uaid ns))
      × (contains (keys_at uaid ns) key ≡ true
          → length (keys_at uaid (drop_key uaid key ns)) < length (keys_at uaid ns))
unfolding contains
drop_key-length uaid key [] = (omega arith, λ h. absurd (cc))
drop_key-length uaid key ((u, n) ∷ ns) =
    let (le, lt) = drop_key-length uaid key ns in (ground (arith, le), λ h. ground (arith, le, lt))

module _ {A : Type 0} (a b : A) (w w' : Memory)
    (h : ◌≡◌ {A = Result DbError A × Memory} (ok a, w) (ok b, w')) where
  reply_parts : (a ≡ b) × (w ≡ w')
  reply_parts = (ground arith, ground arith)

abbrev IsStored : List Text → Notification → Type 0
IsStored keys m =
    (m.sortkey_timestamp ≡ none) × (contains keys (chidmessageid to_string 0 m) ≡ true)

first_topic-All :
    (uaid : ℕ) (topics : List (ℕ × Text))
    → All (IsStored (keys_at uaid topics)) (first_topic uaid topics).messages
unfolding contains
first_topic-All uaid [] = tt
first_topic-All uaid ((u, n) ∷ ns) = elim (Bool-cases (u == uaid)) [
  | inl e ↦ rw e ((refl, ground (arith, text_eq_refl (key_of n))), tt)
  | inr e ↦ rw e (first_topic-All uaid ns)
]

pub memory-IsDrainable : IsDrainable memory
memory-IsDrainable = record {
  topic_keys = λ w uaid. keys_at uaid w.topics;
  pending = λ w uaid p. w.last - position p;
  pending_all = λ w uaid p. omega arith;
  clock = λ w uaid p. (refl, refl);
  fetch_topic = λ uaid limit w w' r h.
      let (reply, same) = reply_parts (first_topic uaid w.topics) r w w' h in
      (
        ap (λ (x : Memory). keys_at uaid x.topics) (sym same),
        λ p. ap (λ (x : Memory). x.last - position p) (sym same),
        subst (λ (x : FetchMessageResponse). All (IsStored (keys_at uaid w.topics)) x.messages)
            reply (first_topic-All uaid w.topics),
      );
  fetch_timestamp = λ uaid limit p w w' r h found.
      let (reply, same) = reply_parts (next_stamped w.last p) r w w' h in
      (position p + 1, ground arith, ground arith);
  remove = λ uaid key w w' h.
      let (_, same) = reply_parts tt tt (record w { topics = drop_key uaid key w.topics }) w' h in
      let (le, lt) = drop_key-length uaid key w.topics in
      (ground (arith, le), λ stored. ground (arith, lt stored), λ p. ground arith);
}

-- What is left to read there.
pub memory_keys :
    (w : Memory) (uaid : ℕ) → memory-IsDrainable.topic_keys w uaid ≡ keys_at uaid w.topics
unfolding memory-IsDrainable
memory_keys w uaid = refl

pub memory_pending :
    (w : Memory) (uaid : ℕ) (p : Option ℕ)
    → memory-IsDrainable.pending w uaid p ≡ w.last - position p
unfolding memory-IsDrainable
memory_pending w uaid p = refl
