-- ===== src/Broadcast/Tracker.antt =====
-- `BroadcastChangeTracker`: one function for each method, a client's subscriptions as an argument.
use autopush_rs.Prelude.{
  ℕ, Option, none, some, List, [], ◌∷◌, ◌++◌, Text, leb, ◌==◌, is_empty, if◌then◌else◌, get, insert,
  contains, text_eq, add32, nat_eq, retain, codes, map, is_none,
}
use mathlib.Core.List.{reverse}
use autopush_rs.Broadcast.Registry.{BroadcastRegistry, lookup_id, lookup_key}
use autopush_rs.Broadcast.Registry

pub record BroadcastSubs : Type 0 where
  pub broadcast_list : List ℕ
  pub change_count : ℕ

pub record BroadcastRevision : Type 0 where
  pub change_count : ℕ
  pub broadcast : ℕ

pub record Broadcast : Type 0 where
  pub broadcast_id : Text
  pub version : Text

pub record BroadcastChangeTracker : Type 0 where
  pub broadcast_list : List BroadcastRevision
  pub broadcast_registry : BroadcastRegistry
  pub broadcast_versions : List (ℕ × Text)
  pub change_count : ℕ

unfoldable pub error : Broadcast → Broadcast
error b = record b { version = codes "Broadcast not found" }

-- The loop of `new` over the initial broadcasts.
unfoldable pub load : BroadcastChangeTracker → List Broadcast → BroadcastChangeTracker
load t [] = t
load t (srv ∷ rest) =
    let (registry, key) = Registry.add_broadcast t.broadcast_registry srv.broadcast_id in
    load
      (record t {
        broadcast_registry = registry;
        broadcast_versions = insert key srv.version t.broadcast_versions;
      })
      rest

unfoldable pub new : List Broadcast → BroadcastChangeTracker
unfolding Registry.new
new broadcasts =
    load
      (record {
        broadcast_list = [];
        broadcast_registry = Registry.new;
        broadcast_versions = [];
        change_count = 0;
      })
      broadcasts

-- `bcast_index`, `remove` and `push` of `update_broadcast`: the first revision of the key leaves the
-- list, and the key goes to the end with the new count.
unfoldable pub drop_first : ℕ → List BroadcastRevision → List BroadcastRevision
drop_first key [] = []
drop_first key (r ∷ rs) =
    let rest = drop_first key rs in if r.broadcast == key then rs else r ∷ rest

unfoldable pub touch : ℕ → ℕ → List BroadcastRevision → List BroadcastRevision
unfolding drop_first
touch key count rs = drop_first key rs ++ record { change_count = count; broadcast = key } ∷ []

-- `none` is `Err(BroadcastError("Broadcast not found"))`.
unfoldable pub update_broadcast :
    BroadcastChangeTracker → Broadcast → Option (BroadcastChangeTracker × ℕ)
unfolding lookup_key touch
update_broadcast t b = elim (lookup_key t.broadcast_registry b.broadcast_id) [
  | none ↦ none
  | some key ↦ elim (get key t.broadcast_versions) [
    | none ↦ none
    | some ver ↦
        if text_eq ver b.version
        then some (t, t.change_count)
        else some (
          record t {
            broadcast_versions = insert key b.version t.broadcast_versions;
            broadcast_list = touch key (add32 t.change_count 1) t.broadcast_list;
            change_count = add32 t.change_count 1;
          },
          add32 t.change_count 1,
        )
  ]
]

-- The rest of `add_broadcast`, for a broadcast that is new.
unfoldable pub push_broadcast : BroadcastChangeTracker → Broadcast → BroadcastChangeTracker × ℕ
push_broadcast t b =
    let count = add32 t.change_count 1 in
    let (registry, key) = Registry.add_broadcast t.broadcast_registry b.broadcast_id in
    (
      record {
        broadcast_list = t.broadcast_list ++ record { change_count = count; broadcast = key } ∷ [];
        broadcast_registry = registry;
        broadcast_versions = insert key b.version t.broadcast_versions;
        change_count = count;
      },
      count,
    )

unfoldable pub add_broadcast : BroadcastChangeTracker → Broadcast → BroadcastChangeTracker × ℕ
unfolding update_broadcast push_broadcast
add_broadcast t b = elim (update_broadcast t b) [ some r ↦ r | none ↦ push_broadcast t b ]

unfoldable pub add_broadcasts_from :
    BroadcastChangeTracker → Option ℕ → List Broadcast → BroadcastChangeTracker × Option ℕ
unfolding add_broadcast
add_broadcasts_from t count [] = (t, count)
add_broadcasts_from t count (b ∷ bs) =
    let (t', n) = add_broadcast t b in add_broadcasts_from t' (some n) bs

unfoldable pub add_broadcasts :
    BroadcastChangeTracker → List Broadcast → BroadcastChangeTracker × Option ℕ
unfolding add_broadcasts_from
add_broadcasts t bs = add_broadcasts_from t none bs

-- A key with its name and version as a `Broadcast`, where both are known.
unfoldable pub describe : BroadcastChangeTracker → ℕ → List Broadcast
unfolding lookup_id
describe t key = elim (get key t.broadcast_versions) [
  | none ↦ []
  | some ver ↦ elim (lookup_id t.broadcast_registry key) [
    | none ↦ []
    | some id ↦ record { broadcast_id = id; version = ver } ∷ []
  ]
]

-- The loop of `change_count_delta` over the revisions, newest first: it breaks at the first one that
-- the client has seen, and skips what the client is not subscribed to.
unfoldable pub delta_from :
    BroadcastChangeTracker → BroadcastSubs → List BroadcastRevision → List Broadcast
unfolding describe
delta_from t client_set [] = []
delta_from t client_set (r ∷ rs) =
    let rest = delta_from t client_set rs in
    if leb r.change_count client_set.change_count
    then []
    else if contains client_set.broadcast_list r.broadcast
    then describe t r.broadcast ++ rest
    else rest

-- `unwrap_or_default`, and `(!list.is_empty()).then_some(list)`.
abbrev pub or_default : Option (List Broadcast) → List Broadcast
or_default none = []
or_default (some bs) = bs

abbrev pub then_some : List Broadcast → Option (List Broadcast)
then_some bs = if is_empty bs then none else some bs

unfoldable pub change_count_delta :
    BroadcastChangeTracker → BroadcastSubs → BroadcastSubs × Option (List Broadcast)
unfolding delta_from
change_count_delta t client_set =
    if leb t.change_count client_set.change_count then (client_set, none) else (
      record client_set { change_count = t.change_count },
      then_some (delta_from t client_set (reverse t.broadcast_list)),
    )

-- The test of `broadcast_delta` and `subscribe_to_broadcasts`: the server's version, if it differs.
unfoldable pub outdated : BroadcastChangeTracker → ℕ → Broadcast → List Broadcast
outdated t key b = elim (get key t.broadcast_versions) [
  | none ↦ []
  | some ver ↦ if text_eq ver b.version then [] else record b { version = ver } ∷ []
]

-- The keys and the outdated ones of the broadcasts that are known.
unfoldable pub known : BroadcastChangeTracker → List Broadcast → List ℕ × List Broadcast
unfolding lookup_key outdated
known t [] = ([], [])
known t (b ∷ bs) =
    let rest = known t bs in
    elim (lookup_key t.broadcast_registry b.broadcast_id) [
      | none ↦ rest
      | some key ↦ (key ∷ rest.0, outdated t key b ++ rest.1)
    ]

unfoldable pub broadcast_delta :
    BroadcastChangeTracker → List Broadcast → BroadcastSubs × List Broadcast
unfolding known
broadcast_delta t bs =
    (record { broadcast_list = (known t bs).0; change_count = t.change_count }, (known t bs).1)

unfoldable pub subscribe_to_broadcasts :
    BroadcastChangeTracker
    → BroadcastSubs
    → List Broadcast
    → BroadcastSubs × Option (List Broadcast)
unfolding change_count_delta known
subscribe_to_broadcasts t subs bs =
    let (subs', delta) = change_count_delta t subs in
    (
      record subs' { broadcast_list = subs'.broadcast_list ++ (known t bs).0 },
      then_some (or_default delta ++ (known t bs).1),
    )

unfoldable pub missing_broadcasts : BroadcastChangeTracker → List Broadcast → List Broadcast
unfolding lookup_key error
missing_broadcasts t bs =
    map error (retain (λ b. is_none (lookup_key t.broadcast_registry b.broadcast_id)) bs)
