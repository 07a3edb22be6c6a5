-- ===== src/Broadcast/Invariant.antt =====
-- What holds of a tracker between two calls.
use autopush_rs.Prelude.{
  ℕ, ◌+◌, ◌%◌, ◌^◌, ◌≤◌, ◌<◌, ◌≡◌, true, none, some, [], ◌∷◌, arith, Text, length, get, insert,
  get-insert, nat_eq, text_key, text_eq, add32, Option-cases, inl, inr, is_some, if◌then◌else◌,
  get_elem?-lt, length-append, text_eq_iff,
}
use autopush_rs.Broadcast.Registry.{
  BroadcastRegistry, IsConsistent, new-IsConsistent, add_broadcast-IsConsistent, lookup_key,
}
use autopush_rs.Broadcast.Registry
use autopush_rs.Broadcast.Tracker.{
  BroadcastChangeTracker, Broadcast, update_broadcast, touch, push_broadcast, add_broadcast,
}
use autopush_rs.Broadcast.Revisions.{
  Ascending, times, Ascending-push, touch-Ascending, times-touch, times-push,
}

pub record IsValid (t : BroadcastChangeTracker) : Type 0 where
  pub registry : IsConsistent t.broadcast_registry
  pub versioned :
      (id : Text) (key : ℕ)
      → get id t.broadcast_registry.lookup ≡ some key
      → is_some (get key t.broadcast_versions) ≡ true
  pub ascending : Ascending 0 t.change_count t.broadcast_list
  pub once : (key : ℕ) → times key t.broadcast_list ≤ 1
  pub registered :
      (key : ℕ) → 0 < times key t.broadcast_list → key < length t.broadcast_registry.table

-- The registry after a registration: what was there stays, and the table grows by one at most.
module _ (r : BroadcastRegistry) (id : Text) (small : length r.table < 2 ^ 32) where
  pub lookup-add_broadcast :
      (j : Text)
      → get j (Registry.add_broadcast r id).0.lookup
        ≡ (if text_eq id j then some (Registry.add_broadcast r id).1 else get j r.lookup)
  unfolding Registry.add_broadcast
  lookup-add_broadcast j =
      ground (arith, text_eq_iff id j, get-insert id j (length r.table % 2 ^ 32) r.lookup)

  pub length-add_broadcast :
      (length r.table ≤ length (Registry.add_broadcast r id).0.table)
      × (length (Registry.add_broadcast r id).0.table ≤ length r.table + 1)
  unfolding Registry.add_broadcast
  length-add_broadcast = ground (arith, length-append r.table (id ∷ []))

-- The tracker after a new version of a known key.
abbrev pub updated : BroadcastChangeTracker → ℕ → Text → BroadcastChangeTracker
updated t key version = record t {
  broadcast_versions = insert key version t.broadcast_versions;
  broadcast_list = touch key (add32 t.change_count 1) t.broadcast_list;
  change_count = add32 t.change_count 1;
}

updated-IsValid :
    (t : BroadcastChangeTracker) (key : ℕ) (version : Text)
    → IsValid t
    → key < length t.broadcast_registry.table
    → t.change_count + 1 < 2 ^ 32
    → IsValid (updated t key version)
updated-IsValid t key version v low small =
    let next : add32 t.change_count 1 ≡ t.change_count + 1 = omega arith in
    rw next (record {
      registry = v.registry;
      versioned = λ id k h.
          ground (arith, get-insert key k version t.broadcast_versions, v.versioned id k h);
      ascending = touch-Ascending 0 t.change_count key t.broadcast_list v.ascending;
      once = λ k.
          ground
            (arith, times-touch k key (t.change_count + 1) t.broadcast_list (v.once k), v.once k);
      registered = λ k h. ground (
        arith,
        times-touch k key (t.change_count + 1) t.broadcast_list (v.once k),
        v.registered k,
      );
    })

-- An update keeps the invariant while the count is below its last value.
pub update_broadcast-IsValid :
    (t t' : BroadcastChangeTracker) (b : Broadcast) (n : ℕ)
    → IsValid t
    → t.change_count + 1 < 2 ^ 32
    → update_broadcast t b ≡ some (t', n)
    → IsValid t'
unfolding update_broadcast lookup_key
update_broadcast-IsValid t t' b n v small h =
    elim (Option-cases (get b.broadcast_id t.broadcast_registry.lookup)) [
      | inl e ↦ absurd (ground arith)
      | inr (key, e) ↦ elim (Option-cases (get key t.broadcast_versions)) [
        | inl f ↦ absurd (ground arith)
        | inr (ver, f) ↦
            let low : key < length t.broadcast_registry.table =
              get_elem?-lt t.broadcast_registry.table key
                (v.registry.keys_listed b.broadcast_id key e) in
            ground (arith, updated-IsValid t key b.version v low small)
      ]
    ]

-- An update fails only for a name that was never registered.
pub update_broadcast-eq-none :
    (t : BroadcastChangeTracker) (b : Broadcast)
    → IsValid t
    → update_broadcast t b ≡ none
    → get b.broadcast_id t.broadcast_registry.lookup ≡ none
unfolding update_broadcast lookup_key
update_broadcast-eq-none t b v h =
    elim (Option-cases (get b.broadcast_id t.broadcast_registry.lookup)) [
      | inl e ↦ e
      | inr (key, e) ↦ ground (arith, v.versioned b.broadcast_id key e)
    ]

module _ (t : BroadcastChangeTracker) (b : Broadcast) (v : IsValid t)
    (fresh : get b.broadcast_id t.broadcast_registry.lookup ≡ none)
    (small : length t.broadcast_registry.table < 2 ^ 32) (low : t.change_count + 1 < 2 ^ 32) where
  registered_key :
      ((Registry.add_broadcast t.broadcast_registry b.broadcast_id).1
        ≡ length t.broadcast_registry.table)
      × (length (Registry.add_broadcast t.broadcast_registry b.broadcast_id).0.table
          ≡ length t.broadcast_registry.table + 1)
  unfolding Registry.add_broadcast
  registered_key = ground (arith, length-append t.broadcast_registry.table (b.broadcast_id ∷ []))

  pub push_broadcast-IsValid : IsValid (push_broadcast t b).0
  unfolding push_broadcast
  push_broadcast-IsValid =
      let next : add32 t.change_count 1 ≡ t.change_count + 1 = omega arith in
      let (key, size) = registered_key in
      rw (next, key)
        (record {
          registry =
              (add_broadcast-IsConsistent t.broadcast_registry b.broadcast_id v.registry small).0;
          versioned = λ id k h. ground (
            arith,
            key,
            lookup-add_broadcast t.broadcast_registry b.broadcast_id small id,
            get-insert (length t.broadcast_registry.table) k b.version t.broadcast_versions,
            v.versioned id k,
          );
          ascending =
              Ascending-push 0 t.change_count (length t.broadcast_registry.table) t.broadcast_list
                v.ascending;
          once = λ k. ground (
            arith,
            times-push k (length t.broadcast_registry.table) (t.change_count + 1) t.broadcast_list,
            v.once k,
            v.registered k,
          );
          registered = λ k h. ground (
            arith,
            size,
            times-push k (length t.broadcast_registry.table) (t.change_count + 1) t.broadcast_list,
            v.registered k,
          );
        })

-- Adding a broadcast, known or new, keeps the invariant while a `u32` has room for the next count
-- and the next key.
pub add_broadcast-IsValid :
    (t : BroadcastChangeTracker) (b : Broadcast)
    → IsValid t
    → length t.broadcast_registry.table < 2 ^ 32
    → t.change_count + 1 < 2 ^ 32
    → IsValid (add_broadcast t b).0
unfolding add_broadcast
add_broadcast-IsValid t b v small low = elim (Option-cases (update_broadcast t b)) [
  | inl e ↦
      rw (e, add_broadcast)
        (push_broadcast-IsValid t b v (update_broadcast-eq-none t b v e) small low)
  | inr ((t', n), e) ↦ rw (e, add_broadcast) (update_broadcast-IsValid t t' b n v low e)
]
