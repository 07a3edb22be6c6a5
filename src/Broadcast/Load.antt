-- ===== src/Broadcast/Load.antt =====
-- A tracker at the start, and after any number of additions.
use autopush_rs.Prelude.{
  ◌+◌, ◌^◌, ◌≤◌, ◌<◌, List, [], ◌∷◌, arith, length, get, insert, get-insert, nat_eq, text_key,
}
use autopush_rs.Broadcast.Registry.{
  BroadcastRegistry, new-IsConsistent, add_broadcast-IsConsistent, lookup_key,
}
use autopush_rs.Broadcast.Registry
use autopush_rs.Broadcast.Tracker.{BroadcastChangeTracker, Broadcast, load, new}
use autopush_rs.Broadcast.Invariant.{IsValid, lookup-add_broadcast, length-add_broadcast}

-- One round of the loop of `new`.
abbrev loaded : BroadcastChangeTracker → Broadcast → BroadcastChangeTracker
loaded t b = record t {
  broadcast_registry = (Registry.add_broadcast t.broadcast_registry b.broadcast_id).0;
  broadcast_versions =
      insert (Registry.add_broadcast t.broadcast_registry b.broadcast_id).1 b.version
        t.broadcast_versions;
}

loaded-IsValid :
    (t : BroadcastChangeTracker) (b : Broadcast)
    → IsValid t
    → length t.broadcast_registry.table < 2 ^ 32
    → IsValid (loaded t b)
loaded-IsValid t b v small =
    let r = t.broadcast_registry in
    let id = b.broadcast_id in
    record {
      registry = (add_broadcast-IsConsistent r id v.registry small).0;
      versioned = λ j k h. ground (
        arith,
        lookup-add_broadcast r id small j,
        get-insert (Registry.add_broadcast r id).1 k b.version t.broadcast_versions,
        v.versioned j k,
      );
      ascending = v.ascending;
      once = v.once;
      registered = λ k h. ground (arith, v.registered k h, length-add_broadcast r id small);
    }

load-IsValid :
    (t : BroadcastChangeTracker) (bs : List Broadcast)
    → IsValid t
    → length t.broadcast_registry.table + length bs ≤ 2 ^ 32
    → IsValid (load t bs)
unfolding load
load-IsValid t [] v small = v
load-IsValid t (b ∷ bs) v small =
    let low : length t.broadcast_registry.table < 2 ^ 32 = omega arith in
    let grown = length-add_broadcast t.broadcast_registry b.broadcast_id low in
    load-IsValid (loaded t b) bs (loaded-IsValid t b v low) (omega (arith, grown))

-- A tracker made from at most `2 ^ 32` broadcasts satisfies the invariant.
pub new-IsValid : (bs : List Broadcast) → length bs ≤ 2 ^ 32 → IsValid (new bs)
unfolding new get
new-IsValid bs small =
    load-IsValid _ bs
      (record {
        registry = new-IsConsistent;
        versioned = λ id key h. absurd (cc);
        ascending = omega arith;
        once = λ key. omega arith;
        registered = λ key h. absurd (omega arith);
      })
      (omega arith)
