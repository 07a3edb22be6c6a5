-- ===== src/Tests/Broadcasts.antt =====
-- A tracker with two broadcasts, of which one has changed.
use autopush_rs.Prelude.{
  ℕ, ◌≡◌, refl, Option, none, some, [], ◌∷◌, codes, arith, get, insert, contains, text_eq, text_key,
  retain,
}
use mathlib.Core.List.{reverse}
use autopush_rs.Broadcast.Registry
use autopush_rs.Broadcast.Registry.{
  BroadcastRegistry, IsConsistent, new-IsConsistent, add_broadcast-IsConsistent, lookup_key,
  lookup_id,
}
use autopush_rs.Broadcast.Tracker.{
  BroadcastChangeTracker, Broadcast, BroadcastSubs, load, new, update_broadcast, push_broadcast,
  add_broadcast, touch, drop_first, change_count_delta, then_some,
}
use autopush_rs.Broadcast.Invariant.{IsValid, add_broadcast-IsValid}
use autopush_rs.Broadcast.Load.{new-IsValid}
use autopush_rs.Broadcast.Delta.{
  is_news, describe_all, change_count_delta-news, change_count_delta_twice, update_broadcast-delta,
}

program : Unit {0}
unfolding Registry.new Registry.add_broadcast lookup_key lookup_id load new update_broadcast
    push_broadcast add_broadcast touch drop_first get insert contains text_eq
program = tt

abbrev old_version : Broadcast
old_version = record { broadcast_id = codes "kinto"; version = codes "v1" }

abbrev new_version : Broadcast
new_version = record { broadcast_id = codes "kinto"; version = codes "v2" }

abbrev other : Broadcast
other = record { broadcast_id = codes "qux"; version = codes "w1" }

tracker : BroadcastChangeTracker
tracker = new (old_version ∷ other ∷ [])

-- A client that is subscribed to the first broadcast and has seen everything.
abbrev subscriber : BroadcastSubs
subscriber = record { broadcast_list = 0 ∷ []; change_count = 0 }

tracker-IsValid : IsValid tracker
unfolding tracker
tracker-IsValid = new-IsValid (old_version ∷ other ∷ []) (omega arith)

new-IsValid_example : IsValid (new (old_version ∷ other ∷ []))
new-IsValid_example = new-IsValid (old_version ∷ other ∷ []) (omega arith)

add_broadcast-IsValid_example : IsValid (add_broadcast tracker new_version).0
unfolding tracker program
add_broadcast-IsValid_example =
    add_broadcast-IsValid tracker new_version tracker-IsValid (omega arith) (omega arith)

add_broadcast-IsConsistent_example :
    IsConsistent (Registry.add_broadcast Registry.new (codes "kinto")).0
    × (lookup_key (Registry.add_broadcast Registry.new (codes "kinto")).0 (codes "kinto") ≡ some 0)
    × (lookup_id (Registry.add_broadcast Registry.new (codes "kinto")).0 0 ≡ some (codes "kinto"))
unfolding program
add_broadcast-IsConsistent_example =
    add_broadcast-IsConsistent Registry.new (codes "kinto") new-IsConsistent (omega arith)

change_count_delta-news_example :
    (change_count_delta tracker subscriber).1
    ≡ then_some
        (describe_all tracker (retain (is_news subscriber) (reverse tracker.broadcast_list)))
change_count_delta-news_example = change_count_delta-news tracker subscriber tracker-IsValid

change_count_delta_twice_example :
    (change_count_delta tracker (change_count_delta tracker subscriber).0).1 ≡ none
change_count_delta_twice_example = change_count_delta_twice tracker subscriber

abbrev is_update : Option (BroadcastChangeTracker × ℕ) → BroadcastChangeTracker
is_update none = tracker
is_update (some (t, n)) = t

update_broadcast-delta_example :
    (change_count_delta (is_update (update_broadcast tracker new_version)) subscriber).1
    ≡ some (new_version ∷ [])
unfolding tracker program
update_broadcast-delta_example =
    update_broadcast-delta tracker (is_update (update_broadcast tracker new_version)) new_version
      subscriber 0 1 tracker-IsValid (omega arith) refl refl (omega arith) refl refl
