-- ===== src/Broadcast/Delta.antt =====
-- What a client is told of the revisions that it has not seen.
use mathlib.Core.List.{reverse, reverse-append, reverse-cons}
use autopush_rs.Prelude.{
  ℕ, ◌+◌, ◌^◌, ◌≤◌, ◌<◌, ◌≡◌, refl, Bool, true, ◌&&◌, none, some, List, [], ◌∷◌, ◌++◌, arith, ltb,
  contains, nat_eq, text_key, retain, get, get-insert, inl, inr, Option-cases, ◌≢◌, ap, ◌∙◌,
}
use autopush_rs.Broadcast.Registry.{lookup_id, lookup_key}
use autopush_rs.Broadcast.Tracker.{
  BroadcastChangeTracker, BroadcastSubs, BroadcastRevision, Broadcast, describe, delta_from,
  change_count_delta, update_broadcast, then_some, touch, drop_first,
}
use autopush_rs.Broadcast.Revisions.{Ascending, drop_first-Ascending}
use autopush_rs.Broadcast.Invariant.{IsValid, updated}

-- The revisions that a client has not seen and is subscribed to, and what it is told of them.
abbrev pub is_news : BroadcastSubs → BroadcastRevision → Bool
is_news subs r = ltb subs.change_count r.change_count && contains subs.broadcast_list r.broadcast

abbrev pub describe_all : BroadcastChangeTracker → List BroadcastRevision → List Broadcast
describe_all t [] = []
describe_all t (r ∷ rs) = describe t r.broadcast ++ describe_all t rs

-- Counts fall from `hi` at most, and stay above `lo`: a reversed list of revisions.
abbrev Between : ℕ → ℕ → List BroadcastRevision → Type 0
Between hi lo [] = lo ≤ hi
Between hi lo (r ∷ rs) = (r.change_count ≤ hi) × Between r.change_count lo rs

Between-raise :
    (hi hi' lo : ℕ) (rs : List BroadcastRevision) → hi ≤ hi' → Between hi lo rs → Between hi' lo rs
Between-raise hi hi' lo [] le h = omega arith
Between-raise hi hi' lo (r ∷ rs) le h = (omega arith, h.1)

Between-push :
    (hi lo : ℕ) (xs : List BroadcastRevision) (r : BroadcastRevision)
    → Between hi r.change_count xs
    → lo ≤ r.change_count
    → Between hi lo (xs ++ r ∷ [])
Between-push hi lo [] r h le = omega arith
Between-push hi lo (x ∷ xs) r h le = (h.0, Between-push x.change_count lo xs r h.1 le)

Between-reverse :
    (lo hi : ℕ) (rs : List BroadcastRevision) → Ascending lo hi rs → Between hi lo (reverse rs)
Between-reverse lo hi [] h = h
Between-reverse lo hi (r ∷ rs) h =
    rw (reverse-cons r rs)
      (Between-push hi lo (reverse rs) r (Between-reverse r.change_count hi rs h.1) (omega arith))

-- Nothing is news in a list that the client has seen.
news-nil :
    (subs : BroadcastSubs) (hi lo : ℕ) (rs : List BroadcastRevision)
    → hi ≤ subs.change_count
    → Between hi lo rs
    → retain (is_news subs) rs ≡ []
news-nil subs hi lo [] le h = refl
news-nil subs hi lo (r ∷ rs) le h = ground (arith, news-nil subs r.change_count lo rs)

-- The loop that breaks is the filter that goes through the whole list.
delta_from-news :
    (t : BroadcastChangeTracker) (subs : BroadcastSubs) (hi lo : ℕ) (rs : List BroadcastRevision)
    → Between hi lo rs
    → delta_from t subs rs ≡ describe_all t (retain (is_news subs) rs)
unfolding delta_from
delta_from-news t subs hi lo [] h = refl
delta_from-news t subs hi lo (r ∷ rs) h =
    ground
      (arith, delta_from-news t subs r.change_count lo rs h.1, news-nil subs r.change_count lo rs)

-- A tracker that satisfies the invariant tells a client of exactly the revisions that are newer
-- than its count and that it is subscribed to, newest first, or of nothing if there is none.
pub change_count_delta-news :
    (t : BroadcastChangeTracker) (subs : BroadcastSubs)
    → IsValid t
    → (change_count_delta t subs).1
      ≡ then_some (describe_all t (retain (is_news subs) (reverse t.broadcast_list)))
unfolding change_count_delta
change_count_delta-news t subs v =
    let order = Between-reverse 0 t.change_count t.broadcast_list v.ascending in
    ground (
      arith,
      delta_from-news t subs t.change_count 0 (reverse t.broadcast_list) order,
      news-nil subs t.change_count 0 (reverse t.broadcast_list),
    )

-- A delta brings the client up to date: a second one right after it is empty.
pub change_count_delta_twice :
    (t : BroadcastChangeTracker) (subs : BroadcastSubs)
    → (change_count_delta t (change_count_delta t subs).0).1 ≡ none
unfolding change_count_delta
change_count_delta_twice t subs = ground arith

-- What an up-to-date subscriber is told after an update that changes a version.
module _ (t : BroadcastChangeTracker) (b : Broadcast) (subs : BroadcastSubs) (key : ℕ)
    (v : IsValid t) (small : t.change_count + 1 < 2 ^ 32)
    (known : lookup_key t.broadcast_registry b.broadcast_id ≡ some key)
    (current : subs.change_count ≡ t.change_count)
    (subscribed : contains subs.broadcast_list key ≡ true) where
  describe-updated : describe (updated t key b.version) key ≡ b ∷ []
  unfolding describe lookup_key lookup_id
  describe-updated = ground (
    arith,
    get-insert key key b.version t.broadcast_versions,
    v.registry.keys_listed b.broadcast_id key,
  )

  seen-nil :
      delta_from (updated t key b.version) subs (reverse (drop_first key t.broadcast_list)) ≡ []
  seen-nil =
      let order =
        Between-reverse 0 t.change_count (drop_first key t.broadcast_list)
          (drop_first-Ascending 0 t.change_count key t.broadcast_list v.ascending) in
      delta_from-news (updated t key b.version) subs t.change_count 0 _ order
      ∙ ap (describe_all (updated t key b.version))
          (news-nil subs t.change_count 0 _ (omega arith) order)

  pub updated-delta : (change_count_delta (updated t key b.version) subs).1 ≡ some (b ∷ [])
  unfolding change_count_delta touch delta_from
  updated-delta =
      rw (reverse-append (drop_first key t.broadcast_list))
        (ground (arith, describe-updated, seen-nil))

-- While a `u32` has room for the next count, an update that changes the version of a known
-- broadcast tells an up-to-date subscriber of that broadcast, in its new version, and of nothing
-- else.
pub update_broadcast-delta :
    (t t' : BroadcastChangeTracker) (b : Broadcast) (subs : BroadcastSubs) (key n : ℕ)
    → IsValid t
    → t.change_count + 1 < 2 ^ 32
    → lookup_key t.broadcast_registry b.broadcast_id ≡ some key
    → update_broadcast t b ≡ some (t', n)
    → n ≢ t.change_count
    → subs.change_count ≡ t.change_count
    → contains subs.broadcast_list key ≡ true
    → (change_count_delta t' subs).1 ≡ some (b ∷ [])
unfolding update_broadcast
update_broadcast-delta t t' b subs key n v small known h changed current subscribed =
    elim (Option-cases (get key t.broadcast_versions)) [
      | inl f ↦ absurd (ground arith)
      | inr (ver, f) ↦ ground (arith, updated-delta t b subs key v small known current subscribed)
    ]
