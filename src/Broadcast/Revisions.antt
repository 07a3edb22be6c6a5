-- ===== src/Broadcast/Revisions.antt =====
-- The list of revisions: strictly ascending counts, and each key once.
use autopush_rs.Prelude.{
  ℕ, ◌+◌, ◌≤◌, ◌<◌, ◌≡◌, List, [], ◌∷◌, ◌++◌, arith, ◌==◌, if◌then◌else◌, nat_eq, count_if,
  count_if-append,
}
use autopush_rs.Broadcast.Tracker.{BroadcastRevision, drop_first, touch}

-- Counts rise strictly from above `lo` and end at `hi` at most.
abbrev pub Ascending : ℕ → ℕ → List BroadcastRevision → Type 0
Ascending lo hi [] = lo ≤ hi
Ascending lo hi (r ∷ rs) = (lo < r.change_count) × Ascending r.change_count hi rs

-- How often a key stands in the list.
abbrev pub times : ℕ → List BroadcastRevision → ℕ
times key = count_if (λ r. r.broadcast == key)

pub Ascending-le : (lo hi : ℕ) (rs : List BroadcastRevision) → Ascending lo hi rs → lo ≤ hi
Ascending-le lo hi [] h = h
Ascending-le lo hi (r ∷ rs) h = omega (arith, Ascending-le r.change_count hi rs h.1)

pub Ascending-lower :
    (lo lo' hi : ℕ) (rs : List BroadcastRevision)
    → lo' ≤ lo
    → Ascending lo hi rs
    → Ascending lo' hi rs
Ascending-lower lo lo' hi [] le h = omega arith
Ascending-lower lo lo' hi (r ∷ rs) le h = (omega arith, h.1)

pub Ascending-push :
    (lo hi key : ℕ) (rs : List BroadcastRevision)
    → Ascending lo hi rs
    → Ascending lo (hi + 1) (rs ++ record { change_count = hi + 1; broadcast = key } ∷ [])
Ascending-push lo hi key [] h = omega arith
Ascending-push lo hi key (r ∷ rs) h = (h.0, Ascending-push r.change_count hi key rs h.1)

pub drop_first-Ascending :
    (lo hi key : ℕ) (rs : List BroadcastRevision)
    → Ascending lo hi rs
    → Ascending lo hi (drop_first key rs)
unfolding drop_first
drop_first-Ascending lo hi key [] h = h
drop_first-Ascending lo hi key (r ∷ rs) h = ground (
  arith,
  drop_first-Ascending r.change_count hi key rs h.1,
  Ascending-lower r.change_count lo hi rs,
)

pub touch-Ascending :
    (lo hi key : ℕ) (rs : List BroadcastRevision)
    → Ascending lo hi rs
    → Ascending lo (hi + 1) (touch key (hi + 1) rs)
unfolding touch
touch-Ascending lo hi key rs h =
    Ascending-push lo hi key (drop_first key rs) (drop_first-Ascending lo hi key rs h)

times-drop_first :
    (k key : ℕ) (rs : List BroadcastRevision)
    → times k rs ≤ 1
    → times k (drop_first key rs) ≡ (if key == k then 0 else times k rs)
unfolding drop_first
times-drop_first k key [] h = ground arith
times-drop_first k key (r ∷ rs) h = ground (arith, times-drop_first k key rs)

pub times-touch :
    (k key count : ℕ) (rs : List BroadcastRevision)
    → times k rs ≤ 1
    → times k (touch key count rs) ≡ (if key == k then 1 else times k rs)
unfolding touch
times-touch k key count rs h =
    rw (count_if-append (λ r. r.broadcast == k) (drop_first key rs))
      (ground (arith, times-drop_first k key rs h))

pub times-push :
    (k key count : ℕ) (rs : List BroadcastRevision)
    → times k (rs ++ record { change_count = count; broadcast = key } ∷ [])
      ≡ (if key == k then times k rs + 1 else times k rs)
times-push k key count rs = rw (count_if-append (λ r. r.broadcast == k) rs) (ground arith)
