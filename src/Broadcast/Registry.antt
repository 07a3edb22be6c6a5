-- ===== src/Broadcast/Registry.antt =====
-- `BroadcastRegistry`: names of broadcasts against the keys that stand for them.
use autopush_rs.Prelude.{
  ℕ, ◌%◌, ◌^◌, ◌<◌, ◌≡◌, Option, none, some, List, [], ◌∷◌, ◌++◌, arith, Text, length, get_elem?,
  get, insert, get-insert, text_eq_iff, text_key, get_elem?-append, get_elem?-append_left,
  get_elem?-append_cases, Option-cases, inl, inr,
}

pub record BroadcastRegistry : Type 0 where
  pub lookup : List (Text × ℕ)
  pub table : List Text

unfoldable pub new : BroadcastRegistry
new = record { lookup = []; table = [] }

-- The key for a table of the given length, `self.table.len() as u32`.
abbrev pub next_key : BroadcastRegistry → ℕ
next_key r = length r.table % 2 ^ 32

unfoldable pub add_broadcast : BroadcastRegistry → Text → BroadcastRegistry × ℕ
add_broadcast r broadcast_id = elim (get broadcast_id r.lookup) [
  | some v ↦ (r, v)
  | none ↦ (
    record {
      lookup = insert broadcast_id (next_key r) r.lookup;
      table = r.table ++ broadcast_id ∷ [];
    },
    next_key r,
  )
]

unfoldable pub lookup_id : BroadcastRegistry → ℕ → Option Text
lookup_id r key = get_elem? r.table key

unfoldable pub lookup_key : BroadcastRegistry → Text → Option ℕ
lookup_key r broadcast_id = get broadcast_id r.lookup

-- The table and the lookup agree, and every key is a `u32`.
pub record IsConsistent (r : BroadcastRegistry) : Type 0 where
  pub keys_listed :
      (id : Text) (key : ℕ) → get id r.lookup ≡ some key → get_elem? r.table key ≡ some id
  pub names_keyed :
      (id : Text) (key : ℕ) → get_elem? r.table key ≡ some id → get id r.lookup ≡ some key

pub new-IsConsistent : IsConsistent new
unfolding new get
new-IsConsistent = record { keys_listed = λ id key h. cc; names_keyed = λ id key h. cc }

-- Registering a broadcast keeps the two tables inverse to each other, and after it the name and the
-- key that was returned stand for one another; the table has fewer than `2 ^ 32` names before.
pub add_broadcast-IsConsistent :
    (r : BroadcastRegistry) (id : Text)
    → IsConsistent r
    → length r.table < 2 ^ 32
    → IsConsistent (add_broadcast r id).0
      × (lookup_key (add_broadcast r id).0 id ≡ some (add_broadcast r id).1)
      × (lookup_id (add_broadcast r id).0 (add_broadcast r id).1 ≡ some id)
unfolding add_broadcast lookup_key lookup_id
add_broadcast-IsConsistent r id c h = elim (Option-cases (get id r.lookup)) [
  | inr (v, e) ↦ rw (e, add_broadcast) (c, e, c.keys_listed id v e)
  | inl e ↦
      let small : next_key r ≡ length r.table = omega arith in
      rw (e, add_broadcast, small)
        (
          record {
            keys_listed = λ j key p. ground (
              arith,
              get-insert id j (length r.table) r.lookup,
              text_eq_iff id j,
              c.keys_listed j key,
              get_elem?-append r.table id,
              get_elem?-append_left r.table (id ∷ []) key {a = j},
            );
            names_keyed = λ j key p. ground (
              arith,
              get-insert id j (length r.table) r.lookup,
              text_eq_iff id j,
              c.names_keyed j key,
              get_elem?-append_cases r.table id key p,
            );
          },
          ground (arith, get-insert id id (length r.table) r.lookup, text_eq_iff id id),
          get_elem?-append r.table id,
        )
]
