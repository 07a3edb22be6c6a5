-- ===== src/Bigtable/Channels.antt =====
-- The channels, the node and the read position of a user, in the row of the user
-- (bigtable_client/mod.rs).
use autopush_rs.Prelude.{
  ℕ, zero, suc, ◌+◌, leb, Bool, Option, none, some, List, [], ◌∷◌, ◌++◌, Text, codes, contains,
  nat_eq, text_key, if◌then◌else◌,
}
use autopush_rs.Protocol.{DbError, integrity, general}
use autopush_rs.Services.{Result, ok, err, Call}
use autopush_rs.Merge.{Cell, Row}
use autopush_rs.Users.{starts_with}
use autopush_rs.Db.{◌>>=◌, throw, read, lift}
use autopush_rs.Bigtable.{
  Bigtable, filter_chain, family_name_regex, column_qualifier_regex, router_family, max_channel_ttl,
  max_router_ttl, router_gc_policy_filter, version_filter, whole, read_row_request,
  check_and_mutate_row_request, read_row,
}
use autopush_rs.Bigtable.Bytes.{to_be_bytes}
use autopush_rs.Bigtable.Cells.{new, add_cells, last}
use autopush_rs.Bigtable.Messages.{new_cell}
use autopush_rs.Bigtable.Store.{get_mutations, get_delete_mutations, write_row, expiry_after}

abbrev pub drop_bytes : ℕ → Text → Text
drop_bytes zero t = t
drop_bytes (suc n) [] = []
drop_bytes (suc n) (c ∷ cs) = drop_bytes n cs

-- `split_once("chid:")`, and of it what is behind.
unfoldable pub behind_chid : Text → Option Text
behind_chid [] = none
behind_chid (c ∷ cs) =
    let rest = behind_chid cs in
    if starts_with (codes "chid:") (c ∷ cs) then some (drop_bytes 4 cs) else rest

module _ (b : Bigtable) where
  abbrev pub chid_column : ℕ → Text
  chid_column channel_id = codes "chid:" ++ b.keys.as_hyphenated channel_id

  -- The loop over the channels and their numbers from `i`; it breaks at 100,000.
  unfoldable pub channel_cells_from : ℕ → ℕ → List ℕ → List Cell
  channel_cells_from expiry i [] = []
  channel_cells_from expiry i (channel_id ∷ channels) =
      let rest = channel_cells_from expiry (i + 1) channels in
      if leb 100000 i then [] else new_cell (chid_column channel_id) [] expiry ∷ rest

  unfoldable pub channel_cells : ℕ → List ℕ → List Cell
  unfolding channel_cells_from
  channel_cells expiry channels = channel_cells_from expiry 0 channels

  unfoldable pub add_channels : ℕ → List ℕ → Call b.World (Unit {0})
  unfolding channel_cells expiry_after write_row add_cells
  add_channels uaid channels = do
    expiry ← read (expiry_after b max_channel_ttl)
    write_row b (add_cells router_family (channel_cells expiry channels) (new (b.as_simple uaid)))

  unfoldable pub add_channel : ℕ → ℕ → Call b.World (Unit {0})
  unfolding add_channels
  add_channel uaid channel_id = add_channels uaid (channel_id ∷ [])

  abbrev pub insert_id : ℕ → Result DbError (List ℕ) → Result DbError (List ℕ)
  insert_id id (ok ids) = ok (if contains ids id then ids else id ∷ ids)
  insert_id id (err e) = err e

  -- The channel of a column, given those of the columns behind.
  abbrev pub with_channel : Option Cell → Result DbError (List ℕ) → Result DbError (List ℕ)
  with_channel none rest = rest
  with_channel (some cell) rest = elim (behind_chid cell.qualifier) [
    | none ↦ err (integrity (codes "get_channels expected: chid:<chid>"))
    | some chid ↦ elim (b.keys.parse_str chid) [
      | none ↦ err (general [])
      | some id ↦ insert_id id rest
    ]
  ]

  unfoldable pub channels_of_cells : List (Text × List Cell) → Result DbError (List ℕ)
  unfolding behind_chid
  channels_of_cells [] = ok []
  channels_of_cells ((column, cells) ∷ m) = with_channel (last cells) (channels_of_cells m)

  abbrev pub channels_if_found : Option Row → Result DbError (List ℕ)
  channels_if_found none = ok []
  channels_if_found (some record_) = channels_of_cells record_.cells

  unfoldable pub get_channels : ℕ → Call b.World (List ℕ)
  unfolding read_row channels_of_cells
  get_channels uaid = do
    found ← read_row b (
        read_row_request b (b.as_simple uaid) (
          router_gc_policy_filter
          ∷ family_name_regex (whole router_family)
          ∷ column_qualifier_regex (codes "^chid:.*$")
          ∷ []))
    lift (channels_if_found found)

  -- A newly generated `version` cell.
  unfoldable pub new_version_cell : ℕ → b.World → Cell × b.World
  new_version_cell timestamp w =
      let (version, w') = b.users.new_v4 w in
      (new_cell (codes "version") (b.into_bytes version) timestamp, w')

  unfoldable pub remove_channel : ℕ → ℕ → Call b.World Bool
  unfolding get_mutations get_delete_mutations expiry_after new_version_cell
  remove_channel uaid channel_id = do
    let column = chid_column channel_id
    expiry ← read (expiry_after b max_router_ttl)
    version_cell ← read (new_version_cell expiry)
    b.check_and_mutate_row (
        check_and_mutate_row_request b (b.as_simple uaid)
          (filter_chain (router_gc_policy_filter ∷ column_qualifier_regex (whole column) ∷ []))
          (get_delete_mutations router_family (column ∷ []) none
            ++ get_mutations ((router_family, version_cell ∷ []) ∷ []))
          [])

  unfoldable pub remove_node_id : ℕ → Text → ℕ → Option ℕ → Call b.World Bool
  unfolding get_delete_mutations
  remove_node_id uaid node_id connected_at none =
      throw (general (codes "Expected a user version field"))
  remove_node_id uaid node_id connected_at (some version) = b.check_and_mutate_row (
      check_and_mutate_row_request b (b.as_simple uaid)
        (filter_chain (router_gc_policy_filter ∷ version_filter b version))
        (get_delete_mutations router_family (codes "node_id" ∷ []) none) [])

  unfoldable pub increment_storage : ℕ → ℕ → Call b.World (Unit {0})
  unfolding expiry_after new_version_cell write_row to_be_bytes
  increment_storage uaid timestamp = do
    expiry ← read (expiry_after b max_router_ttl)
    version_cell ← read (new_version_cell expiry)
    write_row b (record {
      row_key = b.as_simple uaid;
      cells =
          (
            router_family,
            new_cell (codes "current_timestamp") (to_be_bytes timestamp) expiry ∷ version_cell ∷ [],
          )
          ∷ [];
    })
