-- ===== src/Bigtable/Store.antt =====
-- The `DbClient` that bigtable_client/mod.rs implements over a Bigtable.
use autopush_rs.Prelude.{
  ℕ, ◌+◌, ◌*◌, Bool, true, false, not, Option, none, some, List, [], ◌∷◌, ◌++◌, map, Text, codes,
  text_key, nat_eq, ◌%◌, ◌^◌, if◌then◌else◌,
}
use autopush_rs.Protocol.{DbError, integrity, general, conditional}
use autopush_rs.Services.{User, Result, ok, err, Call}
use autopush_rs.Merge.{Cell, Row}
use autopush_rs.Users.{default_user}
use autopush_rs.Db.{◌>>=◌, ◌>>◌, pure, throw, read, lift}
use autopush_rs.Bigtable.{
  Bigtable, Filter, filter_chain, family_name_regex, row_key_regex, Mutation, set_cell,
  delete_from_column, delete_from_row, router_family, max_router_ttl, router_gc_policy_filter,
  version_filter, whole, read_row_request, mutate_row_request, check_and_mutate_row_request,
  read_row,
}
use autopush_rs.Bigtable.Cells.{take_cell}
use autopush_rs.Bigtable.Users.{is_incomplete_router_record, user_to_row, read_fixed, read_user}

-- `get_mutations`: the time of a cell, in milliseconds, goes out in microseconds as an `i64`.
abbrev pub family_mutations : Text → List Cell → List Mutation
family_mutations family cells =
    map (λ c. set_cell family c.qualifier (c.timestamp * 1000 % 2 ^ 64) c.value) cells

unfoldable pub get_mutations : List (Text × List Cell) → List Mutation
get_mutations [] = []
get_mutations ((family, cells) ∷ m) = family_mutations family cells ++ get_mutations m

unfoldable pub get_delete_mutations : Text → List Text → Option (ℕ × ℕ) → List Mutation
get_delete_mutations family column_names time_range =
    map (λ column. delete_from_column family column time_range) column_names

module _ (b : Bigtable) where
  unfoldable pub write_row : Row → Call b.World (Unit {0})
  unfolding get_mutations
  write_row row = b.mutate_row (mutate_row_request b row.row_key (get_mutations row.cells))

  unfoldable pub check_and_mutate_row : Row → Filter → Bool → Call b.World Bool
  unfolding get_mutations
  check_and_mutate_row row filter state =
      let mutations = get_mutations row.cells in
      b.check_and_mutate_row (
        if state
        then check_and_mutate_row_request b row.row_key filter mutations []
        else check_and_mutate_row_request b row.row_key filter [] mutations)

  unfoldable pub delete_row : Text → Call b.World (Unit {0})
  delete_row row_key = b.mutate_row (mutate_row_request b row_key (delete_from_row ∷ []))

  -- `SystemTime::now() + Duration::from_secs(..)`.
  unfoldable pub expiry_after : ℕ → b.World → ℕ × b.World
  expiry_after ttl w = let (now, w') = b.system_time w in (now + 1000 * ttl, w')

  abbrev pub or_conditional : Bool → Call b.World (Unit {0})
  or_conditional exists = if exists then throw conditional else pure tt

  unfoldable pub add_user : User → Call b.World (Unit {0})
  unfolding expiry_after user_to_row check_and_mutate_row
  add_user user = elim user.version [
    | none ↦ throw (general (codes "add_user expected a user version field"))
    | some version ↦ do
      expiry ← read (expiry_after max_router_ttl)
      let row = user_to_row b expiry user version
      exists ←
          check_and_mutate_row row
            (filter_chain (router_gc_policy_filter ∷ row_key_regex (whole row.row_key) ∷ [])) false
      or_conditional exists
  ]

  unfoldable pub update_user : User → Call b.World (Bool × User)
  unfolding expiry_after user_to_row check_and_mutate_row
  update_user user = elim user.version [
    | none ↦ throw (general (codes "update_user expected a user version field"))
    | some version ↦ do
      new_version ← read b.users.new_v4
      expiry ← read (expiry_after max_router_ttl)
      predicate_matched ←
          check_and_mutate_row (user_to_row b expiry user new_version)
            (filter_chain (router_gc_policy_filter ∷ version_filter b version)) true
      pure (predicate_matched, record user { version = some new_version })
  ]

  unfoldable pub remove_user : ℕ → Call b.World (Unit {0})
  unfolding delete_row
  remove_user uaid = delete_row (b.as_simple uaid)

  abbrev pub user_from : Result DbError (User × Row) → Call b.World (Option User)
  user_from (ok (user, row)) = pure (some user)
  user_from (err e) = throw e

  -- The row of a user, once its first column is taken.
  unfoldable pub user_of_cell : ℕ → Cell → Row → Call b.World (Option User)
  unfolding read_fixed read_user default_user
  user_of_cell uaid connected_at_cell row = do
    (fixed, rest) ← lift (read_fixed b connected_at_cell row)
    default ← read (default_user b.users)
    user_from (read_user b uaid fixed default rest)

  -- A record with nothing of a user in it is as good as none, and is removed.
  unfoldable pub user_of_row : ℕ → Option Cell × Row → Call b.World (Option User)
  unfolding user_of_cell remove_user is_incomplete_router_record
  user_of_row uaid (some connected_at_cell, row) = user_of_cell uaid connected_at_cell row
  user_of_row uaid (none, row) =
      if not (is_incomplete_router_record row.cells)
      then throw (integrity (codes "Expected column: connected_at"))
      else (do remove_user uaid; pure none)

  abbrev pub user_if_found : ℕ → Option Row → Call b.World (Option User)
  user_if_found uaid none = pure none
  user_if_found uaid (some row) = user_of_row uaid (take_cell (codes "connected_at") row)

  unfoldable pub get_user : ℕ → Call b.World (Option User)
  unfolding read_row user_of_row take_cell
  get_user uaid = do
    found ← read_row b (
        read_row_request b (b.as_simple uaid)
          (router_gc_policy_filter ∷ family_name_regex (whole router_family) ∷ []))
    user_if_found uaid found
