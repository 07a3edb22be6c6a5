-- ===== src/Dual.antt =====
-- autopush-common/src/db/dual/mod.rs: two databases, of which the first takes over the users in its
-- allowance. What goes wrong in the second while the first has answered is only logged.
pub mod Messages
pub mod Allotment
pub mod Migration
use autopush_rs.Prelude.{
  ℕ, Bool, true, false, ◌&&◌, ◌||◌, Option, none, some, List, [], ◌∷◌, Text, codes, leb, is_empty,
  if◌then◌else◌,
}
use autopush_rs.Notification.{Notification}
use autopush_rs.Protocol.{DbError, conditional, backoff}
use autopush_rs.Services.{User, Result, ok, err, Call, FetchMessageResponse}
use autopush_rs.Bigtable.Cells.{last}
use autopush_rs.Db.{DbClient, ◌>>=◌, ◌>>◌, pure, throw, read}

pub record DualClient (World : Type 0) : Type 0 where
  pub primary : DbClient World
  pub secondary : DbClient World
  pub median : Option ℕ
  pub end_median : Option ℕ
  pub write_to_secondary : Bool
  -- The uuid crate.
  pub as_bytes : ℕ → List ℕ
  pub new_v4 : World → ℕ × World

abbrev pub first : List ℕ → Option ℕ
first [] = none
first (byte ∷ bytes) = some byte

-- `byte <= Some(median)`, if there is a median.
abbrev pub is_allowed : Option ℕ → Option ℕ → Bool
is_allowed byte none = false
is_allowed none (some median) = true
is_allowed (some byte) (some median) = leb byte median

module _ {World : Type 0} (d : DualClient World) where
  unfoldable pub should_migrate : ℕ → Bool
  should_migrate uaid =
      let bytes = d.as_bytes uaid in
      is_allowed (first bytes) d.median || is_allowed (last bytes) d.end_median

  -- The database of a user, and whether it is the primary one.
  unfoldable pub allot : ℕ → DbClient World × Bool
  unfolding should_migrate
  allot uaid = if should_migrate uaid then (d.primary, true) else (d.secondary, false)

  -- `let _ = call.await`, under a condition.
  abbrev pub also_if : {A : Type 0} → Bool → Call World A → Call World (Unit {0})
  also_if also call w = if also then (ok tt, (call w).1) else (ok tt, w)

  unfoldable pub add_user : User → Call World (Unit {0})
  unfolding allot
  add_user user = do
    let (target, is_primary) = allot user.uaid
    result ← target.add_user user
    also_if (is_primary && d.write_to_secondary) (d.secondary.add_user user)
    pure result

  -- The secondary database gets the user as the first one left it. What it changes itself in the
  -- record is what the caller sees.
  abbrev pub user_after : User → Result DbError (Bool × User) → User
  user_after user (ok (updated, user')) = user'
  user_after user (err e) = user

  abbrev pub update_also : Bool → Bool → User → Call World (Bool × User)
  update_also also result user w =
      let (reply, w') = d.secondary.update_user user w in
      if also then (ok (result, user_after user reply), w') else (ok (result, user), w)

  unfoldable pub update_user : User → Call World (Bool × User)
  unfolding allot
  update_user user = do
    let (target, is_primary) = allot user.uaid
    (result, user') ← target.update_user user
    update_also (is_primary && d.write_to_secondary) result user'

  abbrev pub arrived : Option User → Call World (Option User)
  arrived none = throw (backoff (codes "Move in progress"))
  arrived (some user) = pure (some user)

  -- Somebody else moves the user: it should be there by now.
  unfoldable pub already_moved : ℕ → Call World (Option User)
  already_moved uaid = d.primary.get_user uaid >>= arrived

  abbrev pub found : User → Unit {0} → Call World (Option User)
  found user done = pure (some user)

  unfoldable pub copy_found : ℕ → User → List ℕ → Call World (Option User)
  copy_found uaid user [] = found user tt
  copy_found uaid user (c ∷ cs) = d.primary.add_channels uaid (c ∷ cs) >>= found user

  unfoldable pub copy_channels : ℕ → User → Call World (Option User)
  unfolding copy_found
  copy_channels uaid user = d.secondary.get_channels uaid >>= copy_found uaid user

  unfoldable pub after_add :
      ℕ → User → Result DbError (Unit {0}) × World → Result DbError (Option User) × World
  unfolding already_moved copy_channels
  after_add uaid user (ok _, w) = copy_channels uaid user w
  after_add uaid user (err conditional, w) = already_moved uaid w
  after_add uaid user (err e, w) = (err e, w)

  -- The copy of a user to the primary database, which needs a version there.
  unfoldable pub migrate : ℕ → User → Call World (Option User)
  unfolding after_add
  migrate uaid user w =
      let (version, w1) = d.new_v4 w in
      let moved = record user { version = some version } in
      after_add uaid moved (d.primary.add_user moved w1)

  -- An error of the secondary database counts as no user.
  unfoldable pub move_found :
      ℕ → Result DbError (Option User) × World → Result DbError (Option User) × World
  unfolding migrate
  move_found uaid (ok (some user), w) = migrate uaid user w
  move_found uaid (ok none, w) = (ok none, w)
  move_found uaid (err e, w) = (ok none, w)

  unfoldable pub user_or_move : ℕ → Bool → Option User → Call World (Option User)
  unfolding move_found
  user_or_move uaid is_primary (some user) = pure (some user)
  user_or_move uaid false none = pure none
  user_or_move uaid true none = λ w. move_found uaid (d.secondary.get_user uaid w)

  unfoldable pub get_user : ℕ → Call World (Option User)
  unfolding allot user_or_move
  get_user uaid = do
    let (target, is_primary) = allot uaid
    found ← target.get_user uaid
    user_or_move uaid is_primary found

  unfoldable pub remove_user : ℕ → Call World (Unit {0})
  unfolding allot
  remove_user uaid = do
    let (target, is_primary) = allot uaid
    result ← target.remove_user uaid
    also_if is_primary (d.secondary.remove_user uaid)
    pure result

  -- The result is the target's, also where it is an error.
  abbrev pub also_after :
      {A B : Type 0} → Bool → Call World B → Result DbError A × World → Result DbError A × World
  also_after also call (result, w) = if also then (result, (call w).1) else (result, w)

  unfoldable pub add_channel : ℕ → ℕ → Call World (Unit {0})
  unfolding allot
  add_channel uaid channel_id w =
      let (target, is_primary) = allot uaid in
      also_after (is_primary && d.write_to_secondary) (d.secondary.add_channel uaid channel_id)
        (target.add_channel uaid channel_id w)

  unfoldable pub add_channels : ℕ → List ℕ → Call World (Unit {0})
  unfolding allot
  add_channels uaid channels w =
      let (target, is_primary) = allot uaid in
      also_after (is_primary && d.write_to_secondary) (d.secondary.add_channels uaid channels)
        (target.add_channels uaid channels w)

  unfoldable pub get_channels : ℕ → Call World (List ℕ)
  unfolding allot
  get_channels uaid = let (target, is_primary) = allot uaid in target.get_channels uaid

  unfoldable pub remove_channel : ℕ → ℕ → Call World Bool
  unfolding allot
  remove_channel uaid channel_id = do
    let (target, is_primary) = allot uaid
    result ← target.remove_channel uaid channel_id
    also_if is_primary (d.secondary.remove_channel uaid channel_id)
    pure result
