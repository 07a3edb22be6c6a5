-- ===== src/Users.antt =====
-- The making of a `User` (autopush-common/src/db/mod.rs, db/util.rs and `has_connected_this_month` of
-- db/dynamodb/mod.rs), from the clock and the random numbers of a world.
use autopush_rs.Prelude.{
  ℕ, Bool, true, false, ◌&&◌, Option, none, some, [], ◌∷◌, ◌++◌, Text, codes, ltb, ◌==◌, length,
  to_string, parse_u64, if◌then◌else◌,
}
use autopush_rs.Services.{Services, User}

abbrev pub user_record_version : ℕ
user_record_version = 1

-- `{:04}`, for a number below 10000.
abbrev pub four_digits : ℕ → Text
four_digits n =
    let t = to_string n in
    if ltb (length t) 2
    then codes "000" ++ t
    else if ltb (length t) 3
    then codes "00" ++ t
    else if ltb (length t) 4
    then codes "0" ++ t
    else t

abbrev pub starts_with : Text → Text → Bool
starts_with [] t = true
starts_with (c ∷ cs) [] = false
starts_with (c ∷ cs) (d ∷ ds) = (c == d) && starts_with cs ds

-- uuid, chrono and rand: `Utc::now().format(..)` and `gen_range(0..n)`.
pub record UserCrates (World : Type 0) : Type 0 where
  pub new_v4 : World → ℕ × World
  pub ms_since_epoch : World → ℕ × World
  pub format_utc : Text → World → Text × World
  pub gen_range : ℕ → World → ℕ × World

abbrev pub user_crates : (s : Services) → UserCrates s.World
user_crates s = record {
  new_v4 = s.new_v4;
  ms_since_epoch = s.ms_since_epoch;
  format_utc = s.format_utc;
  gen_range = s.gen_range;
}

module _ {World : Type 0} (c : UserCrates World) where
  -- A text that is not a `u64` cannot be unwrapped and gives `none` here.
  unfoldable pub generate_last_connect : World → Option ℕ × World
  generate_last_connect w =
      let (today, w1) = c.format_utc (codes "%Y%m%H") w in
      let (num, w2) = c.gen_range 10 w1 in (parse_u64 (today ++ four_digits num), w2)

  -- `User::default`.
  unfoldable pub default_user : World → User × World
  unfolding generate_last_connect
  default_user w =
      let (uaid, w1) = c.new_v4 w in
      let (connected_at, w2) = c.ms_since_epoch w1 in
      let (last_connect, w3) = generate_last_connect w2 in
      let (version, w4) = c.new_v4 w3 in
      (
        record {
          uaid = uaid;
          connected_at = connected_at;
          router_type = codes "webpush";
          router_data = none;
          last_connect = last_connect;
          node_id = none;
          record_version = some user_record_version;
          current_month = none;
          current_timestamp = none;
          version = some version;
        },
        w4,
      )

  unfoldable pub has_connected_this_month : User → World → Bool × World
  has_connected_this_month user w = elim user.last_connect [
    | none ↦ (false, w)
    | some v ↦ let (pat, w1) = c.format_utc (codes "%Y%m") w in (starts_with pat (to_string v), w1)
  ]

  unfoldable pub set_last_connect : User → World → User × World
  unfolding has_connected_this_month generate_last_connect
  set_last_connect user w =
      let (connected, w1) = has_connected_this_month user w in
      let (last_connect, w2) = if connected then (none, w1) else generate_last_connect w1 in
      (record user { last_connect = last_connect }, w2)
