-- ===== src/Dual/Migration.antt =====
-- The move of a user from the secondary database to the primary one
-- (autopush-common/src/db/dual/mod.rs).
use autopush_rs.Prelude.{
  ℕ, ◌≡◌, ◌∙◌, refl, ap, subst, arith, Bool, true, Option, none, some, List, [], ◌∷◌, nat_eq,
}
use autopush_rs.Protocol.{
  DbError, conditional, db_error, serialization, deserialize_u64, deserialize_string, integrity,
  general, backoff,
}
use autopush_rs.Services.{User, Result, ok, err}
use autopush_rs.Db.{DbClient, and_then_call, and_then_call-eq-ok}
use autopush_rs.Dual.{
  DualClient, should_migrate, get_user, user_or_move, move_found, migrate, after_add, already_moved,
  copy_channels, copy_found, found, arrived,
}
use autopush_rs.Dual.Allotment.{allot_primary}

module _ {World : Type 0} (d : DualClient World) where
  -- The copy of the channels: none, or all of them in one call.
  abbrev pub IsCopied : ℕ → List ℕ → World → World → Type 0
  IsCopied uaid [] w w' = w ≡ w'
  IsCopied uaid (c ∷ cs) w w' = d.primary.add_channels uaid (c ∷ cs) w ≡ (ok tt, w')

  -- The three ways to a user, each with all the calls from the one world to the other: the primary
  -- database has it; or the secondary one has it, the primary one takes it, with a new version, and
  -- takes all the channels that the secondary one gives for it; or the primary one refuses it, since
  -- somebody else has moved it, and has it when it is read again.
  pub data IsMoved (uaid : ℕ) : User → World → World → Type 0 where
    present :
        (user : User) (w w' : World)
        → d.primary.get_user uaid w ≡ (ok (some user), w')
        → IsMoved uaid user w w'
    copied :
        (old : User) (version : ℕ) (channels : List ℕ) (w w1 w2 w3 w4 w5 w' : World)
        → d.primary.get_user uaid w ≡ (ok none, w1)
        → d.secondary.get_user uaid w1 ≡ (ok (some old), w2)
        → d.new_v4 w2 ≡ (version, w3)
        → d.primary.add_user (record old { version = some version }) w3 ≡ (ok tt, w4)
        → d.secondary.get_channels uaid w4 ≡ (ok channels, w5)
        → IsCopied uaid channels w5 w'
        → IsMoved uaid (record old { version = some version }) w w'
    elsewhere :
        (old user : User) (version : ℕ) (w w1 w2 w3 w4 w' : World)
        → d.primary.get_user uaid w ≡ (ok none, w1)
        → d.secondary.get_user uaid w1 ≡ (ok (some old), w2)
        → d.new_v4 w2 ≡ (version, w3)
        → d.primary.add_user (record old { version = some version }) w3 ≡ (err conditional, w4)
        → d.primary.get_user uaid w4 ≡ (ok (some user), w')
        → IsMoved uaid user w w'

  same_found :
      (moved user : User) (w w' : World)
      → ◌≡◌ {A = Result DbError (Option User) × World} (ok (some moved), w) (ok (some user), w')
      → (moved ≡ user) × (w ≡ w')
  same_found moved user w w' h = (ground arith, ground arith)

  move_channels :
      (uaid : ℕ) (moved user : User) (channels : List ℕ) (w w' : World)
      → copy_found d uaid moved channels w ≡ (ok (some user), w')
      → (moved ≡ user) × IsCopied uaid channels w w'
  unfolding copy_found
  move_channels uaid moved user [] w w' h = same_found moved user w w' h
  move_channels uaid moved user (c ∷ cs) w w' h =
      let (_, w1, hc, hf) =
        and_then_call-eq-ok (d.primary.add_channels uaid (c ∷ cs) w) (found d moved) h in
      let (same, world) = same_found moved user w1 w' hf in
      (same, hc ∙ ap (λ (x : World). (ok tt, x)) world)

  arrived_same :
      (o : Option User) (user : User) (w w' : World)
      → arrived d o w ≡ (ok (some user), w')
      → (o ≡ some user) × (w ≡ w')
  arrived_same none user w w' h = absurd (ground arith)
  arrived_same (some u) user w w' h = (ground arith, ground arith)

  read_again :
      (uaid : ℕ) (user : User) (w w' : World)
      → already_moved d uaid w ≡ (ok (some user), w')
      → d.primary.get_user uaid w ≡ (ok (some user), w')
  unfolding already_moved
  read_again uaid user w w' h =
      let (o, w1, hg, hf) = and_then_call-eq-ok (d.primary.get_user uaid w) (arrived d) h in
      let (same, world) = arrived_same o user w1 w' hf in
      hg ∙ ap (λ (x : Option User). (ok x, w1)) same ∙ ap (λ (x : World). (ok (some user), x)) world

  -- The move of a user that the secondary database has, up to the reply of the primary one.
  module _ (uaid : ℕ) (old user : User) (w w1 w2 w3 w' : World) (version : ℕ)
      (absent : d.primary.get_user uaid w ≡ (ok none, w1))
      (left : d.secondary.get_user uaid w1 ≡ (ok (some old), w2))
      (fresh : d.new_v4 w2 ≡ (version, w3)) where
    abbrev moved : User
    moved = record old { version = some version }

    move_added :
        (w4 : World)
        → d.primary.add_user moved w3 ≡ (ok tt, w4)
        → copy_channels d uaid moved w4 ≡ (ok (some user), w')
        → IsMoved uaid user w w'
    unfolding copy_channels
    move_added w4 add h =
        let (channels, w5, hg, hc) =
          and_then_call-eq-ok (d.secondary.get_channels uaid w4) (copy_found d uaid moved) h in
        let (same, all) = move_channels uaid moved user channels w5 w' hc in
        subst (λ (x : User). IsMoved uaid x w w') same
          (copied old version channels w w1 w2 w3 w4 w5 w' absent left fresh add hg all)

    move_after_add :
        (r : Result DbError (Unit {0}) × World)
        → d.primary.add_user moved w3 ≡ r
        → after_add d uaid moved r ≡ (ok (some user), w')
        → IsMoved uaid user w w'
    unfolding after_add
    move_after_add (ok tt, w4) add h = move_added w4 add h
    move_after_add (err conditional, w4) add h =
        elsewhere old user version w w1 w2 w3 w4 w' absent left fresh add
          (read_again uaid user w4 w' h)
    move_after_add (err (db_error e), w4) add h = absurd (ground (arith, h))
    move_after_add (err (serialization e), w4) add h = absurd (ground (arith, h))
    move_after_add (err (deserialize_u64 e), w4) add h = absurd (ground (arith, h))
    move_after_add (err (deserialize_string e), w4) add h = absurd (ground (arith, h))
    move_after_add (err (integrity e), w4) add h = absurd (ground (arith, h))
    move_after_add (err (general e), w4) add h = absurd (ground (arith, h))
    move_after_add (err (backoff e), w4) add h = absurd (ground (arith, h))

  move_read :
      (uaid : ℕ) (user : User) (w w1 w' : World) (r : Result DbError (Option User) × World)
      → d.primary.get_user uaid w ≡ (ok none, w1)
      → d.secondary.get_user uaid w1 ≡ r
      → move_found d uaid r ≡ (ok (some user), w')
      → IsMoved uaid user w w'
  unfolding move_found migrate
  move_read uaid user w w1 w' (ok none, w2) absent left h = absurd (ground (arith, h))
  move_read uaid user w w1 w' (err e, w2) absent left h = absurd (ground (arith, h))
  move_read uaid user w w1 w' (ok (some old), w2) absent left h =
      move_after_add uaid old user w w1 w2 (d.new_v4 w2).1 w' (d.new_v4 w2).0 absent left refl _
        refl h

  move_or_found :
      (uaid : ℕ) (user : User) (o : Option User) (w w1 w' : World)
      → d.primary.get_user uaid w ≡ (ok o, w1)
      → user_or_move d uaid true o w1 ≡ (ok (some user), w')
      → IsMoved uaid user w w'
  unfolding user_or_move
  move_or_found uaid user (some u) w w1 w' got h =
      let (same, world) = same_found u user w1 w' h in
      present user w w' (
        got
        ∙ ap (λ (x : User). (ok (some x), w1)) same
        ∙ ap (λ (x : World). (ok (some user), x)) world)
  move_or_found uaid user none w w1 w' got h = move_read uaid user w w1 w' _ got refl h

  -- For a user in the allowance, a lookup that ends with a user has gone from its first world to its
  -- last one by one of three sequences of calls. The primary database had the user. Or it had not, the secondary one had, and
  -- the primary one took that user with a new version and all the channels that the secondary one
  -- then gave; what is returned is that user. Or it refused the user, and had it on a second read.
  pub get_user-IsMoved :
      (uaid : ℕ) (user : User) (w w' : World)
      → should_migrate d uaid ≡ true
      → get_user d uaid w ≡ (ok (some user), w')
      → IsMoved uaid user w w'
  unfolding get_user
  get_user-IsMoved uaid user w w' m h =
      let (o, w1, hg, hf) =
        and_then_call-eq-ok (d.primary.get_user uaid w) (user_or_move d uaid true) (
          subst
            (λ (x : DbClient World × Bool).
              and_then_call (x.0.get_user uaid w) (user_or_move d uaid x.1) ≡ (ok (some user), w'))
            (allot_primary d uaid m) h) in
      move_or_found uaid user o w w1 w' hg hf
