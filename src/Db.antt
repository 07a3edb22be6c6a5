-- ===== src/Db.antt =====
-- autopush-common/src/db/client.rs: what a database of users and messages can do, over the world
-- that it lives in, and the sequence of its calls.
use autopush_rs.Prelude.{ℕ, ◌≡◌, refl, arith, Bool, Option, List, Text}
use autopush_rs.Notification.{Notification}
use autopush_rs.Protocol.{DbError}
use autopush_rs.Services.{User, FetchMessageResponse, Result, ok, err, Call}

pub record DbClient (World : Type 0) : Type 0 where
  pub add_user : User → Call World (Unit {0})
  pub update_user : User → Call World (Bool × User)
  pub get_user : ℕ → Call World (Option User)
  pub remove_user : ℕ → Call World (Unit {0})
  pub add_channel : ℕ → ℕ → Call World (Unit {0})
  pub add_channels : ℕ → List ℕ → Call World (Unit {0})
  pub get_channels : ℕ → Call World (List ℕ)
  pub remove_channel : ℕ → ℕ → Call World Bool
  pub remove_node_id : ℕ → Text → ℕ → Option ℕ → Call World Bool
  pub save_message : ℕ → Notification → Call World (Unit {0})
  pub save_messages : ℕ → List Notification → Call World (Unit {0})
  pub fetch_topic_messages : ℕ → ℕ → Call World FetchMessageResponse
  pub fetch_timestamp_messages : ℕ → Option ℕ → ℕ → Call World FetchMessageResponse
  pub increment_storage : ℕ → ℕ → Call World (Unit {0})
  pub remove_message : ℕ → Text → Call World (Unit {0})
  pub router_table_exists : Call World Bool
  pub message_table_exists : Call World Bool
  pub rotating_message_table : Option Text
  pub name : Text

-- `?`: the first error ends the call, and what was done before it stays done.
abbrev pub and_then_call :
    {World A B : Type 0} → Result DbError A × World → (A → Call World B) → Result DbError B × World
and_then_call (ok a, w) f = f a w
and_then_call (err e, w) f = (err e, w)

infixl 5 ◌>>=◌ ◌>>◌
abbrev pub ◌>>=◌ : {World A B : Type 0} → Call World A → (A → Call World B) → Call World B
◌>>=◌ m f w = and_then_call (m w) f

abbrev pub ◌>>◌ : {World B : Type 0} → Call World (Unit {0}) → Call World B → Call World B
m >> k = m >>= λ _. k

abbrev pub pure : {World A : Type 0} → A → Call World A
pure a w = (ok a, w)

abbrev pub throw : {World A : Type 0} → DbError → Call World A
throw e w = (err e, w)

abbrev pub read : {World A : Type 0} → (World → A × World) → Call World A
read f w = let (a, w') = f w in (ok a, w')

-- A result with no effect on the world.
abbrev pub lift : {World A : Type 0} → Result DbError A → Call World A
lift r w = (r, w)

-- What a call and the calls after it must have done for both to end with a result.
pub and_then_call-eq-ok :
    {World A B : Type 0} (r : Result DbError A × World) (f : A → Call World B) {b : B} {w' : World}
    → and_then_call r f ≡ (ok b, w')
    → (a : A) × (w : World) × (r ≡ (ok a, w)) × (f a w ≡ (ok b, w'))
and_then_call-eq-ok (ok a, w) f h = (a, w, refl, h)
and_then_call-eq-ok (err e, w) f h = absurd (ground arith)
