-- ===== src/Client.antt =====
-- autoconnect-ws-sm/src/identified/mod.rs: the state of a `WebPushClient`, and the monad in which its
-- methods run. Metrics, logs and the parsed User-Agent are left out.
pub mod Storage
pub mod Messages
pub mod Frame
pub mod Run
pub mod Direct
pub mod Delivery
pub mod Loop
pub mod Drain
pub mod Shutdown
pub mod Hello
pub mod Greeting
use autopush_rs.Prelude.{
  ℕ, ◌≡◌, refl, arith, Bool, true, false, ◌||◌, not, Option, List, [], is_empty,
}
use autopush_rs.Notification.{Notification}
use autopush_rs.Protocol.{SmErrorKind, database, DbError}
use autopush_rs.Broadcast.Tracker.{BroadcastSubs}
use autopush_rs.Services.{Services, User, Result, ok, err, Call}

pub record ClientFlags : Type 0 where
  pub include_topic : Bool
  pub increment_storage : Bool
  pub check_storage : Bool
  pub old_record_version : Bool

abbrev pub default_flags : ClientFlags
default_flags = record {
  include_topic = true;
  increment_storage = false;
  check_storage = false;
  old_record_version = false;
}

-- The counters are `i32`s, read as bit patterns.
pub record SessionStatistics : Type 0 where
  pub direct_acked : ℕ
  pub direct_storage : ℕ
  pub stored_retrieved : ℕ
  pub stored_acked : ℕ
  pub nacks : ℕ
  pub unregisters : ℕ
  pub registers : ℕ
  pub existing_uaid : Bool

pub record AckState : Type 0 where
  pub unacked_direct_notifs : List Notification
  pub unacked_stored_notifs : List Notification
  pub unacked_stored_highest : Option ℕ

unfoldable pub unacked_notifs : AckState → Bool
unacked_notifs a = not (is_empty a.unacked_stored_notifs) || not (is_empty a.unacked_direct_notifs)

pub record WebPushClient : Type 0 where
  pub uaid : ℕ
  pub uid : ℕ
  pub broadcast_subs : BroadcastSubs
  pub flags : ClientFlags
  pub ack_state : AckState
  pub sent_from_storage : ℕ
  pub deferred_add_user : Option User
  pub stats : SessionStatistics
  pub connected_at : ℕ
  pub last_ping : ℕ
  pub current_timestamp : Option ℕ

-- A client in its world.
pub record Session (s : Services) : Type 0 where
  pub client : WebPushClient
  pub world : s.World

-- How a method ends: with a result, with an error, or, for the one loop that reads storage, not
-- within the rounds that it was given. What it has changed stays changed in each case.
pub data Outcome (S A : Type 0) : Type 0 where
  done : A → S → Outcome S A
  fail : SmErrorKind → S → Outcome S A
  out_of_fuel : S → Outcome S A

abbrev pub M : Services → Type 0 → Type 0
M s A = Session s → Outcome (Session s) A

-- The state that a method leaves behind.
abbrev pub final : {S A : Type 0} → Outcome S A → S
final (done a t) = t
final (fail e t) = t
final (out_of_fuel t) = t

abbrev pub and_then : {S A B : Type 0} → Outcome S A → (A → S → Outcome S B) → Outcome S B
and_then (done a t) f = f a t
and_then (fail e t) f = fail e t
and_then (out_of_fuel t) f = out_of_fuel t

infixl 5 ◌>>=◌ ◌>>◌
abbrev pub ◌>>=◌ : {s : Services} {A B : Type 0} → M s A → (A → M s B) → M s B
◌>>=◌ m f t = and_then (m t) f

abbrev pub ◌>>◌ : {s : Services} {B : Type 0} → M s (Unit {0}) → M s B → M s B
m >> k = m >>= λ _. k

module _ {s : Services} where
  abbrev pub pure : {A : Type 0} → A → M s A
  pure a t = done a t

  abbrev pub throw : {A : Type 0} → SmErrorKind → M s A
  throw e t = fail e t

  abbrev pub self : M s WebPushClient
  self t = done t.client t

  abbrev pub set_client : WebPushClient → M s (Unit {0})
  set_client c t = done tt (record t { client = c })

  -- `db.call(..).await?`, from the call's reply.
  abbrev pub reply : {A : Type 0} → Session s → Result DbError A × s.World → Outcome (Session s) A
  reply t (ok a, w) = done a (record t { world = w })
  reply t (err e, w) = fail (database e) (record t { world = w })

  abbrev pub db : {A : Type 0} → Call s.World A → M s A
  db f t = reply t (f t.world)

  -- A reading of the clock or of the random generator.
  abbrev pub read : {A : Type 0} → (s.World → A × s.World) → M s A
  read f t = let (a, w) = f t.world in done a (record t { world = w })

-- What a step and the steps after it must have done for both to end with a result.
pub and_then-eq-done :
    {S A B : Type 0} (r : Outcome S A) (f : A → S → Outcome S B) {b : B} {t' : S}
    → and_then r f ≡ done b t'
    → (a : A) × (t : S) × (r ≡ done a t) × (f a t ≡ done b t')
and_then-eq-done (done a t) f h = (a, t, refl, h)
and_then-eq-done (fail e t) f h = absurd (cc)
and_then-eq-done (out_of_fuel t) f h = absurd (cc)

module _ {s : Services} where
  reply-eq-done :
      {A : Type 0} (t : Session s) (r : Result DbError A × s.World) {a : A} {t' : Session s}
      → reply t r ≡ done a t'
      → (r ≡ (ok a, t'.world)) × (t'.client ≡ t.client)
  reply-eq-done t (ok b, w) h = (ground arith, ground arith)
  reply-eq-done t (err e, w) h = absurd (cc)

  -- A call of the database that succeeds changes the world alone.
  pub db-eq-done :
      {A : Type 0} (f : Call s.World A) (t : Session s) {a : A} {t' : Session s}
      → db f t ≡ done a t'
      → (f t.world ≡ (ok a, t'.world)) × (t'.client ≡ t.client)
  db-eq-done f t h = reply-eq-done t (f t.world) h
