-- ===== src/Ping.antt =====
-- autoconnect/autoconnect-ws/src/ping.rs: the timer of a session, which pings the client or drops it.
-- The intervals of tokio, the session and the broadcasts for the client are parameters.
pub mod Timeout
use autopush_rs.Prelude.{
  ℕ, ◌≡◌, refl, arith, ap, Bool, true, false, Option, none, some, List, [], ◌∷◌, Text,
}
use autopush_rs.Services.{Result, ok, err}

pub data WsError : Type 0 where
  pong_timeout session_error : WsError

pub data Waiting : Type 0 where
  to_ping for_pong : Waiting

pub record Pinger : Type 1 where
  pub World : Type 0
  pub Interval : Type 0
  pub auto_ping_interval : ℕ
  pub auto_ping_timeout : ℕ
  pub interval : ℕ → World → Interval × World
  pub tick : Interval → World → Interval × World
  pub reset : Interval → World → Interval × World
  -- `WebPushClient::broadcast_delta`, as pairs of a broadcast and its version.
  pub broadcast_delta : World → Option (List (Text × Text)) × World
  pub text : List (Text × Text) → World → Bool × World
  pub ping : World → Bool × World

module _ (p : Pinger) where
  pub record PingManager : Type 0 where
    pub waiting : Waiting
    pub ping_or_timeout : p.Interval

  abbrev pub period : Waiting → ℕ
  period to_ping = p.auto_ping_interval
  period for_pong = p.auto_ping_timeout

  -- The first tick of an interval is at once.
  abbrev pub started : Waiting → p.Interval × p.World → PingManager × p.World
  started waiting (i, w) =
      let (j, w') = p.tick i w in (record { waiting = waiting; ping_or_timeout = j }, w')

  unfoldable pub set_waiting : Waiting → p.World → PingManager × p.World
  set_waiting waiting w = started waiting (p.interval (period waiting) w)

  unfoldable pub new : p.World → PingManager × p.World
  new w = started to_ping (p.interval p.auto_ping_interval w)

  abbrev pub outcome : Waiting → Result WsError (Unit {0})
  outcome to_ping = ok tt
  outcome for_pong = err pong_timeout

  unfoldable pub tick : PingManager → p.World → Result WsError (Unit {0}) × PingManager × p.World
  tick m w =
      let (i, w') = p.tick m.ping_or_timeout w in
      (outcome m.waiting, record m { ping_or_timeout = i }, w')

  -- What goes to the client at a tick.
  pub data Sent : Type 0 where
    pinged : Sent
    broadcast : List (Text × Text) → Sent

  abbrev pub after_ping : PingManager → Bool × p.World → Result WsError Sent × PingManager × p.World
  after_ping m (false, w) = (err session_error, m, w)
  after_ping m (true, w) = let (m', w') = set_waiting for_pong w in (ok pinged, m', w')

  abbrev pub after_text :
      PingManager
      → List (Text × Text)
      → Bool × p.World
      → Result WsError Sent × PingManager × p.World
  after_text m broadcasts (false, w) = (err session_error, m, w)
  after_text m broadcasts (true, w) =
      let (i, w') = p.reset m.ping_or_timeout w in
      (ok (broadcast broadcasts), record m { ping_or_timeout = i }, w')

  abbrev pub send_delta :
      PingManager
      → Option (List (Text × Text)) × p.World
      → Result WsError Sent × PingManager × p.World
  send_delta m (some broadcasts, w) = after_text m broadcasts (p.text broadcasts w)
  send_delta m (none, w) = after_ping m (p.ping w)

  unfoldable pub ws_ping_or_broadcast :
      PingManager → p.World → Result WsError Sent × PingManager × p.World
  unfolding set_waiting
  ws_ping_or_broadcast m w = send_delta m (p.broadcast_delta w)

  abbrev pub ponged : PingManager → Waiting → p.World → PingManager × p.World
  ponged m to_ping w = (m, w)
  ponged m for_pong w = set_waiting to_ping w

  unfoldable pub on_ws_pong : PingManager → p.World → PingManager × p.World
  unfolding set_waiting
  on_ws_pong m w = ponged m m.waiting w

  -- The arm of the select loop for the timer: a message to the client, or an error.
  abbrev pub if_ticked :
      Result WsError (Unit {0}) × PingManager × p.World
      → Result WsError Sent × PingManager × p.World
  if_ticked (ok u, m, w) = ws_ping_or_broadcast m w
  if_ticked (err e, m, w) = (err e, m, w)

  unfoldable pub on_tick : PingManager → p.World → Result WsError Sent × PingManager × p.World
  unfolding tick ws_ping_or_broadcast
  on_tick m w = if_ticked (tick m w)

  -- What has passed between the client and the timer, the last first.
  pub data Event : Type 0 where
    sent : Sent → Event
    pong : Event

  -- Whether the client owes a pong.
  unfoldable pub owes : List Event → Bool
  owes [] = false
  owes (pong ∷ es) = false
  owes (sent pinged ∷ es) = true
  owes (sent (broadcast broadcasts) ∷ es) = owes es

  -- The timers of a session, by what has passed; between two events anything may happen to the world.
  pub data Reached : List Event → PingManager → Type 0 where
    begun : (w w' : p.World) (m : PingManager) → new w ≡ (m, w') → Reached [] m
    ticked :
        (es : List Event) (m m' : PingManager) (w w' : p.World) (s : Sent)
        → Reached es m
        → on_tick m w ≡ (ok s, m', w')
        → Reached (sent s ∷ es) m'
    answered :
        (es : List Event) (m m' : PingManager) (w w' : p.World)
        → Reached es m
        → on_ws_pong m w ≡ (m', w')
        → Reached (pong ∷ es) m'
