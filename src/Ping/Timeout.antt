-- ===== src/Ping/Timeout.antt =====
-- When a session ends for want of a pong (autoconnect/autoconnect-ws/src/ping.rs).
use autopush_rs.Prelude.{
  ◌≡◌, ◌∙◌, refl, ap, arith, Bool, true, false, Option, none, some, List, ◌∷◌, Text, if◌then◌else◌,
}
use autopush_rs.Services.{ok, err}
use autopush_rs.Ping.{
  pong_timeout, Waiting, to_ping, for_pong, Pinger, PingManager, set_waiting, new, outcome, tick,
  Sent, pinged, broadcast, after_ping, after_text, send_delta, ws_ping_or_broadcast, ponged,
  on_ws_pong, if_ticked, on_tick, Event, sent, owes, Reached, begun, ticked, answered,
}

-- What a timer waits for after what has passed.
abbrev waiting_for : Bool → Waiting
waiting_for true = for_pong
waiting_for false = to_ping

module _ (p : Pinger) where
  -- What the timer waits for once a message has gone out.
  abbrev waiting_after : Waiting → Sent p → Waiting
  waiting_after waiting pinged = for_pong
  waiting_after waiting (broadcast broadcasts) = waiting

  after_ping-waiting :
      (m m' : PingManager p) (r : Bool × p.World) (w' : p.World) (s : Sent p)
      → after_ping p m r ≡ (ok s, m', w')
      → m'.waiting ≡ waiting_after m.waiting s
  unfolding set_waiting
  after_ping-waiting m m' (false, w) w' s h = absurd (ground (arith, h))
  after_ping-waiting m m' (true, w) w' s h = ground (arith, h)

  after_text-waiting :
      (m m' : PingManager p) (broadcasts : List (Text × Text)) (r : Bool × p.World) (w' : p.World)
      (s : Sent p)
      → after_text p m broadcasts r ≡ (ok s, m', w')
      → m'.waiting ≡ waiting_after m.waiting s
  after_text-waiting m m' broadcasts (false, w) w' s h = absurd (ground (arith, h))
  after_text-waiting m m' broadcasts (true, w) w' s h = ground (arith, h)

  send_delta-waiting :
      (m m' : PingManager p) (o : Option (List (Text × Text)) × p.World) (w' : p.World) (s : Sent p)
      → send_delta p m o ≡ (ok s, m', w')
      → m'.waiting ≡ waiting_after m.waiting s
  send_delta-waiting m m' (some broadcasts, w) w' s h =
      after_text-waiting m m' broadcasts (p.text broadcasts w) w' s h
  send_delta-waiting m m' (none, w) w' s h = after_ping-waiting m m' (p.ping w) w' s h

  if_ticked-waiting :
      (waiting : Waiting) (m m' : PingManager p) (w w' : p.World) (s : Sent p)
      → if_ticked p (outcome p waiting, m, w) ≡ (ok s, m', w')
      → (waiting ≡ to_ping) × (m'.waiting ≡ waiting_after m.waiting s)
  unfolding ws_ping_or_broadcast
  if_ticked-waiting to_ping m m' w w' s h =
      (refl, send_delta-waiting m m' (p.broadcast_delta w) w' s h)
  if_ticked-waiting for_pong m m' w w' s h = absurd (ground (arith, h))

  on_tick-waiting :
      (m m' : PingManager p) (w w' : p.World) (s : Sent p)
      → on_tick p m w ≡ (ok s, m', w')
      → (m.waiting ≡ to_ping) × (m'.waiting ≡ waiting_after m.waiting s)
  unfolding on_tick tick
  on_tick-waiting m m' w w' s h =
      let (i, w1) = p.tick m.ping_or_timeout w in
      if_ticked-waiting m.waiting (record m { ping_or_timeout = i }) m' w1 w' s h

  ponged-waiting :
      (m m' : PingManager p) (waiting : Waiting) (w w' : p.World)
      → m.waiting ≡ waiting
      → ponged p m waiting w ≡ (m', w')
      → m'.waiting ≡ to_ping
  unfolding set_waiting
  ponged-waiting m m' to_ping w w' e h = ground (arith, h, e)
  ponged-waiting m m' for_pong w w' e h = ground (arith, h)

  owing_after :
      (es : List (Event p)) (m m' : PingManager p) (s : Sent p)
      → m.waiting ≡ waiting_for (owes p es)
      → m'.waiting ≡ waiting_after m.waiting s
      → m'.waiting ≡ waiting_for (owes p (sent s ∷ es))
  unfolding owes
  owing_after es m m' pinged e h = h
  owing_after es m m' (broadcast broadcasts) e h = h ∙ e

  owing :
      (es : List (Event p)) (m : PingManager p)
      → Reached p es m
      → m.waiting ≡ waiting_for (owes p es)
  unfolding owes new on_ws_pong
  owing es m (begun w w' _ h) = ground (arith, h)
  owing es m' (answered fs m _ w w' r h) = ponged-waiting m m' m.waiting w w' refl h
  owing es m' (ticked fs m _ w w' s r h) =
      owing_after fs m m' s (owing fs m r) (on_tick-waiting m m' w w' s h).1

  outcome-waiting :
      (waiting : Waiting) (b : Bool)
      → waiting ≡ waiting_for b
      → outcome p waiting ≡ (if b then err pong_timeout else ok tt)
  outcome-waiting waiting true e = ap (outcome p) e
  outcome-waiting waiting false e = ap (outcome p) e

  -- Whatever has passed between the timer and its client, a tick drops the client, with `PongTimeout`,
  -- if the last ping is without a pong, and only then; a broadcast in between is no answer.
  pub tick-owes :
      (es : List (Event p)) (m : PingManager p) (w : p.World)
      → Reached p es m
      → (tick p m w).0 ≡ (if owes p es then err pong_timeout else ok tt)
  unfolding tick
  tick-owes es m w r = outcome-waiting m.waiting (owes p es) (owing es m r)
