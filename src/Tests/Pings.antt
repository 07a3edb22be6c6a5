-- ===== src/Tests/Pings.antt =====
-- A client that is pinged once and says nothing, on a clock that the intervals move.
use autopush_rs.Prelude.{ℕ, ◌+◌, ◌≡◌, refl, true, none, [], ◌∷◌}
use autopush_rs.Services.{err, ok}
use autopush_rs.Ping.{
  pong_timeout, to_ping, for_pong, Pinger, PingManager, new, tick, on_tick, pinged, sent, owes,
  begun, ticked,
}
use autopush_rs.Ping.Timeout.{tick-owes}

abbrev quiet : Pinger
quiet = record {
  World = ℕ;
  Interval = ℕ;
  auto_ping_interval = 300;
  auto_ping_timeout = 4;
  interval = λ period w. (period, w);
  tick = λ i w. (i, w + i);
  reset = λ i w. (i, w);
  broadcast_delta = λ w. (none, w);
  text = λ broadcasts w. (true, w);
  ping = λ w. (true, w);
}

abbrev at_first : PingManager quiet
at_first = record { waiting = to_ping; ping_or_timeout = 300 }

abbrev after_one : PingManager quiet
after_one = record { waiting = for_pong; ping_or_timeout = 4 }

begun_run : new quiet 0 ≡ (at_first, 300)
unfolding new
begun_run = refl

ticked_run : on_tick quiet at_first 300 ≡ (ok pinged, after_one, 604)
unfolding on_tick
ticked_run = refl

tick-owes_example : (tick quiet after_one 604).0 ≡ err pong_timeout
unfolding owes
tick-owes_example =
    tick-owes quiet (sent pinged ∷ []) after_one 604
      (ticked [] at_first after_one 300 604 pinged (begun 0 300 at_first begun_run) ticked_run)
