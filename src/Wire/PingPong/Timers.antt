-- ===== src/Wire/PingPong/Timers.antt =====
-- The timers of packages/wire/lib/PingPongState.ts: what may send a ping and what reconnects.
use node_dlc.Prelude.{ℕ, ◌+◌, ◌≤◌, List, if◌then◌else◌}
use node_dlc.Wire.PingPong.{
  PingPongState, Effect, Event, started, received, interval_passed, pong_timed_out, disconnecting,
}
use node_dlc.Wire.PingPong.Runs.{pings_sent, reconnects}

-- A pong is waited for.
abbrev pub waits : PingPongState → ℕ
waits s = if s.pong_timeout then 1 else 0

-- A step adds no more to the reconnects and the pongs waited for than pings that it sends.
Pays : PingPongState × List Effect → PingPongState → Type 0
Pays (t, out) s = reconnects out + waits t ≤ pings_sent out + waits s

-- Not the start of the connection's interval, and not its end.
abbrev pub IsNoStart : Event → Type 0
IsNoStart started = ⊥
IsNoStart (received now m) = Unit
IsNoStart (interval_passed now) = Unit
IsNoStart pong_timed_out = Unit
IsNoStart disconnecting = Unit

abbrev pub IsNoInterval : Event → Type 0
IsNoInterval started = Unit
IsNoInterval (received now m) = Unit
IsNoInterval (interval_passed now) = ⊥
IsNoInterval pong_timed_out = Unit
IsNoInterval disconnecting = Unit
