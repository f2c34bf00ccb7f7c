-- ===== src/Wire/PingPong.antt =====
-- packages/wire/lib/PingPongState.ts as a machine: what happens to a connection, the state that is
-- left, and what the peer is told to do. Time is in milliseconds, as `Date.now` counts it.
pub mod Runs
pub mod Timers
use node_dlc.Prelude.{
  ℕ, zero, suc, ◌+◌, ◌-◌, Bool, true, false, not, Option, none, some, List, [], ◌∷◌, ◌++◌, ltb,
  ◌==◌, if◌then◌else◌,
}

-- A timer is the fact that it is set.
pub record PingPongState : Type 0 where
  pub pings_received : ℕ
  pub last_message_received : Option ℕ
  pub send_ping_interval : Bool
  pub pong_timeout : Bool
  pub sent_ping : Option ℕ

pub data Effect : Type 0 where
  send_ping : ℕ → Effect
  send_pong : ℕ → Effect
  disconnect reconnect : Effect

-- A ping with the number of bytes it asks for, a pong with the number it brings, and the rest.
pub data Message : Type 0 where
  ping : ℕ → Message
  pong : ℕ → Message
  other : Message

pub data Event : Type 0 where
  started : Event
  received : ℕ → Message → Event
  interval_passed : ℕ → Event
  pong_timed_out : Event
  disconnecting : Event

abbrev pub ping_interval_ms : ℕ
ping_interval_ms = 60000

abbrev pub ping_flood_threshold : ℕ
ping_flood_threshold = 10

abbrev pub pong_required_threshold : ℕ
pong_required_threshold = 65532

-- The bytes that a new ping asks for.
abbrev pub default_pong_bytes : ℕ
default_pong_bytes = 1

abbrev pub initial : PingPongState
initial = record {
  pings_received = 0;
  last_message_received = none;
  send_ping_interval = false;
  pong_timeout = false;
  sent_ping = none;
}

unfoldable pub check_for_ping_flood : ℕ → List Effect
check_for_ping_flood pings = if ltb ping_flood_threshold pings then disconnect ∷ [] else []

unfoldable pub answer : ℕ → List Effect
answer bytes = if ltb bytes pong_required_threshold then send_pong bytes ∷ [] else []

unfoldable pub validate_pong : Option ℕ → ℕ → List Effect
validate_pong none size = []
validate_pong (some bytes) size = if bytes == size then [] else disconnect ∷ []

unfoldable pub on_message : ℕ → Message → PingPongState → PingPongState × List Effect
on_message now (ping bytes) s =
    let pings = s.pings_received + 1 in
    (
      record s { pings_received = pings; last_message_received = some now },
      check_for_ping_flood pings ++ answer bytes,
    )
on_message now (pong size) s = (
  record s { pong_timeout = false; last_message_received = some now },
  validate_pong s.sent_ping size,
)
on_message now other s = (record s { last_message_received = some now }, [])

-- No message, or none within the interval.
unfoldable pub is_silent : ℕ → Option ℕ → Bool
is_silent now none = true
is_silent now (some zero) = true
is_silent now (some (suc t)) = ltb ping_interval_ms (now - suc t)

unfoldable pub send_one : PingPongState → PingPongState × List Effect
send_one s = (
  record s { pong_timeout = true; sent_ping = some default_pong_bytes },
  send_ping default_pong_bytes ∷ [],
)

unfoldable pub on_send_ping_interval : ℕ → PingPongState → PingPongState × List Effect
on_send_ping_interval now s =
    let r = record s { pings_received = 0 } in
    if is_silent now s.last_message_received then send_one r else (r, [])

-- By the documentation of Node's clearTimeout and clearInterval, a timer that is not set, or was
-- cleared, does not fire.
unfoldable pub step : Event → PingPongState → PingPongState × List Effect
step started s = (record s { send_ping_interval = true }, [])
step (received now m) s = on_message now m s
step (interval_passed now) s = if s.send_ping_interval then on_send_ping_interval now s else (s, [])
step pong_timed_out s =
    if s.pong_timeout then (record s { pong_timeout = false }, reconnect ∷ []) else (s, [])
step disconnecting s = (record s { pong_timeout = false; send_ping_interval = false }, [])

unfoldable pub run : List Event → PingPongState → PingPongState × List Effect
run [] s = (s, [])
run (e ∷ es) s = let (t, out) = step e s in let (u, rest) = run es t in (u, out ++ rest)
