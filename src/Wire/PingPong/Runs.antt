-- ===== src/Wire/PingPong/Runs.antt =====
-- What a peer is told in a run of the machine, and the answers to pings.
use node_dlc.Prelude.{ℕ, ◌+◌, ◌≡◌, arith, List, [], ◌∷◌, ◌++◌, ltb, if◌then◌else◌}
use node_dlc.Wire.PingPong.{
  Effect, send_ping, send_pong, disconnect, reconnect, ping, Event, received,
  pong_required_threshold,
}

abbrev pub disconnects : List Effect → ℕ
disconnects [] = 0
disconnects (send_ping n ∷ es) = disconnects es
disconnects (send_pong n ∷ es) = disconnects es
disconnects (disconnect ∷ es) = 1 + disconnects es
disconnects (reconnect ∷ es) = disconnects es

abbrev pub reconnects : List Effect → ℕ
reconnects [] = 0
reconnects (send_ping n ∷ es) = reconnects es
reconnects (send_pong n ∷ es) = reconnects es
reconnects (disconnect ∷ es) = reconnects es
reconnects (reconnect ∷ es) = 1 + reconnects es

abbrev pub pings_sent : List Effect → ℕ
pings_sent [] = 0
pings_sent (send_ping n ∷ es) = 1 + pings_sent es
pings_sent (send_pong n ∷ es) = pings_sent es
pings_sent (disconnect ∷ es) = pings_sent es
pings_sent (reconnect ∷ es) = pings_sent es

-- The sizes of the pongs that are sent.
abbrev pub pongs : List Effect → List ℕ
pongs [] = []
pongs (send_ping n ∷ es) = pongs es
pongs (send_pong n ∷ es) = n ∷ pongs es
pongs (disconnect ∷ es) = pongs es
pongs (reconnect ∷ es) = pongs es

pub reconnects-append :
    (xs ys : List Effect) → reconnects (xs ++ ys) ≡ reconnects xs + reconnects ys
reconnects-append [] ys = omega arith
reconnects-append (send_ping n ∷ xs) ys = reconnects-append xs ys
reconnects-append (send_pong n ∷ xs) ys = reconnects-append xs ys
reconnects-append (disconnect ∷ xs) ys = reconnects-append xs ys
reconnects-append (reconnect ∷ xs) ys = omega (arith, reconnects-append xs ys)

pub pings_sent-append :
    (xs ys : List Effect) → pings_sent (xs ++ ys) ≡ pings_sent xs + pings_sent ys
pings_sent-append [] ys = omega arith
pings_sent-append (send_ping n ∷ xs) ys = omega (arith, pings_sent-append xs ys)
pings_sent-append (send_pong n ∷ xs) ys = pings_sent-append xs ys
pings_sent-append (disconnect ∷ xs) ys = pings_sent-append xs ys
pings_sent-append (reconnect ∷ xs) ys = pings_sent-append xs ys

-- Pings that arrive one after the other, each with its time and the bytes it asks for.
abbrev pub pings : List (ℕ × ℕ) → List Event
pings [] = []
pings ((now, bytes) ∷ ms) = received now (ping bytes) ∷ pings ms

-- The pongs that are due.
abbrev pub due : List (ℕ × ℕ) → List ℕ
due [] = []
due ((now, bytes) ∷ ms) = if ltb bytes pong_required_threshold then bytes ∷ due ms else due ms
