-- ===== src/Wire/Tests.antt =====
-- The keep-alive of packages/wire on small runs.
use node_dlc.Prelude.{ℕ, List, [], ◌∷◌}
use node_dlc.Wire.PingPong.{Event, started, interval_passed, pong_timed_out}

abbrev twelve : List (ℕ × ℕ)
twelve =
    (1, 5)
    ∷ (2, 70000)
    ∷ (3, 5)
    ∷ (4, 5)
    ∷ (5, 5)
    ∷ (6, 5)
    ∷ (7, 5)
    ∷ (8, 5)
    ∷ (9, 5)
    ∷ (10, 5)
    ∷ (11, 5)
    ∷ (12, 6)
    ∷ []

abbrev silence : List Event
silence = started ∷ interval_passed 60000 ∷ pong_timed_out ∷ interval_passed 120000 ∷ []

abbrev late : List Event
late = pong_timed_out ∷ interval_passed 180000 ∷ []
