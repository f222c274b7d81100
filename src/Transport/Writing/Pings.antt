-- ===== src/Transport/Writing/Pings.antt =====
-- base_transport.go 52-62: when `servePing` sends a ping.
use httpadapter.Common.{ℕ, ◌+◌, List, [], ◌∷◌}
use httpadapter.Transport.Writing.{Pinging, tick, signal}

-- A connection without activity: each time the timer fires, so much later than the time for which it was
-- set.
unfoldable pub idle : ℕ → Pinging → List ℕ → Pinging
idle duration s [] = s
idle duration s (delay ∷ delays) = idle duration (signal duration s (tick (s.fires + delay))) delays
