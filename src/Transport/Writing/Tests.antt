-- ===== src/Transport/Writing/Tests.antt =====
-- base_transport.go 40-126 on examples.
use httpadapter.Common.{ℕ, ◌≡◌, refl, Option, none, some, List, [], ◌∷◌}
use httpadapter.Transport.Writing.{
  Pinging, Meets, message, nothing, signal, timer_fired, tick, active, start, run, signals, step,
  receive, write, write_buffered, flush, write_conn,
}
use httpadapter.Transport.Writing.Merged.{Written, written_in_order}
use httpadapter.Transport.Writing.Pings.{idle}
use httpadapter.Transport.{on_timer}

-- A buffer of 2 bytes; the third write on the connection fails after a byte.
abbrev takes : List (Option ℕ)
takes = none ∷ none ∷ some 1 ∷ []

abbrev events : List Meets
events = message (1 ∷ []) ∷ message (2 ∷ 3 ∷ []) ∷ nothing ∷ message (4 ∷ 5 ∷ 6 ∷ []) ∷ []

run-out : (run (start 2 takes) events).output.out ≡ 1 ∷ 2 ∷ 3 ∷ 4 ∷ []
unfolding run step receive write write_buffered flush write_conn
run-out = refl

written_in_order_example : Written (run (start 2 takes) events)
written_in_order_example = written_in_order 2 takes events

-- The timer is set to 10; it fires at 11, which sets it to 12, and at 14, which sets it to 18.
abbrev started : Pinging
started = record { at = 0; fires = 10; pinged = [] }

idle-fires : (idle 10 started (1 ∷ 2 ∷ [])).fires ≡ 18
unfolding idle signal timer_fired on_timer
idle-fires = refl

-- A timer that fires in time sends a ping.
ping_in_time : (signals 10 started (active 5 ∷ tick 10 ∷ tick 15 ∷ [])).pinged ≡ 10 ∷ 15 ∷ []
unfolding signals signal timer_fired on_timer
ping_in_time = refl
