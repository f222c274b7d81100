-- ===== src/Transport/Writing.antt =====
-- base_transport.go: `serveWrite`, which merges what the channels send and writes it to the
-- connection, and `servePing`.
pub mod Held
pub mod Merged
pub mod Pings
mod Tests
use httpadapter.Common.{
  ℕ, ◌+◌, ◌-◌, Bool, true, false, Option, none, some, List, [], ◌∷◌, ◌++◌, leb, ◌==◌, if◌then◌else◌,
  length, take, drop,
}
use httpadapter.Common.Bytes.{Bytes}
use httpadapter.Transport.{Tick, rearms, pings, on_timer}

-- A `bufio.Writer` of `size` bytes on the connection, or none if `size` is 0. `out` is what the
-- connection took. `takes` tells how each write on the connection to come ends: `some n` is an error
-- after `n` bytes.
pub record Output : Type 0 where
  pub size : ℕ
  pub buffered : Bytes
  pub out : Bytes
  pub takes : List (Option ℕ)
  pub broken : Bool

-- A write on the connection.
abbrev pub write_as : List (Option ℕ) → Bytes → Output → Output
write_as (none ∷ more) b o = record o { out = o.out ++ b; takes = more }
write_as (some n ∷ more) b o = record o { out = o.out ++ take n b; takes = more; broken = true }
write_as [] b o = record o { broken = true }

unfoldable pub write_conn : Bytes → Output → Output
write_conn b o = write_as o.takes b o

-- `Flush`
abbrev pub emptied : Output → Output
emptied o = if o.broken then o else record o { buffered = [] }

abbrev pub flush_bytes : Bytes → Output → Output
flush_bytes [] o = o
flush_bytes (x ∷ b) o = emptied (write_conn (x ∷ b) o)

unfoldable pub flush : Output → Output
flush o = flush_bytes o.buffered o

abbrev pub buffer : Bytes → Output → Output
buffer b o = record o { buffered = o.buffered ++ b }

-- What is left of a write when the buffer was filled and flushed.
abbrev pub write_rest : Bytes → Output → Output
write_rest b o = if leb (length b) o.size then buffer b o else write_conn b o

-- `Write` of the `bufio.Writer`: a write that does not fit fills the buffer and flushes it, or goes to
-- the connection if the buffer is empty.
unfoldable pub write_buffered : Bytes → Output → Output
write_buffered b o =
    let available = o.size - length o.buffered in
    let filled = flush (buffer (take available b) o) in
    if leb (length b) available
    then buffer b o
    else if length o.buffered == 0
    then write_conn b o
    else if filled.broken
    then filled
    else write_rest (drop available b) filled

-- `w.Write(b)`
unfoldable pub write : Bytes → Output → Output
write b o = if o.size == 0 then write_conn b o else write_buffered b o

-- Where the loop stands: at the first select, at the second, or returned.
pub data Phase : Type 0 where
  waits merges returned : Phase

-- `taken` is, for the record, all that was received from `t.ch`.
pub record Writing : Type 0 where
  pub phase : Phase
  pub output : Output
  pub taken : Bytes

-- What a select meets; `nothing` is the default.
pub data Meets : Type 0 where
  message : Bytes → Meets
  done nothing : Meets

abbrev pub go_to : Phase → Writing → Output → Writing
go_to phase s o = record s { output = o; phase = if o.broken then returned else phase }

unfoldable pub receive : Bytes → Writing → Writing
receive b s = go_to merges (record s { taken = s.taken ++ b }) (write b s.output)

-- Without a message the first select waits on.
abbrev pub step_at : Phase → Writing → Meets → Writing
step_at returned s e = s
step_at waits s (message b) = receive b s
step_at waits s done = record s { phase = returned }
step_at waits s nothing = s
step_at merges s (message b) = receive b s
step_at merges s done = record s { phase = returned }
step_at merges s nothing = go_to waits s (flush s.output)

unfoldable pub step : Writing → Meets → Writing
step s e = step_at s.phase s e

unfoldable pub run : Writing → List Meets → Writing
run s [] = s
run s (e ∷ es) = run (step s e) es

abbrev pub start : ℕ → List (Option ℕ) → Writing
start size takes = record {
  phase = waits;
  output = record { size = size; buffered = []; out = []; takes = takes; broken = false };
  taken = [];
}

-- `servePing`: `at` is the time of the last activity, `fires` that for which the timer is set, `pinged`
-- the times of the pings.
pub record Pinging : Type 0 where
  pub at : ℕ
  pub fires : ℕ
  pub pinged : List ℕ

-- What the select meets, and when.
pub data Signal : Type 0 where
  tick active : ℕ → Signal

unfoldable pub timer_fired : ℕ → ℕ → Pinging → Tick → Pinging
timer_fired duration now s (rearms wait) = record s { fires = now + wait }
timer_fired duration now s pings = record {
  at = now;
  fires = now + duration;
  pinged = s.pinged ++ (now ∷ []);
}

unfoldable pub signal : ℕ → Pinging → Signal → Pinging
signal duration s (tick now) = timer_fired duration now s (on_timer duration (now - s.at))
signal duration s (active now) = record s { at = now }

unfoldable pub signals : ℕ → Pinging → List Signal → Pinging
signals duration s [] = s
signals duration s (e ∷ es) = signals duration (signal duration s e) es
