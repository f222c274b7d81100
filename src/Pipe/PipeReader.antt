-- ===== src/Pipe/PipeReader.antt =====
-- pipe/pipe_reader.go: a reader that blocks on a condition variable over the ring buffer. Each
-- function is the part of a method between two points where the lock changes hands; `Close` marks
-- the pipe before it takes the lock, so it has two parts.
pub mod Outcome
pub mod System
pub mod Invariant
mod Tests
use httpadapter.Common.{
  ℕ, suc, ◌-◌, ◌+◌, Option, none, some, Bool, true, false, not, ◌==◌, if◌then◌else◌, [], replicate,
}
use httpadapter.Common.Bytes.{Bytes}
use httpadapter.Pipe.ReadWriter
use httpadapter.Pipe.ReadWriter.{ReadWriter, ReadWriterError, new_read_writer}

pub data PipeError : Type 0 where
  reader_closed : PipeError
  ring : ReadWriterError → PipeError

pub record PipeReader : Type 0 where
  pub rw : ReadWriter
  pub closed : Bool
  pub wait : ℕ

unfoldable pub new_pipe_reader : ℕ → PipeReader
new_pipe_reader size = record { rw = new_read_writer (replicate size 0); closed = false; wait = 0 }

-- `Close`, first part: the swap of `closed`. The flag is true if this call is the one that closes.
pub mark_closed : PipeReader → Bool × PipeReader
mark_closed p = if p.closed then (false, p) else (true, record p { closed = true })

-- `if p.wait != 0 { p.cond.Broadcast() }`, of `Close` and `Write`: whether it broadcasts.
pub broadcasts : PipeReader → Bool
broadcasts p = not (p.wait == 0)

-- `Write` after `p.rw.Write(b)`.
abbrev pub after_write :
    PipeReader → ℕ × Option ReadWriterError × ReadWriter → ℕ × Option PipeError × PipeReader
after_write p (n, none, r) = (n, none, record p { rw = r })
after_write p (n, some x, r) = (n, some (ring x), p)

-- `Write`: the count, the error, and the pipe.
unfoldable pub write : PipeReader → Bytes → ℕ × Option PipeError × PipeReader
write p b = if p.closed then (0, some reader_closed, p) else after_write p (ReadWriter.write p.rw b)

-- What a reader does next: it returns, or it sleeps in `cond.Wait` with the lock released.
pub data Attempt : Type 0 where
  returned : Bytes → Option PipeError → Attempt
  waits : Attempt
  diverges : Attempt

-- `rw.Read(b)` at the end of `Read`.
unfoldable pub take_bytes : PipeReader → ℕ → Attempt × PipeReader
take_bytes p k = elim (ReadWriter.read p.rw k) [
  | none ↦ (diverges, p)
  | some (bs, e, rw') ↦
      (returned bs (elim e [ none ↦ none | some x ↦ some (ring x) ]), record p { rw = rw' })
]

-- The test of the loop `for rw.Len() == 0`, and what follows it up to `cond.Wait` or the return.
unfoldable pub read_check : PipeReader → ℕ → Attempt × PipeReader
read_check p k =
    if p.rw.size == 0
    then if p.closed
      then (returned [] (some (ring ReadWriterError.eof)), p)
      else (waits, record p { wait = p.wait + 1 })
    else take_bytes p k

-- `Read(b)` with `len(b) = k`, from its start.
unfoldable pub read_start : PipeReader → ℕ → Attempt × PipeReader
read_start p k =
    if k == 0
    then (returned [] (if p.closed then some (ring ReadWriterError.eof) else none), p)
    else read_check p k

-- `Read` from the return of `cond.Wait`.
unfoldable pub read_resume : PipeReader → ℕ → Attempt × PipeReader
read_resume p k = read_check (record p { wait = p.wait - 1 }) k
