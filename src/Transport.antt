-- ===== src/Transport.antt =====
-- base_transport.go, and what the two transports share: the channels that they hold, the commands
-- on the wire, and the reading of data for a channel.
pub mod Writing
pub mod Delivery
pub mod Progress
use httpadapter.Common.{
  ℕ, zero, suc, ◌+◌, ◌-◌, ◌*◌, List, [], ◌∷◌, ◌++◌, Bool, true, false, Option, none, some, length,
  take, ltb, ◌==◌, if◌then◌else◌,
}
use httpadapter.Common.Bytes.{Bytes, put_uint, uint}
use httpadapter.Common.Io.{full, cut, read_full}
use httpadapter.Core.Protocol.{command_create, command_close}
use httpadapter.Pipe.PipeReader
use httpadapter.Pipe.PipeReader.{PipeReader, PipeError, new_pipe_reader}
use httpadapter.Channel

-- What a transport sees of an `ioChannel`. `handle` stands for the pointer: no two channels that
-- were ever made share it. `slot` is the number in `c.confirm`.
pub record IoChannel : Type 0 where
  pub id : ℕ
  pub handle : ℕ
  pub closed : Bool
  pub pipe : PipeReader
  pub slot : Option ℕ
  pub remote_window : ℕ

-- `newIOChannel`
unfoldable pub new_io_channel : ℕ → ℕ → ℕ → ℕ → IoChannel
new_io_channel id handle window remote_window = record {
  id = id;
  handle = handle;
  closed = false;
  pipe = new_pipe_reader window;
  slot = none;
  remote_window = remote_window;
}

-- `ioChannel.Close`: it also closes the pipe, once.
unfoldable pub close_channel : IoChannel → IoChannel
close_channel c =
    if c.closed then c else record c { closed = true; pipe = (PipeReader.mark_closed c.pipe).1 }

-- `Pipe` after `c.pipe.Write(b)`: an error closes the channel.
unfoldable pub piped : IoChannel → ℕ × Option PipeError × PipeReader → IoChannel
piped c (n, none, p) = record c { pipe = p }
piped c (n, some e, p) = close_channel (record c { pipe = p })

-- `ioChannel.Pipe(b)`
unfoldable pub pipe_bytes : IoChannel → Bytes → IoChannel
pipe_bytes c b = piped c (PipeReader.write c.pipe b)

-- `ioChannel.Confirm(val)`: the channel and the overflow flag. A closed channel's context is done.
unfoldable pub confirm_channel : IoChannel → ℕ → IoChannel × Bool
confirm_channel c val =
    let (slot, overflow) = Channel.confirm c.closed c.remote_window c.slot val in
    (record c { slot = slot }, overflow)

-- `sendClose(id)`: the bytes.
unfoldable pub close_frame : ℕ → Bytes
close_frame id = command_close ∷ put_uint 8 id

-- The answer to a create command: its code is 0 for success, 1 for an id in use, 2 for too many.
unfoldable pub create_frame : ℕ → ℕ → Bytes
create_frame id code = command_create ∷ (put_uint 8 id ++ code ∷ [])

-- `max = len(buffer)` in the write command, for a reader with a buffer of `size_b` bytes.
unfoldable pub piece_max : ℕ → ℕ → ℕ
piece_max size_b size =
    if ltb size size_b then size else if ltb (32 * 1024) size then 32 * 1024 else size

-- The loop `for size != 0` on the data behind a write command, with the state `A` that takes the
-- pieces: `short` when the input ends first, `spins` when the fuel runs out.
pub data Pieces {ℓ} (A : Type ℓ) : Type ℓ where
  arrived : A → Bytes → Pieces A
  short : A → Pieces A
  spins : Pieces A

unfoldable pub piece_size : ℕ → ℕ → ℕ
piece_size max size = if ltb max size then max else size

unfoldable pub read_pieces {ℓ} : {A : Type ℓ} → (Bytes → A → A) → ℕ → ℕ → ℕ → A → Bytes → Pieces A
read_pieces {A} deliver zero max size a input = spins
read_pieces {A} deliver (suc fuel) max size a input =
    let n = piece_size max size in
    let more : Pieces A = elim (read_full n input) [
      | cut e ↦ short a
      | full bs rest ↦ read_pieces deliver fuel max (size - n) (deliver bs a) rest
    ] in
    if size == 0 then arrived a input else more

-- `servePing`: what the timer does after `since` of no activity, given the interval.
pub data Tick : Type 0 where
  rearms : ℕ → Tick
  pings : Tick

unfoldable pub on_timer : ℕ → ℕ → Tick
on_timer duration since = let wait = since - duration in if ltb 0 wait then rearms wait else pings
