-- ===== src/ServerTransport.antt =====
-- server_transport.go: the server's end of a tcp chain. The state is the map of channels and the
-- data given to the writer; a command takes its bytes off the input.
pub mod Invariant
pub mod End
pub mod Hanging
pub mod Answers
pub mod Data
pub mod Reuse
mod Tests
use httpadapter.Common.{
  ℕ, zero, suc, ◌+◌, List, [], ◌∷◌, ◌++◌, Bool, true, false, ◌&&◌, ◌||◌, Option, none, some, length,
  take, drop, get_or, ltb, leb, ◌==◌, if◌then◌else◌, map,
}
use httpadapter.Common.Bytes.{Bytes, uint}
use httpadapter.Common.Io.{ReadFull, full, cut, read_full}
use httpadapter.Common.KeyMap.{lookup, erase, insert, adjust}
use httpadapter.Core.Protocol.{
  command_ping, command_pong, command_create, command_close, command_write, command_confirm,
}
use httpadapter.Transport.{
  IoChannel, new_io_channel, close_channel, pipe_bytes, confirm_channel, close_frame, create_frame,
  piece_max, Pieces, arrived, short, spins, read_pieces,
}

-- The options that the transport reads: `channels` is 0 for no limit, which stands for every value
-- below 1.
pub record Options : Type 0 where
  pub window : ℕ
  pub channels : ℕ

-- `next` numbers the channels as they are made. `sent` is what was given to the writer, in order.
-- `gone`: the done signal. `dropped`: the channels that close commands took out of the map.
pub record Transport : Type 0 where
  pub keys : List (ℕ × IoChannel)
  pub remote_window : ℕ
  pub next : ℕ
  pub sent : List Bytes
  pub gone : Bool
  pub dropped : List IoChannel

abbrev pub new_server_transport : ℕ → Transport
new_server_transport remote_window = record {
  keys = [];
  remote_window = remote_window;
  next = 0;
  sent = [];
  gone = false;
  dropped = [];
}

-- A command goes on with the rest of the input, or leaves the loop; or it goes on after a `sendClose` of
-- the channel `id`, which may have to wait.
pub data Step : Type 0 where
  goes : Transport → Bytes → Step
  closes : ℕ → Transport → Bytes → Step
  breaks : Transport → Step
  stuck : Step

-- What `postWrite` gives to the writer, or `sendClose` once the queue has room: without room `postWrite`
-- leaves the bytes to a goroutine, and `sendClose` waits. After the done signal nothing is written,
-- whichever case of the select runs.
unfoldable pub send : Bytes → Transport → Transport
send b t = if t.gone then t else record t { sent = t.sent ++ b ∷ [] }

-- `postWrite(b)` where its result ends the loop.
unfoldable pub post_write : Bytes → Transport → Bytes → Step
post_write b t rest = if t.gone then breaks t else goes (send b t) rest

-- The code of the answer to a create command.
unfoldable pub create_code : Options → Transport → ℕ → ℕ
create_code o t id = elim (lookup id t.keys) [
  | some c ↦ 1
  | none ↦ if ltb 0 o.channels && leb o.channels (length t.keys) then 2 else 0
]

-- The part of a create command under the lock.
unfoldable pub create : Options → Transport → ℕ → Transport
create o t id =
    if create_code o t id == 0
    then record t {
      keys = insert id (new_io_channel id t.next o.window t.remote_window) t.keys;
      next = t.next + 1;
    }
    else t

-- A close command: the channel is closed and leaves the map.
unfoldable pub close_key : Transport → ℕ → Transport
close_key t id = elim (lookup id t.keys) [
  | some c ↦ record t { keys = erase id t.keys; dropped = close_channel c ∷ t.dropped }
  | none ↦ t
]

-- A piece of data for a channel. For a channel that is not there nothing happens: `healthy`, which
-- guards the close command to the client, is never true.
unfoldable pub deliver : ℕ → Bytes → Transport → Transport
deliver id bs t = elim (lookup id t.keys) [
  | some c ↦ record t { keys = adjust id (pipe_bytes c bs) t.keys }
  | none ↦ t
]

-- A confirm command.
unfoldable pub confirm_key : Transport → ℕ → ℕ → Bytes → Step
confirm_key t id val rest = elim (lookup id t.keys) [
  | some c ↦
      (let (c', overflow) = confirm_channel c val in
        let t' = record t { keys = adjust id c' t.keys } in
        if overflow then closes id t' rest else goes t' rest)
  | none ↦ closes id t rest
]

-- What follows the loop over the pieces.
unfoldable pub write_done : Pieces Transport → Step
write_done (arrived t rest) = goes t rest
write_done (short t) = breaks t
write_done spins = stuck

-- A write command: `size_b` is the length of the reader's buffer `b`.
unfoldable pub write_key : ℕ → Transport → ℕ → ℕ → Bytes → Step
write_key size_b t id size input =
    write_done (read_pieces (deliver id) (suc size) (piece_max size_b size) size t input)

-- Each command on the bytes behind it.
unfoldable pub on_pong : Transport → ReadFull → Step
on_pong t (cut e) = breaks t
on_pong t (full bs rest) = goes (send (command_pong ∷ bs) t) rest

unfoldable pub on_create : Options → Transport → ReadFull → Step
on_create o t (cut e) = breaks t
on_create o t (full bs rest) =
    post_write (create_frame (uint bs) (create_code o t (uint bs))) (create o t (uint bs)) rest

unfoldable pub on_close : Transport → ReadFull → Step
on_close t (cut e) = breaks t
on_close t (full bs rest) = goes (close_key t (uint bs)) rest

unfoldable pub on_write : ℕ → Transport → ReadFull → Step
on_write size_b t (cut e) = breaks t
on_write size_b t (full bs rest) = write_key size_b t (uint (take 8 bs)) (uint (drop 8 bs)) rest

unfoldable pub on_confirm : Transport → ReadFull → Step
on_confirm t (cut e) = breaks t
on_confirm t (full bs rest) = confirm_key t (uint (take 8 bs)) (uint (drop 8 bs)) rest

-- The switch on the command.
unfoldable pub on_command : Options → ℕ → Transport → ℕ → Bytes → Step
on_command o size_b t cmd input =
    if cmd == command_ping
    then goes t input
    else if cmd == command_pong
    then on_pong t (read_full 4 input)
    else if cmd == command_create
    then on_create o t (read_full 8 input)
    else if cmd == command_close
    then on_close t (read_full 8 input)
    else if cmd == command_write
    then on_write size_b t (read_full 10 input)
    else if cmd == command_confirm
    then on_confirm t (read_full 10 input)
    else breaks t

-- A round of the loop of `Serve`.
unfoldable pub step : Options → ℕ → Transport → Bytes → Step
step o size_b t [] = breaks t
step o size_b t (cmd ∷ input) = on_command o size_b t cmd input

-- After the loop every channel is closed.
unfoldable pub clean_up : Transport → Transport
clean_up t = record t {
  keys = map (λ (p : ℕ × IoChannel). (p.0, close_channel p.1)) t.keys;
  gone = true;
}

-- How many frames the queue of the writer holds.
abbrev pub queue_size : ℕ
queue_size = 50

-- How `Serve` ends, or waits for ever in a `sendClose`.
pub data Served : Type 0 where
  finished hangs : Transport → Served

-- `Serve`; `none` when the fuel runs out. Each round takes a byte at least. `room n t` tells if the queue
-- of the writer has room sooner or later for a close frame, in the state `t` with `n` bytes of input left,
-- or the done signal is given then.
unfoldable pub serve : ℕ → Options → ℕ → (ℕ → Transport → Bool) → Transport → Bytes → Option Served
serve zero o size_b room t input = none
serve (suc fuel) o size_b room t input = elim (step o size_b t input) [
  | goes t' rest ↦ serve fuel o size_b room t' rest
  | closes id t' rest ↦
      (let more = serve fuel o size_b room (send (close_frame id) t') rest in
        if t'.gone || room (length rest) t' then more else some (hangs t'))
  | breaks t' ↦ some (finished (clean_up t'))
  | stuck ↦ none
]

-- `delete(c)`, as it is when its `sendClose` returns: only the channel itself is taken out, not a later
-- one with its id.
unfoldable pub delete : Transport → IoChannel → Transport
delete t c = elim (lookup c.id t.keys) [
  | some d ↦
      (if d.handle == c.handle
        then send (close_frame c.id) (record t { keys = erase c.id t.keys })
        else t)
  | none ↦ t
]
