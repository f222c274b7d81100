-- ===== src/ClientTransport/Dispatch.antt =====
-- client_transport.go: the map of channels and requests, the commands that `Serve` reads, and what
-- `Create` does with the answer.
pub mod Panics
pub mod Opening
pub mod Ending
mod Tests
use httpadapter.Common.{
  ℕ, zero, suc, ◌+◌, ◌%◌, ◌^◌, List, [], ◌∷◌, ◌++◌, Bool, true, false, ◌||◌, Option, none, some,
  length, take, drop, ◌==◌, if◌then◌else◌, map,
}
use httpadapter.Common.Bytes.{Bytes, put_uint, uint}
use httpadapter.Common.Io.{ReadFull, full, cut, read_full}
use httpadapter.Common.KeyMap.{lookup, erase, insert, adjust}
use httpadapter.Core.Protocol.{
  command_ping, command_pong, command_create, command_close, command_write, command_confirm,
}
use httpadapter.Transport.{
  IoChannel, new_io_channel, close_channel, pipe_bytes, confirm_channel, close_frame, piece_max,
  Pieces, arrived, short, spins, read_pieces,
}

-- `keyClientChannelRW`: `ctx_done` is `ctx.Err() != nil`, which the caller of `Create` may bring about
-- at any time.
pub record Request : Type 0 where
  pub ctx_done : Bool

-- `keyClientChannel`
pub record Entry : Type 0 where
  pub channel : Option IoChannel
  pub request : Option Request

-- `createClientChannel`, for the request with the id `id`.
pub record Answer : Type 0 where
  pub id : ℕ
  pub code : ℕ
  pub value : Option IoChannel

-- `id` is the last id given out, `next` numbers the channels as they are made. `sent` is what was given to the
-- writer, in order; `gone` the done signal; `dropped` the closed channels that left the map;
-- `answers` what callers of `Create` received; `held` the answers that a goroutine holds for a caller
-- that did not wait yet.
pub record Transport : Type 0 where
  pub keys : List (ℕ × Entry)
  pub window : ℕ
  pub remote_window : ℕ
  pub id : ℕ
  pub next : ℕ
  pub sent : List Bytes
  pub gone : Bool
  pub dropped : List IoChannel
  pub answers : List Answer
  pub held : List Answer

abbrev pub new_transport : ℕ → ℕ → Transport
new_transport window remote_window = record {
  keys = [];
  window = window;
  remote_window = remote_window;
  id = 0;
  next = 0;
  sent = [];
  gone = false;
  dropped = [];
  answers = [];
  held = [];
}

-- A command goes on with the rest of the input, leaves the loop, or panics; or it goes on after a
-- `sendClose` of the channel `id`, which may have to wait. `stuck`: the fuel of the loop over pieces ran
-- out.
pub data Step : Type 0 where
  goes : Transport → Bytes → Step
  closes : ℕ → Transport → Bytes → Step
  breaks : Transport → Step
  panics : Step
  stuck : Step

-- What is given to the writer once the queue has room. Without room `postWrite` leaves the bytes to a
-- goroutine, and `sendClose` waits; after the done signal nothing is written.
unfoldable pub send : Bytes → Transport → Transport
send b t = if t.gone then t else record t { sent = t.sent ++ b ∷ [] }

-- The first part of `Create`: the entry in the map, and the id; `ctx_done` is tested under the lock.
unfoldable pub create : Bool → Transport → Option ℕ × Transport
create ctx_done t =
    let id = (t.id + 1) % 2 ^ 64 in
    if ctx_done then (none, record t { id = id }) else (
      some id,
      record t {
        id = id;
        keys =
            insert id (record { channel = none; request = some (record { ctx_done = false }) })
              t.keys;
      },
    )

unfoldable pub create_request : ℕ → Bytes
create_request id = command_create ∷ put_uint 8 id

-- The select of `createResult`: which case is ready. `later`: none is, and a goroutine waits.
pub data Handed : Type 0 where
  caller_gone transport_done received later : Handed

-- `val.Close()` and `t.sendClose(val.id)`, for the code 0.
unfoldable pub give_up : ℕ → Answer → Transport → Bytes → Step
give_up id a t rest = elim a.value [
  | none ↦ goes t rest
  | some c ↦ (elim (lookup id t.keys) [
    | none ↦ closes id t rest
    | some e ↦
        closes id
          (record t { keys = adjust id (record e { channel = some (close_channel c) }) t.keys })
          rest
  ])
]

unfoldable pub create_result : Handed → Answer → Transport → Bytes → Step
create_result caller_gone a t rest = give_up a.id a t rest
create_result transport_done a t rest = breaks t
create_result received a t rest = goes (record t { answers = t.answers ++ a ∷ [] }) rest
create_result later a t rest = goes (record t { held = t.held ++ a ∷ [] }) rest

-- The channel that a create answer with the code 0 makes.
unfoldable pub opened : ℕ → ℕ → Transport → Option IoChannel
opened id code t =
    if code == 0 then some (new_io_channel id t.next t.window t.remote_window) else none

-- The entry is there, without a channel, and its request was not cancelled.
unfoldable pub open_key : Handed → ℕ → ℕ → Transport → Bytes → Step
open_key h id code t rest =
    let channel = opened id code t in
    create_result h (record { id = id; code = code; value = channel })
      (record t {
        keys = adjust id (record { channel = channel; request = none }) t.keys;
        next = t.next + 1;
      })
      rest

-- A create answer: `val.channel.Close()` on no channel and `rw.ctx` on no request panic.
unfoldable pub on_entry : Handed → ℕ → ℕ → Transport → Bytes → Entry → Step
on_entry h id code t rest e = elim e.channel [
  | some c ↦
      closes id (record t { keys = erase id t.keys; dropped = close_channel c ∷ t.dropped }) rest
  | none ↦ (elim e.request [
    | none ↦ panics
    | some r ↦ if r.ctx_done then panics else open_key h id code t rest
  ])
]

unfoldable pub create_key : Handed → ℕ → ℕ → Transport → Bytes → Step
create_key h id code t rest = elim (lookup id t.keys) [
  | none ↦ closes id t rest
  | some e ↦ on_entry h id code t rest e
]

-- A close command.
unfoldable pub close_entry : Option IoChannel → List IoChannel → List IoChannel
close_entry none dropped = dropped
close_entry (some c) dropped = close_channel c ∷ dropped

unfoldable pub close_key : Transport → ℕ → Transport
close_key t id = elim (lookup id t.keys) [
  | some e ↦ record t { keys = erase id t.keys; dropped = close_entry e.channel t.dropped }
  | none ↦ t
]

-- The channel of an entry in the map.
unfoldable pub channel_at : ℕ → Transport → Option (Entry × IoChannel)
channel_at id t = elim (lookup id t.keys) [
  | none ↦ none
  | some e ↦ (elim e.channel [ none ↦ none | some c ↦ some (e, c) ])
]

abbrev pub set_channel : ℕ → Entry → IoChannel → Transport → Transport
set_channel id e c t = record t { keys = adjust id (record e { channel = some c }) t.keys }

-- A piece of data. Without a channel nothing happens: `healthy` is never true.
unfoldable pub deliver : ℕ → Bytes → Transport → Transport
deliver id bs t = elim (channel_at id t) [
  | some (e, c) ↦ set_channel id e (pipe_bytes c bs) t
  | none ↦ t
]

-- A confirm command; an overflow closes the channel, which stays in the map.
unfoldable pub confirm_key : Transport → ℕ → ℕ → Bytes → Step
confirm_key t id val rest = elim (channel_at id t) [
  | some (e, c) ↦
      (let (c', overflow) = confirm_channel c val in
        if overflow
        then closes id (set_channel id e (close_channel c') t) rest
        else goes (set_channel id e c' t) rest)
  | none ↦ closes id t rest
]

unfoldable pub write_done : Pieces Transport → Step
write_done (arrived t rest) = goes t rest
write_done (short t) = breaks t
write_done spins = stuck

unfoldable pub write_key : ℕ → Transport → ℕ → ℕ → Bytes → Step
write_key size_b t id size input =
    write_done (read_pieces (deliver id) (suc size) (piece_max size_b size) size t input)

unfoldable pub on_pong : Transport → ReadFull → Step
on_pong t (cut e) = breaks t
on_pong t (full bs rest) = goes (send (command_pong ∷ bs) t) rest

unfoldable pub on_create : Handed → Transport → ReadFull → Step
on_create h t (cut e) = breaks t
on_create h t (full bs rest) = create_key h (uint (take 8 bs)) (uint (drop 8 bs)) t rest

unfoldable pub on_close : Transport → ReadFull → Step
on_close t (cut e) = breaks t
on_close t (full bs rest) = goes (close_key t (uint bs)) rest

unfoldable pub on_write : ℕ → Transport → ReadFull → Step
on_write size_b t (cut e) = breaks t
on_write size_b t (full bs rest) = write_key size_b t (uint (take 8 bs)) (uint (drop 8 bs)) rest

unfoldable pub on_confirm : Transport → ReadFull → Step
on_confirm t (cut e) = breaks t
on_confirm t (full bs rest) = confirm_key t (uint (take 8 bs)) (uint (drop 8 bs)) rest

-- The switch on the command.
unfoldable pub on_command : Handed → ℕ → Transport → ℕ → Bytes → Step
on_command h size_b t cmd input =
    if cmd == command_ping
    then goes t input
    else if cmd == command_pong
    then on_pong t (read_full 4 input)
    else if cmd == command_create
    then on_create h t (read_full 9 input)
    else if cmd == command_close
    then on_close t (read_full 8 input)
    else if cmd == command_write
    then on_write size_b t (read_full 10 input)
    else if cmd == command_confirm
    then on_confirm t (read_full 10 input)
    else breaks t

-- A round of the loop of `Serve`.
unfoldable pub step : Handed → ℕ → Transport → Bytes → Step
step h size_b t [] = breaks t
step h size_b t (cmd ∷ input) = on_command h size_b t cmd input

-- After the loop every channel is closed.
abbrev pub closed_value : Option IoChannel → Option IoChannel
closed_value none = none
closed_value (some c) = some (close_channel c)

abbrev pub closed_entry : Entry → Entry
closed_entry e = record e { channel = closed_value e.channel }

unfoldable pub clean_up : Transport → Transport
clean_up t = record t {
  keys = map (λ (p : ℕ × Entry). (p.0, closed_entry p.1)) t.keys;
  gone = true;
}

-- How `Serve` ends, `crashed` by a panic of the round that began in this state, or waits for ever in a
-- `sendClose`.
pub data Served : Type 0 where
  finished crashed hangs : Transport → Served

abbrev pub first_case : List Handed → Handed
first_case [] = received
first_case (h ∷ hs) = h

abbrev pub first_act : List (Transport → Transport) → Transport → Transport
first_act [] t = t
first_act (f ∷ fs) t = f t

-- `Serve`; `none` when the fuel runs out. Before each round the other goroutines act, by any change
-- of the state; each round has its case of `createResult`. A round takes a byte at least. `room n t` tells
-- if the queue of the writer has room sooner or later for a close frame, in the state `t` with `n` bytes
-- of input left, or the done signal is given then.
unfoldable pub serve :
    ℕ
    → List (Transport → Transport)
    → List Handed
    → ℕ
    → (ℕ → Transport → Bool)
    → Transport
    → Bytes
    → Option Served
serve zero acts hs size_b room t input = none
serve (suc fuel) acts hs size_b room t input =
    elim (step (first_case hs) size_b (first_act acts t) input) [
      | goes t' rest ↦ serve fuel (drop 1 acts) (drop 1 hs) size_b room t' rest
      | closes id t' rest ↦
          (let more =
              serve fuel (drop 1 acts) (drop 1 hs) size_b room (send (close_frame id) t') rest in
            if t'.gone || room (length rest) t' then more else some (hangs t'))
      | breaks t' ↦ some (finished (clean_up t'))
      | panics ↦ some (crashed (first_act acts t))
      | stuck ↦ none
    ]

-- `delete(c)`, as it is when its `sendClose` returns: only where the entry still holds the same channel.
unfoldable pub delete : Transport → IoChannel → Transport
delete t c = elim (channel_at c.id t) [
  | some (e, d) ↦
      (if d.handle == c.handle
        then send (close_frame c.id) (record t { keys = erase c.id t.keys })
        else t)
  | none ↦ t
]

-- The end of `Create`, by the case of its last select.
pub data Waited : Type 0 where
  ctx_ended client_done : Waited
  answered : Answer → Waited

pub data Created : Type 0 where
  cancelled client_closed id_exists too_many : Created
  unknown_error : ℕ → Created
  conn : Option IoChannel → Created

unfoldable pub created : Answer → Created
created a =
    if a.code == 0
    then conn a.value
    else if a.code == 1
    then id_exists
    else if a.code == 2
    then too_many
    else unknown_error a.code

unfoldable pub create_end : Waited → Created
create_end ctx_ended = cancelled
create_end client_done = client_closed
create_end (answered a) = created a
