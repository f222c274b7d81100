-- ===== src/Channel.antt =====
-- channel.go: one channel of a tcp chain. A channel's data go out in frames that stay within the
-- window of the other end; what its owner has read is confirmed to the other end in batches.
pub mod Window
pub mod Frames
pub mod Confirming
pub mod Deadline
mod Tests
use httpadapter.Common.{
  ℕ, zero, suc, ◌+◌, ◌-◌, ◌/◌, ◌%◌, ◌^◌, min, List, [], ◌∷◌, ◌++◌, Bool, true, false, not, ◌&&◌,
  Option, none, some, length, take, drop, ltb, leb, ◌==◌, if◌then◌else◌,
}
use httpadapter.Common.Bytes.{Bytes, put_uint}
use httpadapter.Core.Protocol.{command_write, command_confirm}
use httpadapter.Core.Hello.{max_uint16}

-- uint64 arithmetic.
abbrev pub add64 : ℕ → ℕ → ℕ
add64 a b = (a + b) % 2 ^ 64

abbrev pub sub64 : ℕ → ℕ → ℕ
sub64 a b = (a + 2 ^ 64 - b) % 2 ^ 64

-- What `Serve` keeps: the data that it has still to send, and how much of what it has sent is not
-- yet confirmed.
pub record Sender : Type 0 where
  pub pending : Bytes
  pub writed : ℕ

-- `data`: the command, the channel and the length, and the bytes.
unfoldable pub write_frame : ℕ → Bytes → Bytes
write_frame id bs = command_write ∷ (put_uint 8 id ++ (put_uint 2 (length bs) ++ bs))

-- The size of the next frame: what is pending, at most what the window allows and what 16 bits
-- count. It is 0 where the inner loop ends.
unfoldable pub chunk : ℕ → Sender → ℕ
chunk remote_window s =
    let available = sub64 remote_window s.writed in
    let size = length s.pending in
    let size' = (if ltb available size then available else size) in
    if ltb max_uint16 size' then max_uint16 else size'

-- The sender after a frame of `n` bytes.
unfoldable pub advance : ℕ → Sender → Sender
advance n s = record { pending = drop n s.pending; writed = add64 s.writed n }

-- How the inner loop ended: the payloads that went out, the sender, and whether a done signal
-- stopped it.
pub record Sent : Type 0 where
  pub payloads : List Bytes
  pub sender : Sender
  pub stopped : Bool

abbrev pub ahead : Bytes → Sent → Sent
ahead bs r = record r { payloads = bs ∷ r.payloads }

-- `for size != 0`. The number is how many frames the writer takes before the transport or the
-- channel is done.
unfoldable pub send_loop : ℕ → ℕ → Sender → Sent
send_loop zero remote_window s = record {
  payloads = [];
  sender = s;
  stopped = not (chunk remote_window s == 0);
}
send_loop (suc takes) remote_window s =
    let n = chunk remote_window s in
    let rest = send_loop takes remote_window (advance n s) in
    if n == 0
    then record { payloads = []; sender = s; stopped = false }
    else ahead (take n s.pending) rest

-- What the select of `choose` takes.
pub data Choice : Type 0 where
  done : Choice
  gets : Bytes → Choice
  confirms : ℕ → Choice
  passes : Choice

-- `choose(b, writed)`: the data, the confirmation and the exit flag; `none` where the select has no
-- such case.
unfoldable pub choose : ℕ → Sender → Choice → Option (Bytes × ℕ × Bool)
choose remote_window s done = some (s.pending, 0, true)
choose remote_window s (gets bs) = if length s.pending == 0 then some (bs, 0, false) else none
choose remote_window s (confirms n) = some (s.pending, n, false)
choose remote_window s passes =
    if length s.pending == 0
    then none
    else if sub64 remote_window s.writed == 0
    then none
    else some (s.pending, 0, false)

-- A round of the outer loop: it waits where the select has no such case, ends, or goes on.
pub data Round : Type 0 where
  waits : Round
  ends : List Bytes → Round
  goes : List Bytes → Sender → Round

-- The inner loop and what it decides.
unfoldable pub send_round : ℕ → ℕ → Sender → Round
send_round takes remote_window s =
    let r = send_loop takes remote_window s in
    if r.stopped then ends r.payloads else goes r.payloads r.sender

-- The test of the confirmation.
unfoldable pub confirm_round : ℕ → ℕ → Bytes → ℕ → ℕ → Round
confirm_round takes remote_window bs writed n =
    if ltb writed n
    then ends []
    else send_round takes remote_window (record { pending = bs; writed = sub64 writed n })

unfoldable pub round : ℕ → ℕ → Sender → Choice → Round
round takes remote_window s c = elim (choose remote_window s c) [
  | none ↦ waits
  | some (bs, n, exit) ↦ if exit then ends [] else confirm_round takes remote_window bs s.writed n
]

-- `Serve` so far: the payloads sent, and, for the record, the data taken from `c.write` and the
-- confirmations taken from `c.confirm`.
pub record Serving : Type 0 where
  pub sender : Sender
  pub sent : List Bytes
  pub ended : Bool
  pub taken : Bytes
  pub confirmed : ℕ

abbrev pub start_serving : Serving
start_serving = record {
  sender = record { pending = []; writed = 0 };
  sent = [];
  ended = false;
  taken = [];
  confirmed = 0;
}

-- What a case of the select brings.
abbrev pub brought : Choice → Bytes × ℕ
brought done = ([], 0)
brought (gets bs) = (bs, 0)
brought (confirms n) = ([], n)
brought passes = ([], 0)

abbrev pub after_round : Serving → Choice → Round → Serving
after_round st c waits = st
after_round st c (ends payloads) = record st {
  sent = st.sent ++ payloads;
  ended = true;
  taken = st.taken ++ (brought c).0;
  confirmed = st.confirmed + (brought c).1;
}
after_round st c (goes payloads s) = record {
  sender = s;
  sent = st.sent ++ payloads;
  ended = st.ended;
  taken = st.taken ++ (brought c).0;
  confirmed = st.confirmed + (brought c).1;
}

-- `Serve`: the select and the inner loop, again and again; each round has its case of the select and
-- the number of frames that the writer takes.
unfoldable pub serve : ℕ → List (ℕ × Choice) → Serving → Serving
serve remote_window [] st = st
serve remote_window ((takes, c) ∷ rest) st =
    let next =
      serve remote_window rest (after_round st c (round takes remote_window st.sender c)) in
    if st.ended then st else next

-- `Confirm(val)`: the slot of the channel `c.confirm`, which holds one number, and the overflow flag.
-- `gone`: the select takes a done signal. The loop runs once more at most, since it then finds the
-- slot empty.
unfoldable pub confirm : Bool → ℕ → Option ℕ → ℕ → Option ℕ × Bool
confirm true remote_window slot val = (slot, false)
confirm false remote_window none val = (some val, false)
confirm false remote_window (some old) val =
    if leb remote_window (add64 val old) then (none, true) else (some (add64 val old), false)

-- `serveConfirm`: the numbers of the queue that are added before the batch goes out, and the rest.
unfoldable pub gather : ℕ → ℕ → List ℕ → ℕ × List ℕ
gather window confirmed [] = (confirmed, [])
gather window confirmed (n ∷ queue) =
    let more = gather window (add64 confirmed n) queue in
    if ltb confirmed window then more else (confirmed, n ∷ queue)

-- `ok`, the number of the next confirm frame.
unfoldable pub next_count : ℕ → ℕ
next_count confirmed = if ltb max_uint16 confirmed then max_uint16 else confirmed

-- `for confirmed != 0`: the numbers of the confirm frames; `none` when the fuel runs out.
unfoldable pub split_confirmed : ℕ → ℕ → Option (List ℕ)
split_confirmed zero confirmed = none
split_confirmed (suc fuel) confirmed =
    let rest = split_confirmed fuel (confirmed - next_count confirmed) in
    if confirmed == 0
    then some []
    else elim rest [ none ↦ none | some ns ↦ some (next_count confirmed ∷ ns) ]

unfoldable pub confirm_frame : ℕ → ℕ → Bytes
confirm_frame id n = command_confirm ∷ (put_uint 8 id ++ put_uint 2 n)

-- A round of `serveConfirm` on a queue that is not empty: the numbers confirmed, and the queue left.
unfoldable pub confirm_batch : ℕ → ℕ → List ℕ → Option (List ℕ) × List ℕ
confirm_batch remote_window first queue =
    let (confirmed, left) = gather (remote_window / 3) first queue in
    (split_confirmed (suc confirmed) confirmed, left)

-- `Close`: the closed flag and the error.
pub data ChannelError : Type 0 where
  channel_closed tcp_closed deadline_exceeded : ChannelError

unfoldable pub close : Bool → Bool × Option ChannelError
close closed = if closed then (true, some channel_closed) else (true, none)

-- The deadlines of a channel. A time is a number, and 0 is Go's zero time, before all others.
pub record Deadlines : Type 0 where
  pub both : Option ℕ
  pub reading : Option ℕ
  pub writing : Option ℕ

-- `SetDeadline`, `SetReadDeadline` and `SetWriteDeadline` on an open channel.
pub data Setter : Type 0 where
  set_deadline set_read_deadline set_write_deadline : Setter

unfoldable pub set : Setter → Bool → ℕ → Deadlines → Deadlines × Option ChannelError
set which true t d = (d, some channel_closed)
set set_deadline false t d = (record d { both = some t }, none)
set set_read_deadline false t d = (record d { reading = some t }, none)
set set_write_deadline false t d = (record d { writing = some t }, none)

-- The deadline that `Write` goes by.
unfoldable pub write_deadline : Deadlines → ℕ
write_deadline d =
    let deadline : ℕ = elim d.both [ none ↦ 0 | some t ↦ t ] in
    elim d.writing [ none ↦ deadline | some t ↦ if ltb t deadline then t else deadline ]

-- What the select of `Write` takes.
pub data Wait : Type 0 where
  transport_done channel_done accepted fires : Wait

-- `Write(b)` with `len(b) = size` at the time `now`: the count and the error; `none` where the
-- select has no such case, since there is no timer.
unfoldable pub write : Deadlines → ℕ → ℕ → Wait → Option (ℕ × Option ChannelError)
write d now size w =
    let deadline = write_deadline d in
    let timed = not (deadline == 0) in
    if timed && not (ltb now deadline) then some (0, some deadline_exceeded) else elim w [
      | transport_done ↦ some (0, some tcp_closed)
      | channel_done ↦ some (0, some channel_closed)
      | accepted ↦ some (size, none)
      | fires ↦ if timed then some (0, some deadline_exceeded) else none
    ]
