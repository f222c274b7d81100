-- ===== src/Relay.antt =====
-- server_handler.go: `readWS` and `writeWS`, which carry a message between the websocket of a backend
-- and a channel.
pub mod Session
pub mod Sending
pub mod ToBackend
pub mod ToClient
mod Tests
use httpadapter.Common.{
  ℕ, zero, suc, Bool, true, false, Option, none, some, List, [], ◌∷◌, ◌++◌, ◌==◌, if◌then◌else◌,
  length, get_or, take, drop,
}
use httpadapter.Common.Bytes.{Bytes, put_uint, uint}
use httpadapter.Common.Io.{ReadFull, full, cut, read_full}
use httpadapter.Websocket.{Conn, put}

-- A message of the backend: its type, what the reads return before the one that returns an error, and
-- the latter: the end of the message, with the bytes that come with it, or a failure.
pub data Ending : Type 0 where
  with_end : Bytes → Ending
  fails : Ending

pub record Incoming : Type 0 where
  pub t : ℕ
  pub pieces : List Bytes
  pub ending : Ending

-- What `readWS` and `writeWS` return: no error, or an error and `closed`.
pub data Relayed : Type 0 where
  goes_on : Relayed
  stops : Bool → Relayed

abbrev pub frame : ℕ → Bytes → Bytes
frame flag p = flag ∷ (put_uint 2 (length p) ++ p)

-- After the last write on the channel.
abbrev pub written : Bool × Conn → Relayed × Conn
written (true, c) = (goes_on, c)
written (false, c) = (stops true, c)

-- The loop of `readWS`.
unfoldable pub read_loop : List Bytes → Ending → Conn → Relayed × Conn
read_loop [] (with_end q) c = written (put (frame 1 q) c)
read_loop [] fails c = (stops false, c)
read_loop (p ∷ ps) e c =
    let more = read_loop ps e (put (frame 0 p) c).1 in
    if (put (frame 0 p) c).0 then more else (stops true, c)

-- `readWS`, on what `NextReader` returns. A message whose first read returns the end is skipped.
abbrev pub read_pieces : ℕ → List Bytes → Ending → Conn → Relayed × Conn
read_pieces t [] (with_end q) c = (goes_on, c)
read_pieces t [] fails c = (stops false, c)
read_pieces t (p ∷ ps) e c =
    if (put (t ∷ frame 0 p) c).0 then read_loop ps e (put (t ∷ frame 0 p) c).1 else (stops true, c)

unfoldable pub read_ws : Option Incoming → Conn → Relayed × Conn
read_ws none c = (stops false, c)
read_ws (some m) c = read_pieces m.t m.pieces m.ending c

-- The loop that calls `readWS` on one message after another; when there is none, `NextReader` fails. The
-- first component is `closed` at its end.
abbrev pub on_relayed : (Conn → Bool × Conn) → Relayed × Conn → Bool × Conn
on_relayed more (goes_on, c) = more c
on_relayed more (stops closed, c) = (closed, c)

unfoldable pub read_session : List Incoming → Conn → Bool × Conn
read_session [] c = on_relayed (λ d. (false, d)) (read_ws none c)
read_session (m ∷ ms) c = on_relayed (λ d. read_session ms d) (read_ws (some m) c)

-- How the websocket of the backend answers in a message: if `NextWriter` takes its type; if it takes some
-- bytes, behind those that it got of the message; and if `Close` ends it without an error.
pub record Writer : Type 0 where
  pub accepts : ℕ → Bool
  pub takes : ℕ → Bytes → Bytes → Bool
  pub ends : ℕ → Bytes → Bool

-- What `writeWS` does with a message for the backend: it relays it; it breaks off, where the channel ends
-- within a message, with what `Close`, which is deferred, ends; the message is refused, at a write or at its
-- end. `lost` is a type that `NextWriter` refuses.
pub data Outgoing : Type 0 where
  relayed : ℕ → Bytes → Bytes → Outgoing
  broken_off : ℕ → Bytes → Outgoing
  refused : ℕ → Bytes → Outgoing
  channel_ended lost runs_on : Outgoing

-- The copy of `p`, for which the frame has the length `l`.
abbrev pub copies : Writer → ℕ → Bytes → ℕ → Bytes → Bool
copies w t acc l p = if l == 0 then true else w.takes t acc p

abbrev pub on_frame : Writer → (Bool → Bytes → Bytes → Outgoing) → ℕ → Bytes → ReadFull → Outgoing
on_frame w more t acc (cut e) = broken_off t acc
on_frame w more t acc (full b rest) =
    let l = uint (drop 1 b) in
    let next = more (get_or b 0 0 == 1) (acc ++ take l rest) (drop l rest) in
    if copies w t acc l (take l rest) then next else refused t acc

-- The loop `for !end`, and the `Close` behind it; each round takes three bytes at least.
unfoldable pub copy_frames : ℕ → Writer → ℕ → Bool → Bytes → Bytes → Outgoing
copy_frames fuel w t true acc input = if w.ends t acc then relayed t acc input else refused t acc
copy_frames zero w t false acc input = runs_on
copy_frames (suc fuel) w t false acc input =
    on_frame w (λ last more rest. copy_frames fuel w t last more rest) t acc (read_full 3 input)

abbrev pub on_first : Writer → ReadFull → Outgoing
on_first w (cut e) = channel_ended
on_first w (full b rest) =
    let t = get_or b 0 0 in
    let l = uint (drop 2 b) in
    if w.accepts t
    then if copies w t [] l (take l rest)
      then copy_frames (suc (length rest)) w t (get_or b 1 0 == 1) (take l rest) (drop l rest)
      else refused t []
    else lost

unfoldable pub write_ws : Writer → Bytes → Outgoing
write_ws w input = on_first w (read_full 4 input)

-- How the loop that calls `writeWS` ends: with `closed` as given, or without fuel.
pub data Stopped : Type 0 where
  stopped : Bool → Stopped
  out_of_fuel : Stopped

-- The messages that the backend got to their end.
abbrev pub on_outgoing :
    Writer
    → (ℕ × Bytes → Bytes → List (ℕ × Bytes) × Stopped)
    → Outgoing
    → List (ℕ × Bytes) × Stopped
on_outgoing w more (relayed t b rest) = let later = more (t, b) rest in ((t, b) ∷ later.0, later.1)
on_outgoing w more (broken_off t b) = (if w.ends t b then (t, b) ∷ [] else [], stopped true)
on_outgoing w more (refused t b) = ([], stopped false)
on_outgoing w more channel_ended = ([], stopped true)
on_outgoing w more lost = ([], stopped false)
on_outgoing w more runs_on = ([], out_of_fuel)

-- `backend` tells how the websocket answers after the messages that it `got`.
unfoldable pub write_rounds :
    (List (ℕ × Bytes) → Writer) → ℕ → List (ℕ × Bytes) → Bytes → List (ℕ × Bytes) × Stopped
write_rounds backend zero got input = ([], out_of_fuel)
write_rounds backend (suc fuel) got input =
    on_outgoing (backend got) (λ m rest. write_rounds backend fuel (got ++ m ∷ []) rest)
      (write_ws (backend got) input)

-- The loop. Each message takes four bytes at least.
unfoldable pub write_session : (List (ℕ × Bytes) → Writer) → Bytes → List (ℕ × Bytes) × Stopped
write_session backend input = write_rounds backend (suc (length input)) [] input
