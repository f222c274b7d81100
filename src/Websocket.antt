-- ===== src/Websocket.antt =====
-- websocket.go: the messages that the client writes to a channel that carries a websocket.
pub mod Frames
pub mod Messages
pub mod Reader
mod Tests
use httpadapter.Common.{
  ℕ, zero, suc, ◌+◌, ◌-◌, List, [], ◌∷◌, Bool, true, false, Option, none, some, length, take, drop,
  ltb, ◌==◌, if◌then◌else◌, ◌++◌,
}
use httpadapter.Common.Bytes.{Bytes, put_uint}
use httpadapter.Core.Hello.{max_uint16}

-- A connection: the bytes given to it, and how many more calls of `Write` it takes before it fails.
pub record Conn : Type 0 where
  pub out : Bytes
  pub takes : ℕ

-- `Write` on the connection, and if it did. A call that fails is taken to give nothing.
unfoldable pub put : Bytes → Conn → Bool × Conn
put b c =
    if c.takes == 0 then (false, c) else (true, record { out = c.out ++ b; takes = c.takes - 1 })

pub data WriterError : Type 0 where
  writer_closed conn_failed unknown_type : WriterError

-- `websocketWriter`. Its buffer `b` holds only what is written next.
pub record Writer : Type 0 where
  pub t : ℕ
  pub conn : Conn
  pub closed : Bool
  pub writerd : Bool
  pub err : Option WriterError

-- `NextWriter(t)`. `known` is the test against the message types of the websocket package.
unfoldable pub next_writer : (ℕ → Bool) → ℕ → Conn → Option Writer
next_writer known t c =
    if known t
    then some (record { t = t; conn = c; closed = false; writerd = false; err = none })
    else none

unfoldable pub close : Writer → Option WriterError × Writer
close w =
    if w.closed
    then (some writer_closed, record w { err = some writer_closed })
    else (none, record w { closed = true; conn = (put (1 ∷ put_uint 2 0) w.conn).1 })

unfoldable pub frame_size : Bytes → ℕ
frame_size b = if ltb max_uint16 (length b) then max_uint16 else length b

abbrev pub frame_head : ℕ → Bytes
frame_head size = 0 ∷ put_uint 2 size

-- The loop of `Write` on `b`, with `n` bytes written before; `none` when the fuel runs out.
unfoldable pub write_frames : ℕ → Bytes → ℕ → Conn → Option (ℕ × Bool × Conn)
write_frames zero b n c = none
write_frames (suc fuel) b n c =
    let size = frame_size b in
    let head = put (frame_head size) c in
    let body = put (take size b) head.1 in
    let more = write_frames fuel (drop size b) (n + size) body.1 in
    if length b == 0
    then some (n, true, c)
    else if head.0
    then if body.0 then more else some (n, false, body.1)
    else some (n, false, head.1)

-- What `Write` returns when its loop ended.
unfoldable pub write_end :
    Writer → Option (ℕ × Bool × Conn) → Option (ℕ × Option WriterError × Writer)
write_end w none = none
write_end w (some (n, true, c)) = some (n, none, record w { conn = c })
write_end w (some (n, false, c)) =
    some (n, some conn_failed, record w { conn = c; err = some conn_failed })

unfoldable pub write_body : Writer → Bytes → Option (ℕ × Option WriterError × Writer)
write_body w b = write_end w (write_frames (suc (length b)) b 0 w.conn)

-- What follows the write of the type of the message.
unfoldable pub write_after_type :
    Writer → Bytes → Bool × Conn → Option (ℕ × Option WriterError × Writer)
write_after_type w b (true, c) = write_body (record w { conn = c; writerd = true }) b
write_after_type w b (false, c) =
    some (0, some conn_failed, record w { conn = c; err = some conn_failed })

-- `Write` sends the type of the message once.
unfoldable pub write_first : Writer → Bytes → Option (ℕ × Option WriterError × Writer)
write_first w b = if w.writerd then write_body w b else write_after_type w b (put (w.t ∷ []) w.conn)

-- `Write(b)`. Each round of its loop takes a byte at least off `b`.
unfoldable pub write : Writer → Bytes → Option (ℕ × Option WriterError × Writer)
write w b = elim w.err [ some e ↦ some (0, some e, w) | none ↦ write_first w b ]

-- The end of `WriteMessage`: an error of `Write` leaves the writer open.
unfoldable pub close_after :
    Option (ℕ × Option WriterError × Writer) → Option (ℕ × Option WriterError × Conn)
close_after none = none
close_after (some (n, some e, w)) = some (n, some e, w.conn)
close_after (some (n, none, w)) = some (n, (close w).0, (close w).1.conn)

-- `WriteMessage(t, b)`; `WriteText` and `Write` of a `Websocket` are this with two of the types.
unfoldable pub write_message :
    (ℕ → Bool) → ℕ → Bytes → Conn → Option (ℕ × Option WriterError × Conn)
write_message known t b c = elim (next_writer known t c) [
  | none ↦ some (0, some unknown_type, c)
  | some w ↦ close_after (write w b)
]
