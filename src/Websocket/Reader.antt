-- ===== src/Websocket/Reader.antt =====
-- websocket.go: the reader of a message, and `ReadMessage`. The input is the bytes that arrive on
-- the channel before it ends.
pub mod Draining
pub mod Whole
pub mod Truncated
use httpadapter.Common.{
  ℕ, zero, suc, ◌+◌, ◌-◌, ◌*◌, List, [], ◌∷◌, ◌++◌, Option, none, some, length, take, drop, get_or,
  ◌==◌, if◌then◌else◌, min,
}
use httpadapter.Common.Bytes.{Bytes, uint}
use httpadapter.Common.Io.{
  IoError, eof, unexpected_eof, short_buffer, ReadFull, full, cut, read_full,
}

-- `websocketReader`: `limit` is what the `io.LimitedReader` in `r` has left, `last` the flag `b[0]`.
pub record Reader : Type 0 where
  pub input : Bytes
  pub limit : Option ℕ
  pub last : ℕ
  pub err : Option IoError

-- How the loop `for r.r == nil` ends: at a frame with data, or with an error.
pub data Framed : Type 0 where
  frame : ℕ → Reader → Framed
  failed : IoError → Reader → Framed
  spins : Framed

abbrev pub fail : IoError → Reader → Framed
fail e r = failed e (record r { err = some e })

abbrev pub on_size : (Reader → Framed) → ℕ → Reader → Framed
on_size next size r =
    let again = next r in
    if size == 0
    then if r.last == 0 then again else fail eof r
    else frame size (record r { limit = some size })

abbrev pub on_head : (Reader → Framed) → Reader → ReadFull → Framed
on_head next r (cut e) = fail e (record r { input = [] })
on_head next r (full b rest) =
    on_size next (uint (drop 1 b)) (record r { input = rest; last = get_or b 0 0 })

unfoldable pub next_frame : ℕ → Reader → Framed
next_frame zero r = spins
next_frame (suc fuel) r = on_head (λ s. next_frame fuel s) r (read_full 3 r.input)

-- The read from the limited reader that has `n` bytes left, where the connection gives at most `k`.
unfoldable pub read_chunk : ℕ → ℕ → Reader → Bytes × Option IoError × Reader
read_chunk k n r =
    if n == 0 then ([], some eof, r) else if length r.input == 0 then ([], some eof, r) else (
      take (min k n) r.input,
      none,
      record r {
        input = drop (min k n) r.input;
        limit = some (n - length (take (min k n) r.input));
      },
    )

-- What `Read` makes of it.
unfoldable pub after_chunk : Bytes × Option IoError × Reader → Bytes × Option IoError × Reader
after_chunk (bs, none, r) = (bs, none, r)
after_chunk (bs, some e, r) =
    if r.last == 0
    then (bs, none, record r { limit = none })
    else (bs, some e, record r { err = some e })

unfoldable pub read_framed : ℕ → Framed → Option (Bytes × Option IoError × Reader)
read_framed k spins = none
read_framed k (failed e r) = some ([], some e, r)
read_framed k (frame n r) = some (after_chunk (read_chunk k n r))

-- `Read`; a reader that has failed returns nothing and no error. Each round of its loop takes three
-- bytes.
unfoldable pub read : ℕ → Reader → Option (Bytes × Option IoError × Reader)
read k r = elim r.err [
  | some e ↦ some ([], none, r)
  | none ↦ (elim r.limit [
    | some n ↦ read_framed k (frame n r)
    | none ↦ read_framed k (next_frame (suc (length r.input)) r)
  ])
]

abbrev pub ahead :
    Bytes → Option (Bytes × Option IoError × Reader) → Option (Bytes × Option IoError × Reader)
ahead bs none = none
ahead bs (some (more, e, r)) = some (bs ++ more, e, r)

-- `io.ReadAll`: reads until an error, which is none of its own if it is `io.EOF`. The `i`-th read
-- is given one byte more than `sizes i`, at most; `none` when the fuel runs out.
abbrev pub ended : IoError → Option IoError
ended eof = none
ended unexpected_eof = some unexpected_eof
ended short_buffer = some short_buffer

abbrev pub go_on :
    Option (Bytes × Option IoError × Reader)
    → (Reader → Option (Bytes × Option IoError × Reader))
    → Option (Bytes × Option IoError × Reader)
go_on none more = none
go_on (some (bs, none, r)) more = ahead bs (more r)
go_on (some (bs, some e, r)) more = some (bs, ended e, r)

unfoldable pub read_all : ℕ → (ℕ → ℕ) → ℕ → Reader → Option (Bytes × Option IoError × Reader)
read_all zero sizes i r = none
read_all (suc fuel) sizes i r =
    go_on (read (suc (sizes i)) r) (λ r'. read_all fuel sizes (suc i) r')

-- `NextReader`: the type and the reader.
abbrev pub first_frame : ReadFull → Option (ℕ × Reader)
first_frame (cut e) = none
first_frame (full b rest) = some (
  get_or b 0 0,
  record { input = rest; limit = some (uint (drop 2 b)); last = get_or b 1 0; err = none },
)

unfoldable pub next_reader : Bytes → Option (ℕ × Reader)
next_reader input = first_frame (read_full 4 input)

-- What `ReadMessage` returns: the type, the data and the error, and what it leaves of the input.
pub data Message : Type 0 where
  no_message : Message
  message : ℕ → Bytes → Option IoError → Bytes → Message
  runs_on : Message

abbrev pub read_end : ℕ → Option (Bytes × Option IoError × Reader) → Message
read_end t none = runs_on
read_end t (some (bs, e, r)) = message t bs e r.input

-- `ReadMessage`. Two reads for each byte are enough.
abbrev pub read_from : (ℕ → ℕ) → ℕ → Option (ℕ × Reader) → Message
read_from sizes fuel none = no_message
read_from sizes fuel (some (t, r)) = read_end t (read_all fuel sizes 0 r)

unfoldable pub read_message : (ℕ → ℕ) → Bytes → Message
read_message sizes input = read_from sizes (suc (suc (2 * length input))) (next_reader input)
