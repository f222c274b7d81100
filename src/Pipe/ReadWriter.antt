-- ===== src/Pipe/ReadWriter.antt =====
-- pipe/read_writer.go: a ring buffer over a byte slice. A method returns the new state beside the
-- results of the Go method. The children prove what a client may rely on.
mod Copy
pub mod Contents
pub mod Write
pub mod Read
use httpadapter.Common.{
  ℕ, zero, suc, ◌+◌, ◌-◌, ◌%◌, min, Option, none, some, List, [], ◌∷◌, ◌++◌, ◌||◌, length, take,
  drop, ltb, ◌==◌, if◌then◌else◌,
}
use httpadapter.Common.Bytes.{Bytes, copy_into}

pub data ReadWriterError : Type 0 where
  write_overflow eof : ReadWriterError

pub record ReadWriter : Type 0 where
  pub buffer : Bytes
  pub offset : ℕ
  pub size : ℕ

unfoldable pub new_read_writer : Bytes → ReadWriter
new_read_writer buffer = record { buffer = buffer; offset = 0; size = 0 }

unfoldable pub clear : ReadWriter → ReadWriter
clear r = record r { offset = 0; size = 0 }

unfoldable pub len : ReadWriter → ℕ
len r = r.size

unfoldable pub available : ReadWriter → ℕ
available r = length r.buffer - r.size

-- What `copy(dst[i:], src)` leaves in `dst`.
unfoldable pub copy_at : Bytes → ℕ → Bytes → Bytes
unfolding copy_into
copy_at dst zero src = copy_into dst src
copy_at [] (suc i) src = []
copy_at (d ∷ ds) (suc i) src = d ∷ copy_at ds i src

-- What `copy(dst[i:], src)` returns.
abbrev copied : Bytes → ℕ → Bytes → ℕ
copied dst i src = min (length dst - i) (length src)

-- The two copies of `Write`: up to the end of the buffer, and the rest from its start.
unfoldable pub store : ReadWriter → Bytes → ℕ × Option ReadWriterError × ReadWriter
unfolding copy_at
store r b =
    let i = (r.offset + r.size) % length r.buffer in
    let n = copied r.buffer i b in
    let buffer = copy_at r.buffer i b in
    let n' = n + copied buffer 0 (drop n b) in
    (n', none, record r { buffer = copy_at buffer 0 (drop n b); size = r.size + n' })

unfoldable pub write : ReadWriter → Bytes → ℕ × Option ReadWriterError × ReadWriter
write r b =
    if length b == 0
    then (0, none, r)
    else if ltb (length r.buffer - r.size) (length b)
    then (0, some write_overflow, r)
    else store r b

-- `rw.read(b)` with `len(b) = k`: the bytes that it puts into `b`.
unfoldable pub read_part : ReadWriter → ℕ → Bytes × ReadWriter
read_part r k =
    let capacity = length r.buffer in
    let n = min k (min (r.offset + r.size) capacity - r.offset) in
    (
      take n (drop r.offset r.buffer),
      record r { size = r.size - n; offset = (r.offset + n) % capacity },
    )

-- The loop of `Read`; `none` when the fuel runs out.
unfoldable pub read_loop : ℕ → ReadWriter → ℕ → Option (Bytes × ReadWriter)
unfolding read_part
read_loop zero r k = none
read_loop (suc fuel) r k =
    let (bs, r') = read_part r k in
    let rest = read_loop fuel r' (k - length bs) in
    if r.size == 0 || k == 0
    then some ([], r)
    else elim rest [ none ↦ none | some (more, last) ↦ some (bs ++ more, last) ]

-- `Read(b)` with `len(b) = k`. Each round of the loop reads a byte at least, so `k + 1` rounds do.
unfoldable pub read : ReadWriter → ℕ → Option (Bytes × Option ReadWriterError × ReadWriter)
read r k =
    if r.size == 0
    then some ([], some eof, r)
    else elim (read_loop (suc k) r k) [ none ↦ none | some (bs, r') ↦ some (bs, none, r') ]
