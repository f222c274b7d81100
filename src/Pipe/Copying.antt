-- ===== src/Pipe/Copying.antt =====
-- pipe/io.go: `Copy`, from one connection to another.
pub mod InOrder
mod Tests
use httpadapter.Common.{ℕ, Option, none, some, List, [], ◌∷◌, ◌++◌, take}
use httpadapter.Common.Bytes.{Bytes}

-- What a `Read` returns: bytes, or an error with the bytes that come with it.
pub data Read : Type 0 where
  gives fails : Bytes → Read

pub data End : Type 0 where
  source destination : End

-- `out` is what the destination took, `takes` tells how each `Write` to come ends: `some n` is an error
-- after `n` bytes. `closed` are the ends that were closed, the first one first; there are three seconds
-- between them.
pub record Ends : Type 0 where
  pub out : Bytes
  pub takes : List (Option ℕ)
  pub closed : List End

-- How `Copy` stands: it waits for the source, or has returned the error of a read or of a write.
pub data Copied : Type 0 where
  waits read_error write_error : Copied

abbrev pub close_both : End → End → Ends → Ends
close_both a b s = record s { closed = s.closed ++ (a ∷ b ∷ []) }

-- A write, after which the loop goes on with `next`.
abbrev pub write_then : (Ends → Copied × Ends) → Bytes → List (Option ℕ) → Ends → Copied × Ends
write_then next b (none ∷ more) s = next (record s { out = s.out ++ b; takes = more })
write_then next b (some n ∷ more) s = (
  write_error,
  close_both destination source (record s { out = s.out ++ take n b; takes = more }),
)
write_then next b [] s = (write_error, close_both destination source s)

unfoldable pub copy : List Read → Ends → Copied × Ends
copy [] s = (waits, s)
copy (fails b ∷ rs) s = (read_error, close_both source destination s)
copy (gives b ∷ rs) s = write_then (λ r. copy rs r) b s.takes s
