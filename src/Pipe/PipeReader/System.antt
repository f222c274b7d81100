-- ===== src/Pipe/PipeReader/System.antt =====
-- One pipe, the goroutines that read it, and a goroutine that closes it, in any interleaving of the
-- parts that the lock makes atomic.
use httpadapter.Common.{
  ℕ, zero, suc, Option, none, some, Bool, true, false, if◌then◌else◌, List, [], ◌∷◌, ◌++◌, take,
}
use httpadapter.Common.Bytes.{Bytes}
use httpadapter.Pipe.PipeReader.{
  PipeReader, PipeError, Attempt, returned, waits, diverges, mark_closed, broadcasts, write,
  read_start, read_resume,
}

-- `sleeping` and `woken` hold the buffer lengths of the readers inside `cond.Wait` and of those that
-- a broadcast has woken and that wait for the lock. `closing`: a `Close` has marked the pipe and not
-- yet taken the lock. `taken` and `accepted` record the bytes that reads returned and writes took.
pub record System : Type 0 where
  pub pipe : PipeReader
  pub sleeping : List ℕ
  pub woken : List ℕ
  pub closing : Bool
  pub taken : Bytes
  pub accepted : Bytes

pub data Event : Type 0 where
  reads : ℕ → Event
  writes : Bytes → Event
  marks : Event
  closes : Event
  resumes : ℕ → Event

abbrev pub initial : PipeReader → System
initial p = record {
  pipe = p;
  sleeping = [];
  woken = [];
  closing = false;
  taken = [];
  accepted = [];
}

-- The reader at place `i`, and the others.
unfoldable pub pick : ℕ → List ℕ → Option (ℕ × List ℕ)
pick i [] = none
pick zero (k ∷ ks) = some (k, ks)
pick (suc i) (k ∷ ks) = elim (pick i ks) [ none ↦ none | some (j, js) ↦ some (j, k ∷ js) ]

-- `cond.Broadcast`.
unfoldable pub wake : Bool → System → System
wake false s = s
wake true s = record s { sleeping = []; woken = s.sleeping ++ s.woken }

-- A reader with a buffer of `k` bytes after its part ran.
unfoldable pub attempted : System → ℕ → Attempt × PipeReader → System
attempted s k (returned bs e, p) = record s { pipe = p; taken = s.taken ++ bs }
attempted s k (waits, p) = record s { pipe = p; sleeping = k ∷ s.sleeping }
attempted s k (diverges, p) = s

-- A write that took bytes wakes the readers; one that failed does not.
unfoldable pub wrote : System → Bytes → ℕ × Option PipeError × PipeReader → System
wrote s b (n, none, p) =
    wake (broadcasts p) (record s { pipe = p; accepted = s.accepted ++ take n b })
wrote s b (n, some e, p) = record s { pipe = p }

-- The first `Close` goes on to take the lock; a later one returns.
unfoldable pub marked : System → Bool × PipeReader → System
marked s (true, p) = record s { pipe = p; closing = true }
marked s (false, p) = s

-- A woken reader goes on when it has the lock.
unfoldable pub resumed : System → Option (ℕ × List ℕ) → System
resumed s none = s
resumed s (some (k, others)) = attempted (record s { woken = others }) k (read_resume s.pipe k)

unfoldable pub step : System → Event → System
step s (reads k) = attempted s k (read_start s.pipe k)
step s (writes b) = wrote s b (write s.pipe b)
step s marks = marked s (mark_closed s.pipe)
step s closes = if s.closing then wake (broadcasts s.pipe) (record s { closing = false }) else s
step s (resumes i) = resumed s (pick i s.woken)

unfoldable pub run : System → List Event → System
run s [] = s
run s (e ∷ es) = run (step s e) es
