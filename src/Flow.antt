-- ===== src/Flow.antt =====
-- The two ends of one direction of a channel: `ioChannel.Serve` at the end that writes; the pipe,
-- `Read` and `serveConfirm` at the end that reads; and what is between them on the tcp chain, which
-- keeps the order of the bytes. The steps of the ends come in any order.
pub mod Account
pub mod Safe
pub mod Progress
mod Tests
use httpadapter.Common.{
  ℕ, ◌+◌, List, [], ◌∷◌, ◌++◌, Bool, true, false, ◌||◌, Option, none, some, length, take, drop,
  flatten, ◌==◌, if◌then◌else◌,
}
use httpadapter.Common.Bytes.{Bytes}
use httpadapter.Pipe.PipeReader
use httpadapter.Pipe.PipeReader.{
  PipeReader, PipeError, new_pipe_reader, Attempt, returned, waits, diverges, read_start,
  read_resume,
}
use httpadapter.Channel
use httpadapter.Channel.{
  Sender, Choice, gets, confirms, passes, Round, ends, goes, round, brought, confirm_batch,
}

-- `wire`: the data in write commands on their way. `queue`: the channel `sendConfirm`. `back`: the
-- numbers of the confirm commands on their way. `slot`: the number in `c.confirm`. `failed`: a `Write`
-- on the pipe returned an error. For the record, `taken` is what the writer's `Write` accepted, `got`
-- what `Read` returned, `lost` the confirmations that an overflow dropped.
pub record Flow : Type 0 where
  pub sender : Sender
  pub ended : Bool
  pub wire : Bytes
  pub pipe : PipeReader
  pub failed : Bool
  pub queue : List ℕ
  pub back : List ℕ
  pub slot : Option ℕ
  pub overflow : Bool
  pub taken : Bytes
  pub got : Bytes
  pub lost : ℕ

abbrev pub start : ℕ → Flow
start window = record {
  sender = record { pending = []; writed = 0 };
  ended = false;
  wire = [];
  pipe = new_pipe_reader window;
  failed = false;
  queue = [];
  back = [];
  slot = none;
  overflow = false;
  taken = [];
  got = [];
  lost = 0;
}

-- What happens next. Of `writes` and `resends` the number is how many frames the transport's writer
-- takes; `delivers n` is a piece of `n` bytes that the other transport reads.
pub data Event : Type 0 where
  writes : ℕ → Bytes → Event
  resends : ℕ → Event
  confirmed : ℕ → Event
  delivers : ℕ → Event
  reads : ℕ → Event
  resumes : ℕ → Event
  batches : Event
  arrives : Event

-- A round of `Serve`.
abbrev pub after_round : Flow → Choice → Round → Flow
after_round st c Round.waits = st
after_round st c (ends ps) = record st {
  ended = true;
  wire = st.wire ++ flatten ps;
  taken = st.taken ++ (brought c).0;
}
after_round st c (goes ps s) = record st {
  sender = s;
  wire = st.wire ++ flatten ps;
  taken = st.taken ++ (brought c).0;
}

unfoldable pub serve : ℕ → ℕ → Choice → Flow → Flow
serve window takes c st = if st.ended then st else after_round st c (round takes window st.sender c)

-- The select of `choose` takes the number in the slot.
unfoldable pub take_slot : ℕ → ℕ → Flow → Flow
take_slot window takes st = elim st.slot [
  | none ↦ st
  | some n ↦
      if st.ended
      then st
      else after_round (record st { slot = none }) (confirms n)
          (round takes window st.sender (confirms n))
]

-- `Pipe(b)`
abbrev pub after_write : Flow → ℕ × Option PipeError × PipeReader → Flow
after_write st (n, none, p) = record st { pipe = p }
after_write st (n, some e, p) = record st { pipe = p; failed = true }

unfoldable pub deliver : ℕ → Flow → Flow
deliver n st =
    after_write (record st { wire = drop n st.wire }) (PipeReader.write st.pipe (take n st.wire))

-- `Read(b)`: what it returns is reported to `serveConfirm`, unless it is nothing.
abbrev pub reported : List ℕ → ℕ → List ℕ
reported queue n = if n == 0 then queue else queue ++ n ∷ []

abbrev pub after_read : Flow → Attempt × PipeReader → Flow
after_read st (returned bs e, p) = record st {
  pipe = p;
  got = st.got ++ bs;
  queue = reported st.queue (length bs);
}
after_read st (waits, p) = record st { pipe = p }
after_read st (diverges, p) = record st { failed = true }

-- A round of `serveConfirm`, where something is in its queue.
abbrev pub after_batch : Flow → Option (List ℕ) × List ℕ → Flow
after_batch st (none, left) = record st { failed = true }
after_batch st (some ns, left) = record st { back = st.back ++ ns; queue = left }

abbrev pub batch : ℕ → Flow → List ℕ → Flow
batch reverse_window st [] = st
batch reverse_window st (n ∷ queue) = after_batch st (confirm_batch reverse_window n queue)

-- A confirm command arrives: `Confirm`.
abbrev pub slot_value : Option ℕ → ℕ
slot_value none = 0
slot_value (some n) = n

abbrev pub after_confirm : Flow → ℕ → Option ℕ × Bool → Flow
after_confirm st n (slot, false) = record st { slot = slot }
after_confirm st n (slot, true) = record st {
  slot = slot;
  overflow = true;
  lost = st.lost + (n + slot_value st.slot);
}

abbrev pub arrive : ℕ → Flow → List ℕ → Flow
arrive window st [] = st
arrive window st (n ∷ back) =
    after_confirm (record st { back = back }) n (Channel.confirm false window st.slot n)

-- `window` is that of the end that reads, `reverse_window` that of the end that writes.
unfoldable pub step : ℕ → ℕ → Flow → Event → Flow
step window reverse_window st (writes takes bs) = serve window takes (gets bs) st
step window reverse_window st (resends takes) = serve window takes passes st
step window reverse_window st (confirmed takes) = take_slot window takes st
step window reverse_window st (delivers n) = deliver n st
step window reverse_window st (reads k) = after_read st (read_start st.pipe k)
step window reverse_window st (resumes k) = after_read st (read_resume st.pipe k)
step window reverse_window st batches = batch reverse_window st st.queue
step window reverse_window st arrives = arrive window st st.back

unfoldable pub run : ℕ → ℕ → Flow → List Event → Flow
run window reverse_window st [] = st
run window reverse_window st (e ∷ es) =
    run window reverse_window (step window reverse_window st e) es
