-- ===== src/Flow/Tests.antt =====
-- Runs of a flow on small inputs.
use httpadapter.Common.{◌≤◌, ◌≡◌, refl, false, List, [], ◌∷◌, ◌++◌, arith}
use httpadapter.Common.Bytes.{Bytes, copy_into}
use httpadapter.Channel.{
  round, choose, confirm_round, send_round, send_loop, chunk, advance, confirm_batch, gather,
  split_confirmed, next_count, confirm,
}
use httpadapter.Pipe.ReadWriter
use httpadapter.Pipe.ReadWriter.{new_read_writer}
use httpadapter.Pipe.PipeReader
use httpadapter.Pipe.PipeReader.{new_pipe_reader, take_bytes, read_check, read_start}
use httpadapter.Pipe.ReadWriter.Contents.{contents}
use httpadapter.Flow.{
  start, Event, writes, confirmed, delivers, reads, batches, arrives, step, serve, take_slot,
  deliver, run,
}
use httpadapter.Flow.Account.{load}
use httpadapter.Flow.Safe.{flow_safe}
use httpadapter.Flow.Progress.{quiet_means_done}

-- Three bytes go through a window of two.
abbrev events : List Event
events =
    writes 9 (7 ∷ 8 ∷ 9 ∷ [])
    ∷ delivers 2
    ∷ reads 5
    ∷ batches
    ∷ arrives
    ∷ confirmed 9
    ∷ delivers 4
    ∷ []

flow_safe_example :
    let st = run 2 6 (start 2) events in
    (st.failed ≡ false)
    × (load st ≤ 2)
    × ((unsent : Bytes) × (st.got ++ (contents st.pipe.rw ++ (st.wire ++ unsent)) ≡ st.taken)
        × (st.ended ≡ false → unsent ≡ st.sender.pending))
flow_safe_example = flow_safe 2 6 events (omega arith)

abbrev all_events : List Event
all_events = events ++ reads 5 ∷ batches ∷ arrives ∷ confirmed 9 ∷ []

quiet_means_done_example : let st = run 2 6 (start 2) all_events in st.got ≡ st.taken
unfolding run step serve take_slot deliver round choose confirm_round send_round send_loop chunk
    advance confirm_batch gather split_confirmed next_count confirm new_pipe_reader new_read_writer
    ReadWriter.write ReadWriter.store ReadWriter.read ReadWriter.read_loop ReadWriter.read_part
    ReadWriter.copy_at PipeReader.write take_bytes read_check read_start copy_into
quiet_means_done_example =
    quiet_means_done 2 6 all_events (omega arith) (omega arith) refl refl (record {
      no_data = refl;
      all_read = refl;
      reported = refl;
      answered = refl;
      counted = refl;
      stuck = refl;
    })
