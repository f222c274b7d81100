-- ===== src/Flow/Progress.antt =====
-- A flow does not come to rest early.
use httpadapter.Common.{
  ℕ, ◌^◌, ◌<◌, ◌≡◌, sym, ap, ap₂, ◌∙◌, false, none, List, [], ◌++◌, append-nil, arith, length,
  empty_of_length,
}
use httpadapter.Pipe.ReadWriter.Contents.{contents, length-contents}
use httpadapter.Channel.{chunk}
use httpadapter.Channel.Window.{chunk_lem}
use httpadapter.Channel.Confirming.{sum}
use httpadapter.Flow.{Flow, start, Event, slot_value, run}
use httpadapter.Flow.Safe.{run-Balanced}

-- Nothing is on its way, unread or unconfirmed, and the sender may send nothing.
pub record IsQuiet (w : ℕ) (st : Flow) : Type 0 where
  pub no_data : st.wire ≡ []
  pub all_read : st.pipe.rw.size ≡ 0
  pub reported : st.queue ≡ []
  pub answered : st.back ≡ []
  pub counted : st.slot ≡ none
  pub stuck : chunk w st.sender ≡ 0

-- Flow control does not block: with a window that is not empty, and as long as the sender's loop runs
-- and no confirmations were dropped, the two ends come to rest only when everything that was written
-- has been read.
pub quiet_means_done :
    (w reverse_window : ℕ) (es : List Event)
    → 0 < w
    → w < 2 ^ 64
    → let st = run w reverse_window (start w) es in
      st.ended ≡ false → st.overflow ≡ false → IsQuiet w st → st.got ≡ st.taken
quiet_means_done w rev es pos small open_still none_lost q =
    let st = run w rev (start w) es in
    let v = run-Balanced w rev es small in
    let (left, order, same) = v.order in
    let idle : st.sender.writed ≡ 0 = omega (
      arith,
      v.exact open_still,
      v.clean none_lost,
      q.all_read,
      ap length q.no_data,
      ap sum q.reported,
      ap sum q.answered,
      ap slot_value q.counted,
    ) in
    let sent : length st.sender.pending ≡ 0 =
      omega (arith, chunk_lem w st.sender v.within, q.stuck, idle) in
    let no_left : left ≡ [] = same open_still ∙ empty_of_length st.sender.pending sent in
    let held : contents st.pipe.rw ≡ [] =
      empty_of_length (contents st.pipe.rw) (length-contents st.pipe.rw ∙ q.all_read) in
    sym (append-nil st.got)
    ∙ ap (◌++◌ st.got) (ap₂ ◌++◌ (sym held) (ap₂ ◌++◌ (sym q.no_data) (sym no_left)))
    ∙ order
