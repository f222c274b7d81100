-- ===== src/Flow/Safe.antt =====
-- What holds of a flow at every point.
use mathlib.Core.Bool.{false≢true}
use httpadapter.Common.{
  ℕ, ◌+◌, ◌^◌, ◌≤◌, ◌<◌, ◌≡◌, refl, sym, ap, subst, ◌∙◌, ◌≢◌, ◌⊎◌, inl, inr, Bool, true, false,
  Option, none, some, List, [], ◌∷◌, ◌++◌, arith, ltb, leb, if◌then◌else◌, Bool-cases, Option-cases,
  replicate, length-replicate,
}
use httpadapter.Common.Bytes.{Bytes}
use httpadapter.Pipe.ReadWriter.Contents.{contents, new_read_writer-IsValid}
use httpadapter.Pipe.PipeReader.{new_pipe_reader}
use httpadapter.Pipe.ReadWriter.{new_read_writer}
use httpadapter.Channel
use httpadapter.Channel.{
  Choice, gets, confirms, passes, Round, confirm_round, send_round, round, choose, confirm_batch,
  brought,
}
use httpadapter.Channel.Frames.{round-Rounds}
use httpadapter.Channel.Confirming.{sum, confirm_batch_complete}
use httpadapter.Flow.{
  Flow, start, Event, writes, resends, confirmed, delivers, reads, resumes, batches, arrives,
  after_round, serve, take_slot, after_batch, batch, slot_value, after_confirm, arrive, step, run,
}
use httpadapter.Flow.Account.{
  load, Balanced, after_round-Balanced, deliver-Balanced, read_start-Balanced, read_resume-Balanced,
  sum-append,
}

if-Balanced :
    (w : ℕ) (b : Bool) (x y : Flow)
    → (b ≡ true → Balanced w 0 x)
    → (b ≡ false → Balanced w 0 y)
    → Balanced w 0 (if b then x else y)
if-Balanced w true x y h h' = h refl
if-Balanced w false x y h h' = h' refl

serve-Balanced :
    (w takes : ℕ) (c : Choice) (st : Flow)
    → (brought c).1 ≡ 0
    → Balanced w 0 st
    → Balanced w 0 (serve w takes c st)
unfolding serve
serve-Balanced w takes c st e v =
    if-Balanced w st.ended st _ (λ h. v)
      (λ h.
        after_round-Balanced w st c (subst (λ n. Balanced w n st) (sym e) v) h (inl e)
          (round-Rounds takes w st.sender c v.within))

if-ne-waits :
    (b : Bool) (x y : Round)
    → x ≢ Round.waits
    → y ≢ Round.waits
    → (if b then x else y) ≢ Round.waits
if-ne-waits true x y h h' = h
if-ne-waits false x y h h' = h'

send_round-ne-waits : (takes w : ℕ) (s : Channel.Sender) → send_round takes w s ≢ Round.waits
unfolding send_round
send_round-ne-waits takes w s =
    let r = Channel.send_loop takes w s in
    if-ne-waits r.stopped (Channel.ends r.payloads) (Channel.goes r.payloads r.sender) (λ e. cc)
      (λ e. cc)

confirms-ne-waits :
    (takes w n : ℕ) (s : Channel.Sender) → round takes w s (confirms n) ≢ Round.waits
unfolding round choose confirm_round
confirms-ne-waits takes w n s =
    if-ne-waits (ltb s.writed n) (Channel.ends []) _ (λ e. cc) (send_round-ne-waits takes w _)

slot_taken-Balanced :
    (w n : ℕ) (st : Flow)
    → st.slot ≡ some n
    → Balanced w 0 st
    → Balanced w n (record st { slot = none })
slot_taken-Balanced w n st e v = record {
  within = v.within;
  valid = v.valid;
  capacity = v.capacity;
  open_pipe = v.open_pipe;
  fine = v.fine;
  clean = v.clean;
  order = v.order;
  bounded = omega (arith, v.bounded, ap slot_value e);
  exact = λ h. omega (arith, v.exact h, ap slot_value e);
}

take_slot-Balanced :
    (w takes : ℕ) (st : Flow) → Balanced w 0 st → Balanced w 0 (take_slot w takes st)
unfolding take_slot
take_slot-Balanced w takes st v =
    let taken : ℕ → Flow = λ n.
      if st.ended
      then st
      else after_round (record st { slot = none }) (confirms n)
          (round takes w st.sender (confirms n)) in
    let P : Option ℕ → Type 0 = λ o. Balanced w 0 (elim o [ none ↦ st | some n ↦ taken n ]) in
    elim (Option-cases st.slot) [
      | inl e ↦ subst P (sym e) v
      | inr (n, e) ↦ subst P (sym e) (
          if-Balanced w st.ended st _ (λ h. v)
            (λ h.
              after_round-Balanced w (record st { slot = none }) (confirms n)
                (slot_taken-Balanced w n st e v) h (inr (confirms-ne-waits takes w n st.sender))
                (round-Rounds takes w st.sender (confirms n) v.within)))
    ]

batch-Balanced :
    (w reverse_window : ℕ) (st : Flow) (queue : List ℕ)
    → st.queue ≡ queue
    → Balanced w 0 st
    → Balanced w 0 (batch reverse_window st queue)
batch-Balanced w reverse_window st [] e v = v
batch-Balanced w reverse_window st (n ∷ queue) e v =
    let small : n + sum queue < 2 ^ 64 = omega (arith, ap sum e, v.bounded, v.within.word) in
    let (ns, f, total, counts) = confirm_batch_complete reverse_window n queue small in
    let left = (confirm_batch reverse_window n queue).1 in
    subst (λ o. Balanced w 0 (after_batch st o)) (sym (λ i. (f i, left)))
      (record {
        within = v.within;
        valid = v.valid;
        capacity = v.capacity;
        open_pipe = v.open_pipe;
        fine = v.fine;
        clean = v.clean;
        order = v.order;
        bounded = omega (arith, v.bounded, ap sum e, total, sum-append st.back ns);
        exact = λ h. omega (arith, v.exact h, ap sum e, total, sum-append st.back ns);
      })

-- `Confirm` on a slot that holds a number.
confirm-some :
    (w old n : ℕ)
    → n + old ≤ w
    → w < 2 ^ 64
    → (Channel.confirm false w (some old) n ≡ (none, true))
      ⊎ (Channel.confirm false w (some old) n ≡ (some (n + old), false))
unfolding Channel.confirm
confirm-some w old n h small =
    let e : Channel.add64 n old ≡ n + old = omega arith in
    elim (Bool-cases (leb w (Channel.add64 n old))) [
      | inl over ↦ inl (rw over refl)
      | inr below ↦ inr (rw below (ap (λ (k : ℕ). (some k, false)) e))
    ]

arrive-Balanced :
    (w : ℕ) (st : Flow) (back : List ℕ)
    → st.back ≡ back
    → Balanced w 0 st
    → Balanced w 0 (arrive w st back)
unfolding Channel.confirm
arrive-Balanced w st [] e v = v
arrive-Balanced w st (n ∷ back) e v = elim (Option-cases st.slot) [
  | inl f ↦
      subst
        (λ o.
          Balanced w 0 (after_confirm (record st { back = back }) n (Channel.confirm false w o n)))
        (sym f)
        (record {
          within = v.within;
          valid = v.valid;
          capacity = v.capacity;
          open_pipe = v.open_pipe;
          fine = v.fine;
          clean = v.clean;
          order = v.order;
          bounded = omega (arith, v.bounded, ap slot_value f, ap sum e);
          exact = λ h. omega (arith, v.exact h, ap slot_value f, ap sum e);
        })
  | inr (old, f) ↦
      let room : n + old ≤ w = omega (arith, v.bounded, ap slot_value f, ap sum e) in
      let here =
        subst (λ o. Channel.confirm false w st.slot n ≡ Channel.confirm false w o n) f refl in
      elim (confirm-some w old n room v.within.word) [
        | inl over ↦
            subst (λ o. Balanced w 0 (after_confirm (record st { back = back }) n o))
              (sym (here ∙ over))
              (record {
                within = v.within;
                valid = v.valid;
                capacity = v.capacity;
                open_pipe = v.open_pipe;
                fine = v.fine;
                order = v.order;
                clean = λ h. absurd (false≢true (sym h));
                bounded = omega (arith, v.bounded, ap slot_value f, ap sum e);
                exact = λ h. omega (arith, v.exact h, ap slot_value f, ap sum e);
              })
        | inr below ↦
            subst (λ o. Balanced w 0 (after_confirm (record st { back = back }) n o))
              (sym (here ∙ below))
              (record {
                within = v.within;
                valid = v.valid;
                capacity = v.capacity;
                open_pipe = v.open_pipe;
                fine = v.fine;
                clean = v.clean;
                order = v.order;
                bounded = omega (arith, v.bounded, ap slot_value f, ap sum e);
                exact = λ h. omega (arith, v.exact h, ap slot_value f, ap sum e);
              })
      ]
]

pub step-Balanced :
    (w reverse_window : ℕ) (st : Flow) (e : Event)
    → Balanced w 0 st
    → Balanced w 0 (step w reverse_window st e)
unfolding step
step-Balanced w rev st (writes takes bs) v = serve-Balanced w takes (gets bs) st refl v
step-Balanced w rev st (resends takes) v = serve-Balanced w takes passes st refl v
step-Balanced w rev st (confirmed takes) v = take_slot-Balanced w takes st v
step-Balanced w rev st (delivers n) v = deliver-Balanced w n st v
step-Balanced w rev st (reads k) v = read_start-Balanced w st v k
step-Balanced w rev st (resumes k) v = read_resume-Balanced w st v k
step-Balanced w rev st batches v = batch-Balanced w rev st st.queue refl v
step-Balanced w rev st arrives v = arrive-Balanced w st st.back refl v

run_from-Balanced :
    (w reverse_window : ℕ) (st : Flow) (es : List Event)
    → Balanced w 0 st
    → Balanced w 0 (run w reverse_window st es)
unfolding run
run_from-Balanced w rev st [] v = v
run_from-Balanced w rev st (e ∷ es) v =
    run_from-Balanced w rev (step w rev st e) es (step-Balanced w rev st e v)

start-Balanced : (w : ℕ) → w < 2 ^ 64 → Balanced w 0 (start w)
unfolding new_pipe_reader new_read_writer
start-Balanced w small = record {
  within = omega (arith, small);
  valid = new_read_writer-IsValid (replicate w 0);
  capacity = length-replicate w 0;
  open_pipe = refl;
  fine = refl;
  bounded = omega arith;
  exact = λ h. omega arith;
  clean = λ h. refl;
  order = ([], refl, λ h. refl);
}

pub run-Balanced :
    (w reverse_window : ℕ) (es : List Event)
    → w < 2 ^ 64
    → Balanced w 0 (run w reverse_window (start w) es)
run-Balanced w rev es small = run_from-Balanced w rev (start w) es (start-Balanced w small)

-- Flow control is safe: whatever the two ends do and in whatever order, with a ring as large as the
-- window that the sender goes by, a uint64, every piece that arrives fits into the ring, so that no
-- `Write` on the pipe fails; and the bytes written are, in order, those that were read, those in the
-- ring, those on their way, and those not yet sent. Never more than the window are on their way,
-- in the ring, or read and not confirmed.
pub flow_safe :
    (w reverse_window : ℕ) (es : List Event)
    → w < 2 ^ 64
    → let st = run w reverse_window (start w) es in
      (st.failed ≡ false)
      × (load st ≤ w)
      × ((unsent : Bytes) × (st.got ++ (contents st.pipe.rw ++ (st.wire ++ unsent)) ≡ st.taken)
          × (st.ended ≡ false → unsent ≡ st.sender.pending))
flow_safe w rev es small =
    let v = run-Balanced w rev es small in (v.fine, omega (arith, v.bounded), v.order)
