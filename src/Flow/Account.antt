-- ===== src/Flow/Account.antt =====
-- Where the bytes of a flow are, and what each step does to the account.
use native.Mathlib.Decide.{ℕ_discrete}
use mathlib.Core.Bool.{false≢true}
use httpadapter.Common.{
  ℕ, ◌+◌, ◌≤◌, ◌≡◌, refl, sym, ap, subst, ◌∙◌, ◌≢◌, ◌⊎◌, inl, inr, false, Option, none, some, List,
  [], ◌∷◌, ◌++◌, append_assoc, arith, if◌then◌else◌, eq→==, ne→==, length, take, drop,
  length-append, take-append-drop, flatten,
}
use httpadapter.Common.Bytes.{Bytes}
use httpadapter.Pipe.ReadWriter.{ReadWriter}
use httpadapter.Pipe.ReadWriter.Contents.{IsValid, contents, length-contents}
use httpadapter.Pipe.ReadWriter.{ReadWriterError}
use httpadapter.Pipe.PipeReader.{ring}
use httpadapter.Pipe.PipeReader.{
  PipeReader, PipeError, Attempt, returned, read_start, read_resume, read_check,
}
use httpadapter.Pipe.PipeReader.Outcome.{
  Checked, takes, ends, sleeps, read_check-Checked, Wrote, refused, stored, write-Wrote,
}
use httpadapter.Channel.{Choice, Round, brought}
use httpadapter.Channel.Window.{IsWithin}
use httpadapter.Channel.Frames.{Rounds, is_waiting, has_ended, goes_on}
use httpadapter.Channel.Confirming.{sum}
use httpadapter.Flow.{Flow, after_round, after_write, deliver, after_read, reported, slot_value}

-- The bytes that are sent and not yet confirmed, wherever they or their confirmations are.
abbrev pub load : Flow → ℕ
load st = length st.wire + st.pipe.rw.size + sum st.queue + sum st.back + slot_value st.slot

-- The invariant of a flow from which a confirmation of `n` bytes was taken and not yet counted.
pub record Balanced (w n : ℕ) (st : Flow) : Type 0 where
  pub within : IsWithin w st.sender
  pub valid : IsValid st.pipe.rw
  pub capacity : length st.pipe.rw.buffer ≡ w
  pub open_pipe : st.pipe.closed ≡ false
  pub fine : st.failed ≡ false
  pub bounded : load st + n ≤ w
  pub exact : st.ended ≡ false → load st + n + st.lost ≡ st.sender.writed
  pub clean : st.overflow ≡ false → st.lost ≡ 0
  pub order :
      (left : Bytes) × (st.got ++ (contents st.pipe.rw ++ (st.wire ++ left)) ≡ st.taken)
      × (st.ended ≡ false → left ≡ st.sender.pending)

-- New data behind all the others.
extend :
    (got held wire left fp left' more : Bytes) {taken pending : Bytes}
    → got ++ (held ++ (wire ++ left)) ≡ taken
    → left ≡ pending
    → fp ++ left' ≡ pending ++ more
    → got ++ (held ++ ((wire ++ fp) ++ left')) ≡ taken ++ more
extend got held wire left fp left' more e same f =
    ap (λ (t : Bytes). got ++ (held ++ t))
      (append_assoc wire fp left'
        ∙ ap (◌++◌ wire) (f ∙ ap (λ (t : Bytes). t ++ more) (sym same))
        ∙ sym (append_assoc wire left more))
    ∙ ap (◌++◌ got) (sym (append_assoc held (wire ++ left) more))
    ∙ sym (append_assoc got (held ++ (wire ++ left)) more)
    ∙ ap (λ (t : Bytes). t ++ more) e

pub after_round-Balanced :
    (w : ℕ) (st : Flow) (c : Choice) {r : Round}
    → Balanced w (brought c).1 st
    → st.ended ≡ false
    → ((brought c).1 ≡ 0) ⊎ (r ≢ Round.waits)
    → Rounds w st.sender c r
    → Balanced w 0 (after_round st c r)
after_round-Balanced w st c v open_still (inl nothing) is_waiting = record {
  within = v.within;
  valid = v.valid;
  capacity = v.capacity;
  open_pipe = v.open_pipe;
  fine = v.fine;
  clean = v.clean;
  order = v.order;
  bounded = omega (arith, v.bounded);
  exact = λ h. omega (arith, v.exact h, nothing);
}
after_round-Balanced w st c v open_still (inr moves) is_waiting = absurd (moves refl)
after_round-Balanced w st c v open_still moves (has_ended ps left framed e size) = record {
  within = v.within;
  valid = v.valid;
  capacity = v.capacity;
  open_pipe = v.open_pipe;
  fine = v.fine;
  clean = v.clean;
  bounded = omega (arith, v.exact open_still, size, length-append st.wire (flatten ps));
  exact = λ h. absurd (false≢true (sym h));
  order = (
    left,
    extend st.got (contents st.pipe.rw) st.wire v.order.0 (flatten ps) left (brought c).0 v.order.1
        (v.order.2 open_still) e,
    λ h. absurd (false≢true (sym h)),
  );
}
after_round-Balanced w st c v open_still moves (goes_on ps s' framed within e size) = record {
  within = within;
  valid = v.valid;
  capacity = v.capacity;
  open_pipe = v.open_pipe;
  fine = v.fine;
  clean = v.clean;
  bounded =
      omega (arith, v.exact open_still, size, within.within, length-append st.wire (flatten ps));
  exact = λ h. omega (arith, v.exact open_still, size, length-append st.wire (flatten ps));
  order = (
    s'.pending,
    extend st.got (contents st.pipe.rw) st.wire v.order.0 (flatten ps) s'.pending (brought c).0
        v.order.1 (v.order.2 open_still) e,
    λ h. refl,
  );
}

module _ (w n : ℕ) (st : Flow) (v : Balanced w 0 st) where
  cut_wire : length (take n st.wire) + length (drop n st.wire) ≡ length st.wire
  cut_wire =
      sym (length-append (take n st.wire) (drop n st.wire)) ∙ ap length (take-append-drop n st.wire)

  after_write-Balanced :
      {out : ℕ × Option PipeError × PipeReader}
      → Wrote st.pipe (take n st.wire) out
      → Balanced w 0 (after_write (record st { wire = drop n st.wire }) out)
  after_write-Balanced (refused e out_eq (inl closed)) =
      absurd (false≢true (sym v.open_pipe ∙ closed))
  after_write-Balanced (refused e out_eq (inr full)) =
      absurd (omega (arith, full, v.capacity, v.bounded, cut_wire))
  after_write-Balanced (stored r out_eq open_pipe text valid same) =
      subst (λ o. Balanced w 0 (after_write (record st { wire = drop n st.wire }) o)) (sym out_eq)
        (let size : r.size ≡ st.pipe.rw.size + length (take n st.wire) =
            sym (length-contents r)
            ∙ ap length text
            ∙ length-append (contents st.pipe.rw) (take n st.wire)
            ∙ ap (λ (k : ℕ). k + length (take n st.wire)) (length-contents st.pipe.rw) in
          let later =
            ap (λ (t : Bytes). st.got ++ (t ++ (drop n st.wire ++ v.order.0))) text
            ∙ ap (◌++◌ st.got) (
                append_assoc (contents st.pipe.rw) (take n st.wire) (drop n st.wire ++ v.order.0)
                ∙ ap (◌++◌ (contents st.pipe.rw)) (
                    sym (append_assoc (take n st.wire) (drop n st.wire) v.order.0)
                    ∙ ap (λ (t : Bytes). t ++ v.order.0) (take-append-drop n st.wire))) in
          record {
            within = v.within;
            valid = valid;
            capacity = same ∙ v.capacity;
            open_pipe = v.open_pipe;
            fine = v.fine;
            clean = v.clean;
            bounded = omega (arith, v.bounded, size, cut_wire);
            exact = λ h. omega (arith, v.exact h, size, cut_wire);
            order = (v.order.0, later ∙ v.order.1, v.order.2);
          })

  pub deliver-Balanced : Balanced w 0 (deliver n st)
  unfolding deliver
  deliver-Balanced = after_write-Balanced (write-Wrote st.pipe (take n st.wire) v.valid)

pub sum-append : (ms ns : List ℕ) → sum (ms ++ ns) ≡ sum ms + sum ns
sum-append [] ns = omega arith
sum-append (m ∷ ms) ns = omega (arith, sum-append ms ns)

sum-reported : (queue : List ℕ) (n : ℕ) → sum (reported queue n) ≡ sum queue + n
sum-reported queue n = elim (ℕ_discrete n 0) [
  | yes e ↦ rw (eq→== n 0 e) (omega (arith, e))
  | no ne ↦ rw (ne→== n 0 ne) (sum-append queue (n ∷ []) ∙ omega arith)
]

module _ (w : ℕ) (st : Flow) (v : Balanced w 0 st) where
  -- A `Read` that returns `bs` and leaves the ring as `r`.
  taken-Balanced :
      (bs : Bytes) (r : ReadWriter) (p : PipeReader)
      → p.rw ≡ r
      → p.closed ≡ false
      → contents st.pipe.rw ≡ bs ++ contents r
      → IsValid r
      → length r.buffer ≡ length st.pipe.rw.buffer
      → (e : Option PipeError) → Balanced w 0 (after_read st (returned bs e, p))
  taken-Balanced bs r p at open_pipe split valid same e =
      let size : length bs + p.rw.size ≡ st.pipe.rw.size = omega (
        arith,
        sym (length-contents st.pipe.rw) ∙ ap length split ∙ length-append bs (contents r),
        length-contents r,
        ap (λ (x : ReadWriter). x.size) at,
      ) in
      record {
        within = v.within;
        valid = subst IsValid (sym at) valid;
        capacity = ap (λ (x : ReadWriter). length x.buffer) at ∙ same ∙ v.capacity;
        open_pipe = open_pipe;
        fine = v.fine;
        clean = v.clean;
        bounded = omega (arith, v.bounded, size, sum-reported st.queue (length bs));
        exact = λ h. omega (arith, v.exact h, size, sum-reported st.queue (length bs));
        order = (
          v.order.0,
          ap (λ (x : ReadWriter). (st.got ++ bs) ++ (contents x ++ (st.wire ++ v.order.0))) at
              ∙ append_assoc st.got bs (contents r ++ (st.wire ++ v.order.0))
              ∙ ap (◌++◌ st.got) (
                  sym (append_assoc bs (contents r) (st.wire ++ v.order.0))
                  ∙ ap (λ (t : Bytes). t ++ (st.wire ++ v.order.0)) (sym split))
              ∙ v.order.1,
          v.order.2,
        );
      }

  pub Checked-Balanced :
      (p : PipeReader) (k : ℕ) {out : Attempt × PipeReader}
      → p.rw ≡ st.pipe.rw
      → p.closed ≡ false
      → Checked p k out
      → Balanced w 0 (after_read st out)
  Checked-Balanced p k at open_pipe (takes bs r e split count valid same) =
      subst (λ o. Balanced w 0 (after_read st o)) (sym e)
        (taken-Balanced bs r (record p { rw = r }) refl open_pipe (ap contents (sym at) ∙ split)
          valid (same ∙ ap (λ (x : ReadWriter). length x.buffer) at) none)
  Checked-Balanced p k at open_pipe (ends empty closed e) =
      absurd (false≢true (sym open_pipe ∙ closed))
  Checked-Balanced p k at open_pipe (sleeps empty closed e) =
      subst (λ o. Balanced w 0 (after_read st o)) (sym e)
        (record {
          within = v.within;
          fine = v.fine;
          clean = v.clean;
          valid = subst IsValid (sym at) v.valid;
          capacity = ap (λ (x : ReadWriter). length x.buffer) at ∙ v.capacity;
          open_pipe = open_pipe;
          bounded = omega (arith, v.bounded, ap (λ (x : ReadWriter). x.size) at);
          exact = λ h. omega (arith, v.exact h, ap (λ (x : ReadWriter). x.size) at);
          order = (
            v.order.0,
            ap (λ (x : ReadWriter). st.got ++ (contents x ++ (st.wire ++ v.order.0))) at
                ∙ v.order.1,
            v.order.2,
          );
        })

  read_check-Balanced :
      (p : PipeReader) (k : ℕ)
      → p.rw ≡ st.pipe.rw
      → p.closed ≡ false
      → Balanced w 0 (after_read st (read_check p k))
  read_check-Balanced p k at open_pipe =
      Checked-Balanced p k at open_pipe (read_check-Checked p k (subst IsValid (sym at) v.valid))

  pub read_start-Balanced : (k : ℕ) → Balanced w 0 (after_read st (read_start st.pipe k))
  unfolding read_start
  read_start-Balanced k = elim (ℕ_discrete k 0) [
    | yes e ↦
        rw (eq→== k 0 e, read_start)
          (taken-Balanced [] st.pipe.rw st.pipe refl v.open_pipe refl v.valid refl
            (if st.pipe.closed then some (ring ReadWriterError.eof) else none))
    | no ne ↦ rw (ne→== k 0 ne, read_start) (read_check-Balanced st.pipe k refl v.open_pipe)
  ]

  pub read_resume-Balanced : (k : ℕ) → Balanced w 0 (after_read st (read_resume st.pipe k))
  unfolding read_resume
  read_resume-Balanced k = read_check-Balanced _ k refl v.open_pipe
