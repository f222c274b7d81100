-- ===== src/Pipe/PipeReader/Invariant.antt =====
-- What holds in every interleaving of readers, writers and a `Close`.
use native.Mathlib.Decide.{ℕ_discrete}
use mathlib.Core.Bool.{false≢true}
use httpadapter.Common.{
  ℕ, zero, suc, ◌+◌, ◌-◌, ◌<◌, ◌≡◌, refl, sym, ap, subst, ◌∙◌, ◌⊎◌, inl, inr, Option, none, some,
  true, false, List, [], ◌∷◌, ◌++◌, length, length-append, append_assoc, append-nil, take, take_all,
  arith, Bool-cases, eq→==, ne→==, replicate, Option-cases,
}
use httpadapter.Common.Bytes.{Bytes}
use httpadapter.Pipe.ReadWriter.{new_read_writer}
use httpadapter.Pipe.ReadWriter.Contents.{
  IsValid, contents, length-contents, new_read_writer-IsValid,
}
use httpadapter.Pipe.PipeReader.{
  PipeReader, PipeError, Attempt, mark_closed, broadcasts, read_start, read_resume, new_pipe_reader,
}
use httpadapter.Pipe.PipeReader.Outcome.{
  Checked, takes, ends, sleeps, read_check-Checked, Wrote, refused, stored, write-Wrote,
}
use httpadapter.Pipe.PipeReader.System.{
  System, Event, reads, writes, marks, closes, resumes, initial, pick, wake, marked, resumed,
  attempted, wrote, step, run,
}

-- `start` is what the pipe held at first.
pub record Inv (start : Bytes) (s : System) : Type 0 where
  pub valid : IsValid s.pipe.rw
  pub counted : s.pipe.wait ≡ length s.sleeping + length s.woken
  pub asleep : 0 < length s.sleeping → s.pipe.rw.size ≡ 0
  pub open_asleep : 0 < length s.sleeping → (s.pipe.closed ≡ false) ⊎ (s.closing ≡ true)
  pub fifo : start ++ s.accepted ≡ s.taken ++ contents s.pipe.rw

mark_again : (p : PipeReader) → p.closed ≡ true → mark_closed p ≡ (false, p)
unfolding mark_closed
mark_again p c = simp c

mark_first :
    (p : PipeReader) → p.closed ≡ false → mark_closed p ≡ (true, record p { closed = true })
unfolding mark_closed
mark_first p c = simp c

length-pick :
    (i : ℕ) (ks : List ℕ) {k : ℕ} {others : List ℕ}
    → pick i ks ≡ some (k, others)
    → length ks ≡ suc (length others)
unfolding pick
length-pick i [] e = cc
length-pick zero (j ∷ js) e = ground arith
length-pick (suc i) (j ∷ js) e = elim (Option-cases (pick i js)) [
  | inl n ↦ ground arith
  | inr ((q, qs), f) ↦ ground (arith, length-pick i js f)
]

module _ (start : Bytes) where
  attempted-Inv :
      (s : System) (q : PipeReader) (k : ℕ) {out : Attempt × PipeReader}
      → Inv start (record s { pipe = q })
      → Checked q k out
      → Inv start (attempted s k out)
  unfolding attempted
  attempted-Inv s q k v (takes bs r e split count valid same) =
      rw (e, attempted)
        (record {
          valid = valid;
          counted = v.counted;
          asleep = λ h. omega (
            arith,
            v.asleep h,
            ap length split,
            length-append bs (contents r),
            length-contents q.rw,
            length-contents r,
          );
          open_asleep = v.open_asleep;
          fifo = v.fifo ∙ ap (◌++◌ s.taken) split ∙ sym (append_assoc s.taken bs (contents r));
        })
  attempted-Inv s q k v (ends empty c e) =
      rw (e, attempted)
        (record {
          valid = v.valid;
          counted = v.counted;
          asleep = v.asleep;
          open_asleep = v.open_asleep;
          fifo = v.fifo ∙ ap (λ (t : Bytes). t ++ contents q.rw) (sym (append-nil s.taken));
        })
  attempted-Inv s q k v (sleeps empty c e) =
      rw (e, attempted)
        (record {
          valid = v.valid;
          counted = omega (arith, v.counted);
          asleep = λ h. empty;
          open_asleep = λ h. inl c;
          fifo = v.fifo;
        })

  -- A broadcast is left out only when no reader sleeps.
  wake-Inv :
      (s : System)
      → IsValid s.pipe.rw
      → s.pipe.wait ≡ length s.sleeping + length s.woken
      → start ++ s.accepted ≡ s.taken ++ contents s.pipe.rw
      → Inv start (wake (broadcasts s.pipe) s)
  unfolding wake broadcasts
  wake-Inv s valid counted fifo = elim (ℕ_discrete s.pipe.wait 0) [
    | yes none_waits ↦ rw (eq→== s.pipe.wait 0 none_waits) (record {
      valid = valid;
      counted = counted;
      asleep = λ h. absurd (omega arith);
      open_asleep = λ h. absurd (omega arith);
      fifo = fifo;
    })
    | no some_wait ↦ rw (ne→== s.pipe.wait 0 some_wait) (record {
      valid = valid;
      counted = omega (arith, counted, length-append s.sleeping s.woken);
      asleep = λ h. absurd (omega arith);
      open_asleep = λ h. absurd (omega arith);
      fifo = fifo;
    })
  ]

  wrote-Inv :
      (s : System) (b : Bytes) {out : ℕ × Option PipeError × PipeReader}
      → Inv start s
      → Wrote s.pipe b out
      → Inv start (wrote s b out)
  unfolding wrote
  wrote-Inv s b v (refused e out_eq why) = subst (λ o. Inv start (wrote s b o)) (sym out_eq) v
  wrote-Inv s b v (stored r out_eq open_pipe text valid same) =
      subst (λ o. Inv start (wrote s b o)) (sym out_eq)
        (wake-Inv
          (record s { pipe = record s.pipe { rw = r }; accepted = s.accepted ++ take (length b) b })
          valid v.counted
          (ap (λ (t : Bytes). start ++ (s.accepted ++ t)) (take_all (length b) b (omega arith))
            ∙ sym (append_assoc start s.accepted b)
            ∙ ap (λ (t : Bytes). t ++ b) v.fifo
            ∙ append_assoc s.taken (contents s.pipe.rw) b
            ∙ ap (◌++◌ s.taken) (sym text)))

  reads-Inv : (s : System) (k : ℕ) → Inv start s → Inv start (attempted s k (read_start s.pipe k))
  unfolding read_start attempted
  reads-Inv s k v = elim (ℕ_discrete k 0) [
    | yes e ↦ rw (eq→== k 0 e) (record {
      valid = v.valid;
      counted = v.counted;
      asleep = v.asleep;
      open_asleep = v.open_asleep;
      fifo = v.fifo ∙ ap (λ (t : Bytes). t ++ contents s.pipe.rw) (sym (append-nil s.taken));
    })
    | no ne ↦ rw (ne→== k 0 ne) (attempted-Inv s s.pipe k v (read_check-Checked s.pipe k v.valid))
  ]

  marked-Inv : (s : System) → Inv start s → Inv start (marked s (mark_closed s.pipe))
  unfolding marked
  marked-Inv s v = elim (Bool-cases s.pipe.closed) [
    | inl c ↦ subst (λ o. Inv start (marked s o)) (sym (mark_again s.pipe c)) v
    | inr c ↦
        subst (λ o. Inv start (marked s o)) (sym (mark_first s.pipe c))
          (record {
            valid = v.valid;
            counted = v.counted;
            asleep = v.asleep;
            open_asleep = λ h. inr refl;
            fifo = v.fifo;
          })
  ]

  closes-Inv : (s : System) → Inv start s → Inv start (step s closes)
  unfolding step
  closes-Inv s v = elim (Bool-cases s.closing) [
    | inl c ↦ simp c (wake-Inv (record s { closing = false }) v.valid v.counted v.fifo)
    | inr c ↦ simp c v
  ]

  resumed-Inv :
      (s : System) (o : Option (ℕ × List ℕ)) (i : ℕ)
      → pick i s.woken ≡ o
      → Inv start s
      → Inv start (resumed s o)
  unfolding resumed read_resume
  resumed-Inv s none i e v = v
  resumed-Inv s (some (k, others)) i e v =
      let p = record s.pipe { wait = s.pipe.wait - 1 } in
      attempted-Inv (record s { woken = others }) p k
        (record {
          valid = v.valid;
          counted = omega (arith, v.counted, length-pick i s.woken e);
          asleep = v.asleep;
          open_asleep = v.open_asleep;
          fifo = v.fifo;
        })
        (read_check-Checked p k v.valid)

  pub step-Inv : (s : System) (e : Event) → Inv start s → Inv start (step s e)
  unfolding step
  step-Inv s (reads k) v = reads-Inv s k v
  step-Inv s (writes b) v = wrote-Inv s b v (write-Wrote s.pipe b v.valid)
  step-Inv s marks v = marked-Inv s v
  step-Inv s closes v = closes-Inv s v
  step-Inv s (resumes i) v = resumed-Inv s (pick i s.woken) i refl v

  pub run-Inv : (s : System) (es : List Event) → Inv start s → Inv start (run s es)
  unfolding run
  run-Inv s [] v = v
  run-Inv s (e ∷ es) v = run-Inv (step s e) es (step-Inv s e v)

pub initial-Inv : (size : ℕ) → Inv [] (initial (new_pipe_reader size))
unfolding new_pipe_reader new_read_writer
initial-Inv size = record {
  valid = new_read_writer-IsValid (replicate size 0);
  counted = refl;
  asleep = λ h. absurd (omega arith);
  open_asleep = λ h. absurd (omega arith);
  fifo = refl;
}

-- No wakeup is lost: in every interleaving on a new pipe, once no `Close` is half done, a reader
-- sleeps only while the pipe is open and the ring is empty.
pub sleeps_only_if_idle :
    (size : ℕ) (es : List Event)
    → (run (initial (new_pipe_reader size)) es).closing ≡ false
    → 0 < length (run (initial (new_pipe_reader size)) es).sleeping
    → let s = run (initial (new_pipe_reader size)) es in
      (s.pipe.rw.size ≡ 0) × (s.pipe.closed ≡ false)
sleeps_only_if_idle size es settled h =
    let v = run-Inv [] _ es (initial-Inv size) in
    (
      v.asleep h,
      elim (v.open_asleep h) [ inl c ↦ c | inr c ↦ absurd (false≢true (sym settled ∙ c)) ],
    )

-- In every interleaving on a new pipe, the bytes that writes accepted are those that reads
-- returned, in that order, followed by those that the ring still holds.
pub bytes_in_order :
    (size : ℕ) (es : List Event)
    → let s = run (initial (new_pipe_reader size)) es in s.accepted ≡ s.taken ++ contents s.pipe.rw
bytes_in_order size es = (run-Inv [] _ es (initial-Inv size)).fifo
