-- ===== src/Transport/Writing/Merged.antt =====
-- The bytes that `serveWrite` puts on the connection.
use httpadapter.Common.{
  ℕ, ◌≤◌, ◌≡◌, refl, sym, ap, subst, ◌∙◌, Bool, false, Option, List, [], ◌∷◌, ◌++◌, append-nil,
  arith, if◌then◌else◌, length,
}
use httpadapter.Common.Bytes.{Bytes}
use httpadapter.Transport.Writing.{
  step_at, Output, flush, write, Phase, waits, merges, returned, Writing, Meets, message, done,
  nothing, receive, step, run, start,
}
use httpadapter.Transport.Writing.Held.{
  Holds, holds, stops, write-Holds, flush-Holds, flushed, flush_empties,
}

-- What the loop has written of `taken` where it stands.
abbrev WrittenAt : Phase → Bytes → Output → Type 0
WrittenAt waits taken o = (o.broken ≡ false) × (o.out ≡ taken) × (o.buffered ≡ [])
WrittenAt merges taken o =
    (o.broken ≡ false) × (o.out ++ o.buffered ≡ taken) × (length o.buffered ≤ o.size)
WrittenAt returned taken o = (rest : Bytes) × (o.out ++ rest ≡ taken)

unfoldable pub Written : Writing → Type 0
Written s = WrittenAt s.phase s.taken s.output

-- The loop goes on unless the write failed.
merging :
    (taken : Bytes) (o : Output)
    → Holds taken o
    → WrittenAt (if o.broken then returned else merges) taken o
merging taken o (holds ok all fits) =
    subst (λ (b : Bool). WrittenAt (if b then returned else merges) taken o) (sym ok)
      (ok, all, fits)
merging taken o (stops error rest all) =
    subst (λ (b : Bool). WrittenAt (if b then returned else merges) taken o) (sym error) (rest, all)

waiting :
    (taken : Bytes) (o : Output)
    → Holds taken (flush o)
    → WrittenAt (if (flush o).broken then returned else waits) taken (flush o)
waiting taken o (holds ok all fits) =
    subst (λ (b : Bool). WrittenAt (if b then returned else waits) taken (flush o)) (sym ok)
      (ok, flushed taken o ok (holds ok all fits), flush_empties o ok)
waiting taken o (stops error rest all) =
    subst (λ (b : Bool). WrittenAt (if b then returned else waits) taken (flush o)) (sym error)
      (rest, all)

step_at-Written :
    (p : Phase) (s : Writing) (e : Meets)
    → s.phase ≡ p
    → WrittenAt p s.taken s.output
    → Written (step_at p s e)
unfolding Written receive
step_at-Written waits s (message b) is (fine, all, empty) =
    merging (s.taken ++ b) (write b s.output) (
      write-Holds b s.taken s.output fine
        (ap (◌++◌ s.output.out) empty ∙ append-nil s.output.out ∙ all)
        (subst (λ (t : Bytes). length t ≤ s.output.size) (sym empty) (omega arith)))
step_at-Written waits s done is (fine, all, empty) = ([], append-nil s.output.out ∙ all)
step_at-Written waits s nothing is h =
    subst (λ (p : Phase). WrittenAt p s.taken s.output) (sym is) h
step_at-Written merges s (message b) is (fine, all, fits) =
    merging (s.taken ++ b) (write b s.output) (write-Holds b s.taken s.output fine all fits)
step_at-Written merges s done is (fine, all, fits) = (s.output.buffered, all)
step_at-Written merges s nothing is (fine, all, fits) =
    waiting s.taken s.output (flush-Holds s.taken s.output fine all)
step_at-Written returned s e is h = subst (λ (p : Phase). WrittenAt p s.taken s.output) (sym is) h

step-Written : (s : Writing) (e : Meets) → Written s → Written (step s e)
unfolding step Written
step-Written s e h = step_at-Written s.phase s e refl h

started : (size : ℕ) (takes : List (Option ℕ)) → Written (start size takes)
unfolding Written
started size takes = (refl, refl, refl)

run-Written : (es : List Meets) (s : Writing) → Written s → Written (run s es)
unfolding run
run-Written [] s h = h
run-Written (e ∷ es) s h = run-Written es (step s e) (step-Written s e h)

-- However the writes on the connection end and whatever the selects meet: while the loop waits for a
-- message, exactly the bytes received so far are on the connection, in order; while it merges, they are
-- on the connection and in a buffer no larger than its size; once it returned, what is on the connection
-- is a first part of them.
pub written_in_order :
    (size : ℕ) (takes : List (Option ℕ)) (es : List Meets) → Written (run (start size takes) es)
written_in_order size takes es = run-Written es (start size takes) (started size takes)
