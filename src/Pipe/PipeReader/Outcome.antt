-- ===== src/Pipe/PipeReader/Outcome.antt =====
-- What one part of a method does, in each case.
use httpadapter.Common.{
  ℕ, ◌+◌, ◌<◌, min, ◌≡◌, ap, ◌∙◌, ◌⊎◌, inl, inr, Option, none, some, true, false, [], ◌++◌, length,
  arith, eq→==, ne→==, Bool-cases,
}
use httpadapter.Common.Bytes.{Bytes}
use httpadapter.Pipe.ReadWriter
use httpadapter.Pipe.ReadWriter.{ReadWriter, ReadWriterError}
use httpadapter.Pipe.ReadWriter.Contents.{IsValid, contents}
use httpadapter.Pipe.ReadWriter.Read.{read_takes}
use httpadapter.Pipe.ReadWriter.Write.{write_fits, write_overflows}
use httpadapter.Pipe.PipeReader.{
  PipeReader, PipeError, reader_closed, ring, Attempt, returned, waits, after_write, write,
  take_bytes, read_check,
}
use native.Mathlib.Decide.{dec_lt}

-- What `read_check` does: it takes bytes, reports the end of a closed pipe, or waits.
pub data Checked (p : PipeReader) (k : ℕ) (out : Attempt × PipeReader) : Type 0 where
  takes :
      (bs : Bytes) (r : ReadWriter)
      → out ≡ (returned bs none, record p { rw = r })
      → contents p.rw ≡ bs ++ contents r
      → length bs ≡ min k p.rw.size
      → IsValid r
      → length r.buffer ≡ length p.rw.buffer
      → Checked p k out
  ends :
      p.rw.size ≡ 0
      → p.closed ≡ true
      → out ≡ (returned [] (some (ring ReadWriterError.eof)), p)
      → Checked p k out
  sleeps :
      p.rw.size ≡ 0
      → p.closed ≡ false
      → out ≡ (waits, record p { wait = p.wait + 1 })
      → Checked p k out

take_bytes_lem :
    (p : PipeReader) (k : ℕ) (bs : Bytes) (r : ReadWriter)
    → ReadWriter.read p.rw k ≡ some (bs, none, r)
    → take_bytes p k ≡ (returned bs none, record p { rw = r })
unfolding take_bytes
take_bytes_lem p k bs r e = rw (e, take_bytes)

check_take : (p : PipeReader) (k : ℕ) → 0 < p.rw.size → read_check p k ≡ take_bytes p k
unfolding read_check
check_take p k h = rw (ne→== p.rw.size 0 (omega arith))

check_end :
    (p : PipeReader) (k : ℕ)
    → p.rw.size ≡ 0
    → p.closed ≡ true
    → read_check p k ≡ (returned [] (some (ring ReadWriterError.eof)), p)
unfolding read_check
check_end p k e c = rw (eq→== p.rw.size 0 e, c)

check_sleep :
    (p : PipeReader) (k : ℕ)
    → p.rw.size ≡ 0
    → p.closed ≡ false
    → read_check p k ≡ (waits, record p { wait = p.wait + 1 })
unfolding read_check
check_sleep p k e c = rw (eq→== p.rw.size 0 e, c)

pub read_check-Checked : (p : PipeReader) (k : ℕ) → IsValid p.rw → Checked p k (read_check p k)
read_check-Checked p k v = elim (dec_lt 0 p.rw.size) [
  | yes filled ↦
      let (bs, r, e, split, count, valid, same) = read_takes p.rw k v filled in
      takes bs r (check_take p k filled ∙ take_bytes_lem p k bs r e) split count valid same
  | no empty ↦ elim (Bool-cases p.closed) [
    | inl c ↦ ends (omega arith) c (check_end p k (omega arith) c)
    | inr c ↦ sleeps (omega arith) c (check_sleep p k (omega arith) c)
  ]
]

-- What `write` does: it refuses on a closed pipe or for want of room, or takes all the bytes.
pub data Wrote (p : PipeReader) (b : Bytes) (out : ℕ × Option PipeError × PipeReader) : Type 0 where
  refused :
      (e : PipeError)
      → out ≡ (0, some e, p)
      → (p.closed ≡ true) ⊎ (length p.rw.buffer < p.rw.size + length b)
      → Wrote p b out
  stored :
      (r : ReadWriter)
      → out ≡ (length b, none, record p { rw = r })
      → p.closed ≡ false
      → contents r ≡ contents p.rw ++ b
      → IsValid r
      → length r.buffer ≡ length p.rw.buffer
      → Wrote p b out

write_open :
    (p : PipeReader) (b : Bytes)
    → p.closed ≡ false
    → write p b ≡ after_write p (ReadWriter.write p.rw b)
unfolding write
write_open p b c = simp c

write_closed :
    (p : PipeReader) (b : Bytes) → p.closed ≡ true → write p b ≡ (0, some reader_closed, p)
unfolding write
write_closed p b c = rw c

pub write-Wrote : (p : PipeReader) (b : Bytes) → IsValid p.rw → Wrote p b (write p b)
write-Wrote p b v = elim (Bool-cases p.closed) [
  | inl c ↦ refused reader_closed (write_closed p b c) (inl c)
  | inr c ↦ elim (dec_lt (length p.rw.buffer) (p.rw.size + length b)) [
    | yes big ↦
        refused _ (write_open p b c ∙ ap (after_write p) (write_overflows p.rw b v big)) (inr big)
    | no fits ↦
        let (n, e, text, valid, same) = write_fits p.rw b v (omega arith) in
        let r = (ReadWriter.write p.rw b).2 in
        stored r (write_open p b c ∙ ap (after_write p) (λ i. (n i, e i, r))) c text valid same
  ]
]
