-- ===== src/Pipe/ReadWriter/Read.antt =====
-- `Read` takes the oldest bytes out, as many as it is asked for and the ring has.
use native.Mathlib.Nat.{mod-eq_of_lt, mod-add-mod}
use native.Mathlib.Decide.{dec_lt}
use httpadapter.Common.{
  ℕ, zero, suc, ◌+◌, ◌-◌, ◌%◌, ◌≤◌, ◌<◌, min, ◌≡◌, refl, sym, ap, ap₂, ◌∙◌, inl, inr, ◌⊎◌, none,
  some, ◌++◌, [], ◌∷◌, append_assoc, arith, length, get_or, take, drop, length-drop, length-take,
  length-append, table, table_ext, table-append, table-get_or, eq→==, ne→==,
}
use httpadapter.Common.Bytes.{Bytes}
use httpadapter.Pipe.ReadWriter.{ReadWriter, eof, read_loop, read}
use httpadapter.Pipe.ReadWriter.Copy.{get_or-drop}
use httpadapter.Pipe.ReadWriter.Contents.{IsValid, byte_at, contents, mod_wrapped}

get_or-take : (n j : ℕ) (xs : Bytes) → j < n → get_or (take n xs) j 0 ≡ get_or xs j 0
get_or-take zero j xs h = absurd (omega arith)
get_or-take (suc n) j [] h = refl
get_or-take (suc n) zero (x ∷ xs) h = refl
get_or-take (suc n) (suc j) (x ∷ xs) h = get_or-take n j xs (omega arith)

-- A part read with data in the ring and room for it.
module _ (r : ReadWriter) (k : ℕ) (v : IsValid r) (data_in : 0 < r.size) where
  abbrev count : ℕ
  count = min k (min (r.offset + r.size) (length r.buffer) - r.offset)

  abbrev part : Bytes
  part = take count (drop r.offset r.buffer)

  abbrev left : ReadWriter
  left = record r { size = r.size - count; offset = (r.offset + count) % length r.buffer }

  length-part : length part ≡ count
  length-part =
      omega
        (arith, length-take count (drop r.offset r.buffer), length-drop r.offset r.buffer, v.placed)

  count_le : count ≤ r.size
  count_le = omega arith

  count_pos : 0 < k → 0 < count
  count_pos h = omega (arith, v.placed)

  offset_cases :
      ((r.offset + count < length r.buffer)
        × ((r.offset + count) % length r.buffer ≡ r.offset + count))
      ⊎ ((length r.buffer ≤ r.offset + count)
          × ((r.offset + count) % length r.buffer ≡ r.offset + count - length r.buffer))
  offset_cases = mod_wrapped (r.offset + count) (length r.buffer) (omega (arith, v.placed, v.fits))

  left-IsValid : IsValid left
  left-IsValid = omega (arith, offset_cases, v.placed, v.fits)

  part_byte : (j : ℕ) → j < count → byte_at r j ≡ get_or part j 0
  part_byte j lt =
      ap (λ p. get_or r.buffer p 0) (mod-eq_of_lt (omega (arith, v.placed)))
      ∙ sym (get_or-take count j (drop r.offset r.buffer) lt ∙ get_or-drop r.offset j r.buffer)

  left_byte : (j : ℕ) → count + j < r.size → byte_at r (count + j) ≡ byte_at left j
  left_byte j lt =
      ap (λ p. get_or r.buffer p 0)
        (ap (λ p. p % length r.buffer)
            (let e : r.offset + (count + j) ≡ r.offset + count + j = omega arith in e)
          ∙ sym (mod-add-mod (r.offset + count) (length r.buffer) j))

  contents-left : contents r ≡ part ++ contents left
  contents-left =
      ap (λ n. table n (byte_at r)) (let e : r.size ≡ count + (r.size - count) = omega arith in e)
      ∙ table-append count (r.size - count) (byte_at r)
      ∙ ap₂ ◌++◌
          (table_ext count (byte_at r) (λ j. get_or part j 0) part_byte
            ∙ ap (λ n. table n (λ j. get_or part j 0)) (sym length-part)
            ∙ table-get_or 0 part)
          (table_ext (r.size - count) (λ j. byte_at r (count + j)) (byte_at left)
            (λ j lt. left_byte j (omega arith)))

-- With fuel for each byte asked for, the loop ends, and splits the oldest bytes off.
record Took (r : ReadWriter) (k : ℕ) (bs : Bytes) (r' : ReadWriter) : Type 0 where
  split : contents r ≡ bs ++ contents r'
  count_eq : length bs ≡ min k r.size
  valid : IsValid r'
  same : length r'.buffer ≡ length r.buffer

read_loop_stops :
    (fuel : ℕ) (r : ReadWriter) (k : ℕ)
    → (r.size ≡ 0) ⊎ (k ≡ 0)
    → read_loop (suc fuel) r k ≡ some ([], r)
unfolding read_loop
read_loop_stops fuel r k (inl empty) = rw (eq→== r.size 0 empty)
read_loop_stops fuel r k (inr full) = ground (arith, eq→== k 0 full)

read_loop_continues :
    (fuel : ℕ) (r : ReadWriter) (k : ℕ) (v : IsValid r) (data_in : 0 < r.size) {bs : Bytes}
    {r' : ReadWriter}
    → 0 < k
    → read_loop fuel (left r k v data_in) (k - length (part r k v data_in)) ≡ some (bs, r')
    → read_loop (suc fuel) r k ≡ some (part r k v data_in ++ bs, r')
unfolding read_loop
read_loop_continues fuel r k v data_in room e =
    rw (ne→== r.size 0 (omega arith), ne→== k 0 (omega arith), e)

read_loop-Took :
    (fuel : ℕ) (r : ReadWriter) (k : ℕ)
    → IsValid r
    → k < fuel
    → (bs : Bytes) × (r' : ReadWriter) × (read_loop fuel r k ≡ some (bs, r')) × Took r k bs r'
read_loop-Took zero r k v h = absurd (omega arith)
read_loop-Took (suc fuel) r k v h = elim (dec_lt 0 (min k r.size)) [
  | no stop ↦ (
    [],
    r,
    read_loop_stops fuel r k (omega arith),
    record { split = refl; count_eq = omega arith; valid = v; same = refl },
  )
  | yes go ↦
      let data_in : 0 < r.size = omega arith in
      let bs = part r k v data_in in
      let shorter = length-part r k v data_in in
      let progress = count_pos r k v data_in (omega arith) in
      let (more, last, e, took) =
        read_loop-Took fuel (left r k v data_in) (k - length bs) (left-IsValid r k v data_in)
          (omega (arith, shorter, progress)) in
      (
        bs ++ more,
        last,
        read_loop_continues fuel r k v data_in (omega arith) e,
        record {
          split =
              contents-left r k v data_in
              ∙ ap (◌++◌ bs) took.split
              ∙ sym (append_assoc bs more (contents last));
          count_eq =
              omega (arith, length-append bs more, took.count_eq, shorter, count_le r k v data_in);
          valid = took.valid;
          same = took.same;
        },
      )
]

-- A read from a ring in its invariant that holds data always returns: the oldest bytes, as many as
-- asked for and as the ring has; the ring keeps the others, its capacity and its invariant.
pub read_takes :
    (r : ReadWriter) (k : ℕ)
    → IsValid r
    → 0 < r.size
    → (bs : Bytes) × (r' : ReadWriter) × (read r k ≡ some (bs, none, r'))
      × (contents r ≡ bs ++ contents r')
      × (length bs ≡ min k r.size)
      × IsValid r'
      × (length r'.buffer ≡ length r.buffer)
unfolding read
read_takes r k v data_in =
    let (bs, r', e, took) = read_loop-Took (suc k) r k v (omega arith) in
    (bs, r', rw (ne→== r.size 0 (omega arith), e), took.split, took.count_eq, took.valid, took.same)

-- On an empty ring `Read` reports the end of the data and changes nothing.
pub read_empty : (r : ReadWriter) (k : ℕ) → r.size ≡ 0 → read r k ≡ some ([], some eof, r)
unfolding read
read_empty r k h = rw (eq→== r.size 0 h)
