-- ===== src/Pipe/ReadWriter/Write.antt =====
-- `Write` appends all of its bytes, or refuses them all.
use native.Mathlib.Decide.{dec_lt}
use httpadapter.Common.{
  ℕ, ◌+◌, ◌-◌, ◌%◌, ◌≤◌, ◌<◌, ◌≡◌, refl, ap, ap₂, sym, ◌∙◌, inl, inr, ◌⊎◌, none, some, ◌++◌,
  append-nil, arith, length, get_or, drop, length-drop, table_ext, table-append, table-get_or, [],
  ◌∷◌, le→ltb, ne→==,
}
use httpadapter.Common.Bytes.{Bytes}
use httpadapter.Pipe.ReadWriter.{ReadWriter, write_overflow, copy_at, copied, store, write}
use httpadapter.Pipe.ReadWriter.Copy.{
  length-copy_at, get_or-copy_at_before, get_or-copy_at_inside, get_or-copy_at_after, get_or-drop,
}
use httpadapter.Pipe.ReadWriter.Contents.{IsValid, byte_at, contents, mod_wrapped}

-- The two copies of `Write` into `buf`, from index `i` and then from its start.
module _ (buf : Bytes) (i : ℕ) (b : Bytes) (inside : i < length buf) where
  abbrev first : ℕ
  first = copied buf i b

  abbrev half : Bytes
  half = copy_at buf i b

  abbrev after : Bytes
  after = copy_at half 0 (drop first b)

  length-after : length after ≡ length buf
  length-after = length-copy_at half 0 (drop first b) ∙ length-copy_at buf i b

  both_copied : length b ≤ length buf → first + copied half 0 (drop first b) ≡ length b
  both_copied h = omega (arith, length-drop first b, length-copy_at buf i b)

  get_or-after_outside :
      (p : ℕ)
      → (p < i) ⊎ (i + length b ≤ p)
      → i + length b ≤ length buf + p
      → get_or after p 0 ≡ get_or buf p 0
  get_or-after_outside p h back =
      get_or-copy_at_after half 0 (drop first b) p (omega (arith, length-drop first b)) ∙ elim h [
        | inl lt ↦ get_or-copy_at_before buf i b p lt
        | inr le ↦ get_or-copy_at_after buf i b p le
      ]

  get_or-after_first :
      (m : ℕ)
      → m < length b
      → i + m < length buf
      → length b ≤ length buf
      → get_or after (i + m) 0 ≡ get_or b m 0
  get_or-after_first m lt near small =
      get_or-copy_at_after half 0 (drop first b) (i + m) (omega (arith, length-drop first b))
      ∙ get_or-copy_at_inside buf i b m lt near

  get_or-after_rest :
      (m : ℕ)
      → m < length b
      → length buf ≤ i + m
      → length b ≤ length buf
      → get_or after (i + m - length buf) 0 ≡ get_or b m 0
  get_or-after_rest m lt far small =
      ap (λ j. get_or after j 0)
        (let e : i + m - length buf ≡ 0 + (i + m - length buf) = omega arith in e)
      ∙ get_or-copy_at_inside half 0 (drop first b) (i + m - length buf)
          (omega (arith, length-drop first b)) (omega (arith, length-copy_at buf i b))
      ∙ get_or-drop first (i + m - length buf) b
      ∙ ap (λ j. get_or b j 0) (omega arith)

module _ (r : ReadWriter) (b : Bytes) (v : IsValid r) (fits : r.size + length b ≤ length r.buffer)
    (nonempty : 0 < length b) where
  abbrev start : ℕ
  start = (r.offset + r.size) % length r.buffer

  abbrev stored : Bytes
  stored = copy_at (copy_at r.buffer start b) 0 (drop (copied r.buffer start b) b)

  start_cases :
      ((r.offset + r.size < length r.buffer) × (start ≡ r.offset + r.size))
      ⊎ ((length r.buffer ≤ r.offset + r.size) × (start ≡ r.offset + r.size - length r.buffer))
  start_cases = mod_wrapped (r.offset + r.size) (length r.buffer) (omega (arith, v.placed, v.fits))

  start_in : start < length r.buffer
  start_in = omega (arith, start_cases, v.placed, v.fits)

  -- The bytes that were there keep their places.
  byte_kept :
      (k : ℕ) → k < r.size → get_or stored ((r.offset + k) % length r.buffer) 0 ≡ byte_at r k
  byte_kept k lt =
      get_or-after_outside r.buffer start b start_in ((r.offset + k) % length r.buffer)
        (omega (arith, place, start_cases, v.placed)) (omega (arith, place, start_cases, v.placed))
    where
      place :
          ((r.offset + k < length r.buffer) × ((r.offset + k) % length r.buffer ≡ r.offset + k))
          ⊎ ((length r.buffer ≤ r.offset + k)
              × ((r.offset + k) % length r.buffer ≡ r.offset + k - length r.buffer))
      place = mod_wrapped (r.offset + k) (length r.buffer) (omega (arith, v.placed, v.fits))

  -- The new bytes stand behind them.
  byte_added :
      (m : ℕ)
      → m < length b
      → get_or stored ((r.offset + (r.size + m)) % length r.buffer) 0 ≡ get_or b m 0
  byte_added m lt = elim (dec_lt (start + m) (length r.buffer)) [
    | yes near ↦
        ap (λ j. get_or stored j 0) (omega (arith, place, start_cases, v.placed))
        ∙ get_or-after_first r.buffer start b start_in m lt near (omega arith)
    | no far ↦
        ap (λ j. get_or stored j 0) (omega (arith, place, start_cases, v.placed))
        ∙ get_or-after_rest r.buffer start b start_in m lt (omega arith) (omega arith)
  ]
    where
      place :
          ((r.offset + (r.size + m) < length r.buffer)
            × ((r.offset + (r.size + m)) % length r.buffer ≡ r.offset + (r.size + m)))
          ⊎ ((length r.buffer ≤ r.offset + (r.size + m))
              × ((r.offset + (r.size + m)) % length r.buffer
                  ≡ r.offset + (r.size + m) - length r.buffer))
      place =
          mod_wrapped (r.offset + (r.size + m)) (length r.buffer) (omega (arith, v.placed, v.fits))

  abbrev written : ReadWriter
  written = record r { buffer = stored; size = r.size + length b }

  length-stored : length stored ≡ length r.buffer
  length-stored = length-after r.buffer start b start_in

  contents-written : contents written ≡ contents r ++ b
  contents-written =
      table-append r.size (length b) (byte_at written)
      ∙ ap₂ ◌++◌
          (table_ext r.size (byte_at written) (byte_at r)
            (λ k lt. rw length-stored (byte_kept k lt)))
          (table_ext (length b) (λ m. byte_at written (r.size + m)) (λ m. get_or b m 0)
              (λ m lt. rw length-stored (byte_added m lt))
            ∙ table-get_or 0 b)

  store_lem : store r b ≡ (length b, none, written)
  unfolding store
  store_lem =
      ap (λ n. (n, none, record r { buffer = stored; size = r.size + n }))
        (both_copied r.buffer start b start_in (omega arith))

  written-IsValid : IsValid written
  written-IsValid = omega (arith, length-stored, v.placed)

write_nil : (r : ReadWriter) → write r [] ≡ (0, none, r)
unfolding write
write_nil r = refl

write-store :
    (r : ReadWriter) (b : Bytes)
    → 0 < length b
    → r.size + length b ≤ length r.buffer
    → write r b ≡ store r b
unfolding write
write-store r b nonempty fits =
    rw
      (ne→== (length b) 0 (omega arith), le→ltb (length r.buffer - r.size) (length b) (omega arith))

-- For a ring in its invariant, a write of at most the free bytes takes them all, appends exactly
-- them to what the ring holds, and keeps the invariant and the capacity.
pub write_fits :
    (r : ReadWriter) (b : Bytes)
    → IsValid r
    → r.size + length b ≤ length r.buffer
    → let (n, e, r') = write r b in
      (n ≡ length b)
      × (e ≡ none)
      × (contents r' ≡ contents r ++ b)
      × IsValid r'
      × (length r'.buffer ≡ length r.buffer)
write_fits r [] v fits = rw (write_nil r) (refl, refl, sym (append-nil (contents r)), v, refl)
write_fits r (x ∷ xs) v fits =
    rw (write-store r (x ∷ xs) (omega arith) fits, store_lem r (x ∷ xs) v fits (omega arith))
      (
        refl,
        refl,
        contents-written r (x ∷ xs) v fits (omega arith),
        written-IsValid r (x ∷ xs) v fits (omega arith),
        length-stored r (x ∷ xs) v fits (omega arith),
      )

-- For a ring in its invariant, a write that does not fit stores nothing and reports the overflow.
pub write_overflows :
    (r : ReadWriter) (b : Bytes)
    → IsValid r
    → length r.buffer < r.size + length b
    → write r b ≡ (0, some write_overflow, r)
unfolding write
write_overflows r b v h = ground arith
