-- ===== src/Websocket/Reader/Truncated.antt =====
-- A message that the end of the channel cuts off.
use httpadapter.Common.{
  ℕ, zero, suc, ◌+◌, ◌-◌, ◌*◌, ◌≤◌, ◌<◌, min, ◌≡◌, refl, ap, ◌∙◌, inl, inr, none, some, [], ◌∷◌,
  ◌++◌, arith, ◌==◌, ne→==, Bool-cases, length, take, drop, length-append, length-take, length-drop,
  take-append-drop,
}
use httpadapter.Common.Bytes.{Bytes, put_uint}
use httpadapter.Common.Io.{eof, read_full}
use httpadapter.Core.Hello.{max_uint16}
use httpadapter.Websocket.{frame_head}
use httpadapter.Websocket.Reader.{
  next_frame, read_chunk, after_chunk, read_framed, read, ahead, read_all, message, read_end,
  read_message, read_from,
}
use httpadapter.Websocket.Reader.Draining.{inside, between, read_all_step, read_all_stop}
use httpadapter.Websocket.Reader.Whole.{message_begin}

read_short :
    (k l n : ℕ) (p : Bytes)
    → 0 < n
    → 0 < length p
    → read k (inside l n p)
      ≡ some (take (min k n) p, none, inside l (n - length (take (min k n) p)) (drop (min k n) p))
unfolding read read_framed read_chunk after_chunk
read_short k l n p pos some_bytes =
    rw (ne→== n 0 (omega arith), ne→== (length p) 0 (omega arith)) refl

-- The input ends: the frame is left without an error.
read_nothing : (k n : ℕ) → read k (inside 0 n []) ≡ some ([], none, between 0 [])
unfolding read read_framed read_chunk after_chunk
read_nothing k n = elim (Bool-cases (n == 0)) [ inl e ↦ rw e refl | inr e ↦ rw e refl ]

read_no_head :
    (k : ℕ) → read k (between 0 []) ≡ some ([], some eof, record (between 0 []) { err = some eof })
unfolding read next_frame read_framed read_full
read_no_head k = refl

module _ (sizes : ℕ → ℕ) where
  -- What there is of a frame is read, and then the frame is left.
  drain_short :
      (fuel i n : ℕ) (p : Bytes)
      → length p < n
      → length p + 1 < fuel
      → read_all fuel sizes i (inside 0 n p)
        ≡ some (p, none, record (between 0 []) { err = some eof })
  drain_short zero i n p more h = absurd (omega arith)
  drain_short (suc zero) i n p more h = absurd (omega arith)
  drain_short (suc (suc fuel)) i n [] more h =
      read_all_step sizes (suc fuel) i _ _ [] (read_nothing (suc (sizes i)) n)
      ∙ ap (ahead []) (read_all_stop sizes fuel (suc i) _ _ [] (read_no_head (suc (sizes (suc i)))))
  drain_short (suc (suc fuel)) i n (x ∷ p) more h =
      let m = min (suc (sizes i)) n in
      let a = take m (x ∷ p) in
      let b = drop m (x ∷ p) in
      let size : length a ≡ min m (length (x ∷ p)) = length-take m (x ∷ p) in
      let left : length b ≡ length (x ∷ p) - m = length-drop m (x ∷ p) in
      read_all_step sizes (suc fuel) i _ _ a
        (read_short (suc (sizes i)) 0 n (x ∷ p) (omega arith) (omega arith))
      ∙ ap (ahead a) (
          drain_short (suc fuel) (suc i) (n - length a) b (omega (arith, size, left))
            (omega (arith, left)))
      ∙ ap (λ (t : Bytes). some (t, none, record (between 0 []) { err = some eof }))
          (take-append-drop m (x ∷ p))

  -- A message whose channel ends within its first frame is returned as if it were complete: what
  -- had arrived of it, and no error.
  pub truncated_message :
      (t n : ℕ) (part : Bytes)
      → length part < n
      → n ≤ max_uint16
      → read_message sizes (t ∷ (frame_head n ++ part)) ≡ message t part none []
  unfolding read_message
  truncated_message t n part cut_off small =
      let input = t ∷ (frame_head n ++ part) in
      let fuel = suc (suc (2 * length input)) in
      ap (read_from sizes fuel) (message_begin sizes t n part small)
      ∙ ap (read_end t)
          (drain_short fuel 0 n part cut_off (omega (arith, length-append (put_uint 2 n) part)))
