-- ===== src/Websocket/Reader/Whole.antt =====
-- A message that arrives whole.
use httpadapter.Common.{
  ℕ, zero, suc, ◌+◌, ◌-◌, ◌*◌, ◌≤◌, ◌<◌, ◌≡◌, refl, sym, ap, subst, ◌∙◌, Option, none, some, List,
  [], ◌∷◌, ◌++◌, append-nil, append_assoc, arith, ne→==, length, length-append, All, flatten,
}
use httpadapter.Common.Bytes.{Bytes, put_uint, length-put_uint, uint-put_uint}
use httpadapter.Common.Io.{IoError, eof, read_full-append}
use httpadapter.Core.Hello.{max_uint16}
use httpadapter.Websocket.{frame_head}
use httpadapter.Websocket.Frames.{IsPayload, framed}
use httpadapter.Websocket.Reader.{
  on_head, on_size, read_framed, go_on, Reader, frame, next_frame, read_chunk, after_chunk, read,
  ahead, read_all, next_reader, message, read_end, read_message, first_frame, read_from,
}
use httpadapter.Websocket.Reader.Draining.{
  inside, between, read_all_step, read_all_stop, ahead-nil, drain,
}

-- The last frame of a message, which may hold data.
abbrev pub final : Bytes → Bytes
final q = 1 ∷ (put_uint 2 (length q) ++ q)

frame_done : (k : ℕ) (input : Bytes) → read k (inside 0 0 input) ≡ some ([], none, between 0 input)
unfolding read read_framed read_chunk after_chunk
frame_done k input = refl

message_done :
    (k l : ℕ) (input : Bytes)
    → read k (inside (suc l) 0 input)
      ≡ some ([], some eof, record (inside (suc l) 0 input) { err = some eof })
unfolding read read_framed read_chunk after_chunk
message_done k l input = rw (ne→== (suc l) 0 (omega arith)) refl

-- The head of a frame that holds something.
next_frame_lem :
    (fuel l l' n : ℕ) (rest : Bytes)
    → 0 < n
    → n ≤ max_uint16
    → next_frame (suc fuel) (between l (l' ∷ (put_uint 2 n ++ rest))) ≡ frame n (inside l' n rest)
unfolding next_frame
next_frame_lem fuel l l' n rest pos small =
    ap (on_head (λ s. next_frame fuel s) (between l (l' ∷ (put_uint 2 n ++ rest))))
      (read_full-append 3 (l' ∷ put_uint 2 n) rest (omega (arith, length-put_uint 2 n)))
    ∙ ap
        (λ (size : ℕ).
          on_size (λ s. next_frame fuel s) size (record (between l rest) { last = l' }))
        (uint-put_uint 2 n (omega arith))
    ∙ rw (ne→== n 0 (omega arith)) refl

read_next :
    (k l l' n : ℕ) (rest : Bytes)
    → 0 < n
    → n ≤ max_uint16
    → read k (between l (l' ∷ (put_uint 2 n ++ rest))) ≡ read k (inside l' n rest)
unfolding read
read_next k l l' n rest pos small = ap (read_framed k) (next_frame_lem _ l l' n rest pos small)

-- The end of a message without data.
read_end_frame :
    (k l : ℕ) (rest : Bytes)
    → (r : Reader) × (read k (between l (1 ∷ (put_uint 2 0 ++ rest))) ≡ some ([], some eof, r))
      × (r.input ≡ rest)
unfolding read next_frame read_framed
read_end_frame k l rest =
    let input = 1 ∷ (put_uint 2 0 ++ rest) in
    (
      record { input = rest; limit = none; last = 1; err = some eof },
      ap (read_framed k) (
          ap (on_head (λ s. next_frame (length input) s) (between l input))
            (read_full-append 3 (1 ∷ put_uint 2 0) rest (omega (arith, length-put_uint 2 0)))
          ∙ ap
              (λ (size : ℕ).
                on_size (λ s. next_frame (length input) s) size
                  (record (between l rest) { last = 1 }))
              (uint-put_uint 2 0 (omega arith))),
      refl,
    )

pub length-framed :
    (f : Bytes) (fs : List Bytes) → length (framed (f ∷ fs)) ≡ 3 + length f + length (framed fs)
length-framed f fs = omega (
  arith,
  length-append (put_uint 2 (length f)) (f ++ framed fs),
  length-append f (framed fs),
  length-put_uint 2 (length f),
)

pub framed_rest :
    (f : Bytes) (fs : List Bytes) (tail : Bytes)
    → framed (f ∷ fs) ++ tail ≡ 0 ∷ (put_uint 2 (length f) ++ (f ++ (framed fs ++ tail)))
framed_rest f fs tail =
    ap (λ (t : Bytes). 0 ∷ t)
      (append_assoc (put_uint 2 (length f)) (f ++ framed fs) tail
        ∙ ap (◌++◌ (put_uint 2 (length f))) (append_assoc f (framed fs) tail))

module _ (sizes : ℕ → ℕ) where
  read_all_same :
      (fuel i : ℕ) (r r' : Reader)
      → read (suc (sizes i)) r ≡ read (suc (sizes i)) r'
      → read_all fuel sizes i r ≡ read_all fuel sizes i r'
  unfolding read_all
  read_all_same zero i r r' e = refl
  read_all_same (suc fuel) i r r' e = ap (λ x. go_on x (λ s. read_all fuel sizes (suc i) s)) e

  last_read :
      (fuel i l : ℕ) (tail : Bytes)
      → 0 < fuel
      → read_all fuel sizes i (inside (suc l) 0 tail)
        ≡ some ([], none, record (inside (suc l) 0 tail) { err = some eof })
  last_read zero i l tail h = absurd (omega arith)
  last_read (suc fuel) i l tail h =
      read_all_stop sizes fuel i _ _ [] (message_done (suc (sizes i)) l tail)

  -- The last frame of a message.
  message_end :
      (fuel i : ℕ) (q tail : Bytes)
      → length q ≤ max_uint16
      → length q < fuel
      → (r : Reader) × (read_all fuel sizes i (between 0 (final q ++ tail)) ≡ some (q, none, r))
        × (r.input ≡ tail)
  message_end zero i q tail small h = absurd (omega arith)
  message_end (suc fuel) i [] tail small h =
      let (r, e, left) = read_end_frame (suc (sizes i)) 0 tail in
      (
        r,
        ap (λ (t : Bytes). read_all (suc fuel) sizes i (between 0 (1 ∷ t)))
              (append_assoc (put_uint 2 0) [] tail)
            ∙ read_all_stop sizes fuel i _ r [] e,
        left,
      )
  message_end (suc fuel) i (x ∷ q') tail small h =
      let q = x ∷ q' in
      let (fuel', j, le, e) = drain sizes (suc fuel) i 1 q tail (omega arith) in
      (
        record (inside 1 0 tail) { err = some eof },
        ap (λ (t : Bytes). read_all (suc fuel) sizes i (between 0 (1 ∷ t)))
              (append_assoc (put_uint 2 (length q)) q tail)
            ∙ read_all_same (suc fuel) i _ _
                (read_next (suc (sizes i)) 0 1 (length q) (q ++ tail) (omega arith) small)
            ∙ e
            ∙ ap (ahead q) (last_read fuel' j 0 tail (omega (arith, le)))
            ∙ ap (λ (t : Bytes). some (t, none, record (inside 1 0 tail) { err = some eof }))
                (append-nil q),
        refl,
      )

  -- The end of a frame costs a read.
  leave_to :
      (fuel i : ℕ) (input : Bytes) {out : Option (Bytes × Option IoError × Reader)}
      → 0 < fuel
      → read_all (fuel - 1) sizes (suc i) (between 0 input) ≡ out
      → read_all fuel sizes i (inside 0 0 input) ≡ out
  leave_to zero i input h e = absurd (omega arith)
  leave_to (suc fuel) i input {out} h e =
      read_all_step sizes fuel i _ _ [] (frame_done (suc (sizes i)) input)
      ∙ ahead-nil _
      ∙ subst (λ (n : ℕ). read_all n sizes (suc i) (between 0 input) ≡ out) (omega arith) e

  -- The rest of a message from within a frame: what the frame has left, the other frames, and the
  -- last frame.
  message_rest :
      (fuel i : ℕ) (p : Bytes) (fs : List Bytes) (q tail : Bytes)
      → All IsPayload fs
      → length q ≤ max_uint16
      → length p + length (framed fs) + length q + 1 < fuel
      → (r : Reader) × (read_all fuel sizes i
            (inside 0 (length p) (p ++ (framed fs ++ (final q ++ tail))))
          ≡ some (p ++ (flatten fs ++ q), none, r))
        × (r.input ≡ tail)
  message_rest fuel i p [] q tail good small h =
      let (fuel', j, le, e) = drain sizes fuel i 0 p (final q ++ tail) (omega arith) in
      let (r, f, left) = message_end (fuel' - 1) (suc j) q tail small (omega (arith, le)) in
      (r, e ∙ ap (ahead p) (leave_to fuel' j _ (omega (arith, le)) f), left)
  message_rest fuel i p (f ∷ fs) q tail good small h =
      let more = framed fs ++ (final q ++ tail) in
      let (fuel', j, le, e) =
        drain sizes fuel i 0 p (framed (f ∷ fs) ++ (final q ++ tail)) (omega arith) in
      let size = length-framed f fs in
      let (r, g, left) =
        message_rest (fuel' - 1) (suc j) f fs q tail good.1 small (omega (arith, le, size)) in
      let start =
        ap (λ (t : Bytes). read_all (fuel' - 1) sizes (suc j) (between 0 t))
          (framed_rest f fs (final q ++ tail))
        ∙ read_all_same (fuel' - 1) (suc j) _ _
            (read_next (suc (sizes (suc j))) 0 0 (length f) (f ++ more) good.0.0 good.0.1) in
      (
        r,
        e
            ∙ ap (ahead p) (leave_to fuel' j _ (omega (arith, le, size)) (start ∙ g))
            ∙ ap (λ (t : Bytes). some (p ++ t, none, r)) (sym (append_assoc f (flatten fs) q)),
        left,
      )

  pub message_begin :
      (t n : ℕ) (rest : Bytes)
      → n ≤ max_uint16
      → next_reader (t ∷ (frame_head n ++ rest)) ≡ some (t, inside 0 n rest)
  unfolding next_reader
  message_begin t n rest small =
      ap first_frame
        (read_full-append 4 (t ∷ 0 ∷ put_uint 2 n) rest (omega (arith, length-put_uint 2 n)))
      ∙ ap (λ (size : ℕ). some (t, inside 0 size rest)) (uint-put_uint 2 n (omega arith))

  -- A message whose frames hold `p`, then the payloads `fs`, and whose last frame holds `q` is read
  -- whole, without an error, whatever the sizes of the reads; what follows it stays on the
  -- connection. The last frame may be empty, and so may the first.
  pub message_read :
      (t : ℕ) (p : Bytes) (fs : List Bytes) (q tail : Bytes)
      → length p ≤ max_uint16
      → All IsPayload fs
      → length q ≤ max_uint16
      → read_message sizes (t ∷ (frame_head (length p) ++ (p ++ (framed fs ++ (final q ++ tail)))))
        ≡ message t (p ++ (flatten fs ++ q)) none tail
  unfolding read_message
  message_read t p fs q tail short good small =
      let input = t ∷ (frame_head (length p) ++ (p ++ (framed fs ++ (final q ++ tail)))) in
      let lower : length p + length (framed fs) + length q + 4 < length input = omega (
        arith,
        length-append (put_uint 2 (length p)) (p ++ (framed fs ++ (final q ++ tail))),
        length-append p (framed fs ++ (final q ++ tail)),
        length-append (framed fs) (final q ++ tail),
        length-append (final q) tail,
        length-append (put_uint 2 (length q)) q,
        length-put_uint 2 (length p),
        length-put_uint 2 (length q),
      ) in
      let room : length p + length (framed fs) + length q + 1 < suc (suc (2 * length input)) =
        omega (arith, lower) in
      let (r, e, left) =
        message_rest (suc (suc (2 * length input))) 0 p fs q tail good small room in
      ap (read_from sizes (suc (suc (2 * length input))))
        (message_begin t (length p) (p ++ (framed fs ++ (final q ++ tail))) short)
      ∙ ap (read_end t) e
      ∙ ap (message t (p ++ (flatten fs ++ q)) none) left
