-- ===== src/Websocket/Reader/Draining.antt =====
-- Reads that take a frame's data off the connection.
use httpadapter.Common.{
  ℕ, zero, suc, ◌+◌, ◌-◌, ◌≤◌, ◌<◌, min, ◌≡◌, refl, sym, ap, ◌∙◌, Option, none, some, [], ◌∷◌, ◌++◌,
  append_assoc, arith, ne→==, length, take, drop, length-append, length-take, length-drop,
  take-append-drop, take-append, drop-append,
}
use httpadapter.Common.Bytes.{Bytes}
use httpadapter.Common.Io.{IoError, eof}
use httpadapter.Websocket.Reader.{
  Reader, read_chunk, after_chunk, read_framed, read, ahead, go_on, read_all,
}

-- A reader in a frame with `n` bytes left, whose flag is `l`.
abbrev pub inside : ℕ → ℕ → Bytes → Reader
inside l n input = record { input = input; limit = some n; last = l; err = none }

-- A reader between two frames.
abbrev pub between : ℕ → Bytes → Reader
between l input = record { input = input; limit = none; last = l; err = none }

read-inside :
    (k l n : ℕ) (input : Bytes)
    → read k (inside l n input) ≡ some (after_chunk (read_chunk k n (inside l n input)))
unfolding read read_framed
read-inside k l n input = refl

chunk_some :
    (k l n : ℕ) (a b : Bytes)
    → 0 < n
    → 0 < length a
    → length a ≡ min k n
    → read_chunk k n (inside l n (a ++ b)) ≡ (a, none, inside l (n - length a) b)
unfolding read_chunk
chunk_some k l n a b pos some_bytes e =
    rw
      (
        ne→== n 0 (omega arith),
        ne→== (length (a ++ b)) 0 (omega (arith, length-append a b)),
        take-append (min k n) a b e,
        drop-append (min k n) a b e,
      )
      refl

read-some :
    (k l n : ℕ) (a b : Bytes)
    → 0 < n
    → 0 < length a
    → length a ≡ min k n
    → read k (inside l n (a ++ b)) ≡ some (a, none, inside l (n - length a) b)
unfolding after_chunk
read-some k l n a b pos some_bytes e =
    read-inside k l n (a ++ b)
    ∙ ap (λ x. some (after_chunk x)) (chunk_some k l n a b pos some_bytes e)

pub ahead-nil : (x : Option (Bytes × Option IoError × Reader)) → ahead [] x ≡ x
ahead-nil none = refl
ahead-nil (some (bs, e, r)) = refl

pub ahead-append :
    (a b : Bytes) (x : Option (Bytes × Option IoError × Reader))
    → ahead (a ++ b) x ≡ ahead a (ahead b x)
ahead-append a b none = refl
ahead-append a b (some (bs, e, r)) = ap (λ t. some (t, e, r)) (append_assoc a b bs)

module _ (sizes : ℕ → ℕ) where
  pub read_all_step :
      (fuel i : ℕ) (r r' : Reader) (bs : Bytes)
      → read (suc (sizes i)) r ≡ some (bs, none, r')
      → read_all (suc fuel) sizes i r ≡ ahead bs (read_all fuel sizes (suc i) r')
  unfolding read_all
  read_all_step fuel i r r' bs e = ap (λ x. go_on x (λ s. read_all fuel sizes (suc i) s)) e

  pub read_all_stop :
      (fuel i : ℕ) (r r' : Reader) (bs : Bytes)
      → read (suc (sizes i)) r ≡ some (bs, some eof, r')
      → read_all (suc fuel) sizes i r ≡ some (bs, none, r')
  unfolding read_all
  read_all_stop fuel i r r' bs e = ap (λ x. go_on x (λ s. read_all fuel sizes (suc i) s)) e

  -- The data of a frame is read in order, whatever the sizes of the reads.
  pub drain :
      (fuel i l : ℕ) (p tail : Bytes)
      → length p ≤ fuel
      → (fuel' : ℕ) × (j : ℕ) × (fuel ≤ fuel' + length p)
        × (read_all fuel sizes i (inside l (length p) (p ++ tail))
            ≡ ahead p (read_all fuel' sizes j (inside l 0 tail)))
  drain fuel i l [] tail h = (fuel, i, omega arith, sym (ahead-nil _))
  drain zero i l (x ∷ p) tail h = absurd (omega arith)
  drain (suc fuel) i l (x ∷ p) tail h =
      let n = length (x ∷ p) in
      let m = min (suc (sizes i)) n in
      let a = take m (x ∷ p) in
      let b = drop m (x ∷ p) in
      let size : length a ≡ m = omega (arith, length-take m (x ∷ p)) in
      let left : length b ≡ n - length a = omega (arith, length-drop m (x ∷ p), size) in
      let (fuel', j, le, e) = drain fuel (suc i) l b tail (omega (arith, left, size)) in
      (
        fuel',
        j,
        omega (arith, le, left, size),
        ap (λ (t : Bytes). read_all (suc fuel) sizes i (inside l n t))
              (ap (λ (t : Bytes). t ++ tail) (sym (take-append-drop m (x ∷ p)))
                ∙ append_assoc a b tail)
            ∙ read_all_step fuel i (inside l n (a ++ (b ++ tail)))
                (inside l (n - length a) (b ++ tail)) a
                (read-some (suc (sizes i)) l n a (b ++ tail) (omega arith) (omega (arith, size))
                  size)
            ∙ ap (λ (k : ℕ). ahead a (read_all fuel sizes (suc i) (inside l k (b ++ tail))))
                (sym left)
            ∙ ap (ahead a) e
            ∙ sym (ahead-append a b _)
            ∙ ap (λ (t : Bytes). ahead t (read_all fuel' sizes j (inside l 0 tail)))
                (take-append-drop m (x ∷ p)),
      )
