-- ===== src/Transport/Delivery.antt =====
-- The loop that reads the data of a write command.
use httpadapter.Common.{
  ℕ, zero, suc, ◌-◌, ◌≤◌, ◌<◌, min, ◌≡◌, refl, sym, ap, ◌∙◌, ◌≢◌, List, [], ◌∷◌, ◌++◌, append_assoc,
  arith, ne→==, length, take, drop, length-take, length-drop, take-append-drop, All,
  empty_of_length, flatten,
}
use native.Mathlib.Decide.{ℕ_discrete}
use httpadapter.Common.Bytes.{Bytes}
use httpadapter.Common.Io.{read_full-append}
use httpadapter.Transport.{piece_max, piece_size, arrived, read_pieces}

-- A piece holds something, and at most the whole.
pub piece_max_lem :
    (size_b size : ℕ) → 0 < size → (0 < piece_max size_b size) × (piece_max size_b size ≤ size)
unfolding piece_max
piece_max_lem size_b size h = ground arith

-- What the pieces do to the state.
abbrev pub fold_pieces {ℓ} : {A : Type ℓ} → (Bytes → A → A) → List Bytes → A → A
fold_pieces deliver [] a = a
fold_pieces deliver (p ∷ ps) a = fold_pieces deliver ps (deliver p a)

-- The data cut into pieces of at most `max` bytes.
abbrev pub IsPiece : ℕ → Bytes → Type 0
IsPiece max bs = (0 < length bs) × (length bs ≤ max)

piece_size_lem : (max size : ℕ) → piece_size max size ≡ min max size
unfolding piece_size
piece_size_lem max size = ground arith

module _ {ℓ} {A : Type ℓ} (deliver : Bytes → A → A) where
  read_pieces_stop :
      (fuel max : ℕ) (a : A) (input : Bytes)
      → read_pieces deliver (suc fuel) max 0 a input ≡ arrived a input
  unfolding read_pieces
  read_pieces_stop fuel max a input = refl

  read_pieces_step :
      (fuel max size : ℕ) (a : A) (bs rest : Bytes)
      → size ≢ 0
      → length bs ≡ min max size
      → read_pieces deliver (suc fuel) max size a (bs ++ rest)
        ≡ read_pieces deliver fuel max (size - min max size) (deliver bs a) rest
  unfolding read_pieces
  read_pieces_step fuel max size a bs rest ne e =
      rw (ne→== size 0 ne, piece_size_lem max size, read_full-append (min max size) bs rest e)
        (ap (λ (k : ℕ). read_pieces deliver fuel max (size - k) (deliver bs a) rest)
          (piece_size_lem max size))

  -- On an input that holds the data the loop ends: the state has taken all of the data in order, in
  -- pieces of the size of the reader's buffer, and what follows the data is left.
  pub read_pieces_arrive :
      (fuel max : ℕ) (a : A) (bs rest : Bytes)
      → length bs < fuel
      → 0 < max
      → (pieces : List Bytes) × (read_pieces deliver fuel max (length bs) a (bs ++ rest)
          ≡ arrived (fold_pieces deliver pieces a) rest)
        × (flatten pieces ≡ bs)
        × All (IsPiece max) pieces
  read_pieces_arrive zero max a bs rest h pos = absurd (omega arith)
  read_pieces_arrive (suc fuel) max a bs rest h pos = elim (ℕ_discrete (length bs) 0) [
    | yes e ↦ (
      [],
      ap (λ (k : ℕ). read_pieces deliver (suc fuel) max k a (bs ++ rest)) e
          ∙ read_pieces_stop fuel max a (bs ++ rest)
          ∙ ap (arrived a) (ap (λ (t : Bytes). t ++ rest) (empty_of_length bs e)),
      sym (empty_of_length bs e),
      tt,
    )
    | no ne ↦
        let n = min max (length bs) in
        let size : length (take n bs) ≡ n = omega (arith, length-take n bs) in
        let (pieces, e, all, ok) =
          read_pieces_arrive fuel max (deliver (take n bs) a) (drop n bs) rest
            (omega (arith, length-drop n bs)) pos in
        (
          take n bs ∷ pieces,
          ap (λ (t : Bytes). read_pieces deliver (suc fuel) max (length bs) a (t ++ rest))
                (sym (take-append-drop n bs))
              ∙ ap (read_pieces deliver (suc fuel) max (length bs) a)
                  (append_assoc (take n bs) (drop n bs) rest)
              ∙ read_pieces_step fuel max (length bs) a (take n bs) (drop n bs ++ rest) ne size
              ∙ ap
                  (λ (k : ℕ).
                    read_pieces deliver fuel max k (deliver (take n bs) a) (drop n bs ++ rest))
                  (sym (length-drop n bs))
              ∙ e,
          ap (◌++◌ (take n bs)) all ∙ take-append-drop n bs,
          (omega (arith, size), ok),
        )
  ]
