-- ===== src/Transport/Progress.antt =====
-- The loop that reads the data of a write command, on any input.
use httpadapter.Common.{ℕ, zero, suc, ◌-◌, ◌≤◌, ◌<◌, ◌≢◌, inl, inr, arith, eq→==, ne→==, length}
use native.Mathlib.Decide.{ℕ_discrete}
use httpadapter.Common.Bytes.{Bytes}
use httpadapter.Common.Io.{read_full, ReadFull-cases, read_full-eq-full}
use httpadapter.Transport.{piece_size, Pieces, arrived, short, spins, read_pieces}

-- The loop ended, in a state with the property `P`, and only took bytes off an input of `size`.
abbrev pub Outcome {ℓ} : {A : Type ℓ} → (A → Type 0) → ℕ → Pieces A → Type 0
Outcome P size (arrived a rest) = P a × (length rest ≤ size)
Outcome P size (short a) = P a
Outcome P size spins = ⊥

Outcome-mono {ℓ} :
    {A : Type ℓ} (P : A → Type 0) (m n : ℕ) (r : Pieces A) → m ≤ n → Outcome P m r → Outcome P n r
Outcome-mono P m n (arrived a rest) le h = (h.0, omega (arith, h.1))
Outcome-mono P m n (short a) le h = h
Outcome-mono P m n spins le h = h

piece_size_drop :
    (max size fuel : ℕ)
    → size ≢ 0
    → size < suc fuel
    → (0 < size → 0 < max)
    → size - piece_size max size < fuel
unfolding piece_size
piece_size_drop max size fuel ne h pos = ground arith

module _ {ℓ} {A : Type ℓ} (deliver : Bytes → A → A) (P : A → Type 0)
    (keep : (bs : Bytes) (a : A) → P a → P (deliver bs a)) where
  -- Whatever arrives, the loop ends, only takes bytes off the input, and keeps what each piece keeps.
  pub read_pieces-Outcome :
      (fuel max size : ℕ) (a : A) (input : Bytes)
      → size < fuel
      → (0 < size → 0 < max)
      → P a
      → Outcome P (length input) (read_pieces deliver fuel max size a input)
  unfolding read_pieces piece_size
  read_pieces-Outcome zero max size a input h pos p = absurd (omega arith)
  read_pieces-Outcome (suc fuel) max size a input h pos p = elim (ℕ_discrete size 0) [
    | yes e ↦ rw (eq→== size 0 e) (p, omega arith)
    | no ne ↦ rw (ne→== size 0 ne) (elim (ReadFull-cases (read_full (piece_size max size) input)) [
      | inl (x, e) ↦ rw e p
      | inr (bs, rest, e) ↦ rw e (
          Outcome-mono P (length rest) (length input) _
            (omega (arith, (read_full-eq-full (piece_size max size) input bs rest e).1))
            (read_pieces-Outcome fuel max (size - piece_size max size) (deliver bs a) rest
              (piece_size_drop max size fuel ne h pos) (λ more. pos (omega arith)) (keep bs a p)))
    ])
  ]
