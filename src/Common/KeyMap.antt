-- ===== src/Common/KeyMap.antt =====
-- Go maps with uint64 keys, as lists of pairs.
use Prim.Native.Nat.{ℕ, suc, ◌≤◌, ◌<◌}
use mathlib.Core.Path.{◌≡◌, refl}
use mathlib.Core.Logic.{◌≢◌}
use mathlib.Core.Option.{Option, none, some}
use mathlib.Core.List.{List, [], ◌∷◌}
use native.Mathlib.Omega.{arith}
use httpadapter.Common.Tests.{◌==◌, if◌then◌else◌}
use httpadapter.Common.Lists.{length}

module _ {ℓ} {V : Type ℓ} where
  -- `m[k]`
  unfoldable pub lookup : ℕ → List (ℕ × V) → Option V
  lookup k [] = none
  lookup k ((j, v) ∷ m) = if j == k then some v else lookup k m

  -- `delete(m, k)`
  unfoldable pub erase : ℕ → List (ℕ × V) → List (ℕ × V)
  erase k [] = []
  erase k ((j, v) ∷ m) = if j == k then erase k m else (j, v) ∷ erase k m

  -- `m[k] = v`
  unfoldable pub insert : ℕ → V → List (ℕ × V) → List (ℕ × V)
  unfolding erase
  insert k v m = (k, v) ∷ erase k m

  -- The value at `k` in place, if there is one.
  unfoldable pub adjust : ℕ → V → List (ℕ × V) → List (ℕ × V)
  adjust k v [] = []
  adjust k v ((j, w) ∷ m) = if j == k then (j, v) ∷ m else (j, w) ∷ adjust k v m

  pub lookup-erase :
      (k j : ℕ) (m : List (ℕ × V)) → lookup j (erase k m) ≡ (if k == j then none else lookup j m)
  unfolding lookup erase
  lookup-erase k j [] = ground arith
  lookup-erase k j ((i, w) ∷ m) = ground (arith, lookup-erase k j m)

  pub lookup-insert :
      (k j : ℕ) (v : V) (m : List (ℕ × V))
      → lookup j (insert k v m) ≡ (if k == j then some v else lookup j m)
  unfolding lookup insert
  lookup-insert k j v m = ground (arith, lookup-erase k j m)

  pub lookup-adjust :
      (k j : ℕ) (v w : V) (m : List (ℕ × V))
      → lookup k m ≡ some w
      → lookup j (adjust k v m) ≡ (if k == j then some v else lookup j m)
  unfolding lookup adjust
  lookup-adjust k j v w [] h = ground arith
  lookup-adjust k j v w ((i, u) ∷ m) h = ground (arith, lookup-adjust k j v w m)

  -- No key stands twice.
  abbrev pub Fresh : ℕ → List (ℕ × V) → Type 0
  Fresh k [] = Unit {0}
  Fresh k ((j, v) ∷ m) = (j ≢ k) × Fresh k m

  abbrev pub Distinct : List (ℕ × V) → Type 0
  Distinct [] = Unit {0}
  Distinct ((k, v) ∷ m) = Fresh k m × Distinct m

  pub erase-Fresh : (k j : ℕ) (m : List (ℕ × V)) → Fresh j m → Fresh j (erase k m)
  unfolding erase
  erase-Fresh k j [] h = tt
  erase-Fresh k j ((i, w) ∷ m) h = ground (arith, erase-Fresh k j m h.1)

  pub erase-Fresh_self : (k : ℕ) (m : List (ℕ × V)) → Fresh k (erase k m)
  unfolding erase
  erase-Fresh_self k [] = tt
  erase-Fresh_self k ((i, w) ∷ m) = ground (arith, erase-Fresh_self k m)

  pub erase-Distinct : (k : ℕ) (m : List (ℕ × V)) → Distinct m → Distinct (erase k m)
  unfolding erase
  erase-Distinct k [] h = tt
  erase-Distinct k ((i, w) ∷ m) h = ground (arith, erase-Distinct k m h.1, erase-Fresh k i m h.0)

  pub insert-Distinct : (k : ℕ) (v : V) (m : List (ℕ × V)) → Distinct m → Distinct (insert k v m)
  unfolding insert
  insert-Distinct k v m h = (erase-Fresh_self k m, erase-Distinct k m h)

  pub adjust-Fresh : (k j : ℕ) (v : V) (m : List (ℕ × V)) → Fresh j m → Fresh j (adjust k v m)
  unfolding adjust
  adjust-Fresh k j v [] h = tt
  adjust-Fresh k j v ((i, w) ∷ m) h = ground (arith, adjust-Fresh k j v m h.1)

  pub adjust-Distinct : (k : ℕ) (v : V) (m : List (ℕ × V)) → Distinct m → Distinct (adjust k v m)
  unfolding adjust
  adjust-Distinct k v [] h = tt
  adjust-Distinct k v ((i, w) ∷ m) h =
      ground (arith, adjust-Distinct k v m h.1, adjust-Fresh k i v m h.0)

  pub length-erase : (k : ℕ) (m : List (ℕ × V)) → length (erase k m) ≤ length m
  unfolding erase
  length-erase k [] = omega arith
  length-erase k ((i, w) ∷ m) = ground (arith, length-erase k m)

  pub length-erase_present :
      (k : ℕ) (v : V) (m : List (ℕ × V)) → lookup k m ≡ some v → length (erase k m) < length m
  unfolding lookup erase
  length-erase_present k v [] h = ground arith
  length-erase_present k v ((i, w) ∷ m) h =
      ground (arith, length-erase k m, length-erase_present k v m)

  pub length-insert : (k : ℕ) (v : V) (m : List (ℕ × V)) → length (insert k v m) ≤ suc (length m)
  unfolding insert
  length-insert k v m = omega (arith, length-erase k m)

  pub length-adjust : (k : ℕ) (v : V) (m : List (ℕ × V)) → length (adjust k v m) ≡ length m
  unfolding adjust
  length-adjust k v [] = refl
  length-adjust k v ((i, w) ∷ m) = ground (arith, length-adjust k v m)
