-- ===== src/Common/Tables.antt =====
-- A list given by its length and the value at each place.
use Prim.Native.Nat.{ℕ, zero, suc, ◌+◌, ◌<◌}
use mathlib.Core.Path.{◌≡◌, refl, ap, ap₂, ◌∙◌}
use mathlib.Core.List.{List, [], ◌∷◌, ◌++◌}
use native.Mathlib.Omega.{arith}
use httpadapter.Common.Lists.{length, get_or}

module _ {ℓ} {A : Type ℓ} where
  abbrev pub table : ℕ → (ℕ → A) → List A
  table zero f = []
  table (suc n) f = f 0 ∷ table n (λ k. f (suc k))

  pub length-table : (n : ℕ) (f : ℕ → A) → length (table n f) ≡ n
  length-table zero f = refl
  length-table (suc n) f = ap suc (length-table n (λ k. f (suc k)))

  -- Tables agree when their values agree at each place.
  pub table_ext : (n : ℕ) (f g : ℕ → A) → ((k : ℕ) → k < n → f k ≡ g k) → table n f ≡ table n g
  table_ext zero f g h = refl
  table_ext (suc n) f g h =
      ap₂ ◌∷◌ (h 0 (omega arith))
        (table_ext n (λ k. f (suc k)) (λ k. g (suc k)) (λ k lt. h (suc k) (omega arith)))

  pub table-append : (n m : ℕ) (f : ℕ → A) → table (n + m) f ≡ table n f ++ table m (λ k. f (n + k))
  table-append zero m f =
      ap (λ k. table k f) (omega arith) ∙ table_ext m f (λ k. f (0 + k)) λ k lt. ap f (omega arith)
  table-append (suc n) m f =
      ap (λ k. table k f) (let e : suc n + m ≡ suc (n + m) = omega arith in e)
      ∙ ap (◌∷◌ (f 0)) (
          table-append n m (λ k. f (suc k))
          ∙ ap (◌++◌ (table n (λ k. f (suc k))))
              (table_ext m _ _ (λ k lt. ap f (let e : suc (n + k) ≡ suc n + k = omega arith in e))))

  pub table-get_or : (d : A) (xs : List A) → table (length xs) (λ k. get_or xs k d) ≡ xs
  table-get_or d [] = refl
  table-get_or d (x ∷ xs) = ap (◌∷◌ x) (table-get_or d xs)
