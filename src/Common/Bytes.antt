-- ===== src/Common/Bytes.antt =====
-- core/bytes.go: numbers as big-endian bytes. A byte is a number below 256, a text is its bytes.
use Prim.Native.Nat.{ℕ, zero, suc, ◌+◌, ◌*◌, ◌/◌, ◌%◌, ◌^◌, ◌<◌}
use Prim.Native.Char.{code}
use Prim.Native.String.{String}
use mathlib.Core.Path.{◌≡◌, refl, ap, ◌∙◌}
use mathlib.Core.Bool.{Bool, true, false, ◌&&◌}
use mathlib.Core.Logic.{inl, inr}
use mathlib.Core.List.{List, [], ◌∷◌, ◌++◌}
use native.Mathlib.Nat.{pow-suc}
use native.Mathlib.Omega.{arith}
use httpadapter.Common.Tests.{◌==◌, Bool-cases}
use httpadapter.Common.Lists.{length, length-append}

-- A byte slice or a text.
abbrev pub Bytes : Type 0
Bytes = List ℕ

abbrev pub codes : String → Bytes
codes String.[] = []
codes (String.◌∷◌ c s) = code c ∷ codes s

-- `ByteOrder.PutUint8·w`: the last `w` base-256 digits, the highest first.
unfoldable pub put_uint : ℕ → ℕ → Bytes
put_uint zero v = []
put_uint (suc w) v = put_uint w (v / 256) ++ (v % 256) ∷ []

uint_from : ℕ → Bytes → ℕ
uint_from acc [] = acc
uint_from acc (b ∷ bs) = uint_from (acc * 256 + b) bs

-- `ByteOrder.Uint16`, `Uint32`, `Uint64` on exactly the bytes of the number.
unfoldable pub uint : Bytes → ℕ
unfolding uint_from
uint bs = uint_from 0 bs

pub length-put_uint : (w v : ℕ) → length (put_uint w v) ≡ w
unfolding put_uint
length-put_uint zero v = refl
length-put_uint (suc w) v =
    length-append (put_uint w (v / 256)) _ ∙ omega (arith, length-put_uint w (v / 256))

uint_from-append :
    (acc b : ℕ) (bs : Bytes) → uint_from acc (bs ++ b ∷ []) ≡ uint_from acc bs * 256 + b
unfolding uint_from
uint_from-append acc b [] = refl
uint_from-append acc b (x ∷ bs) = uint_from-append (acc * 256 + x) b bs

-- A number that fits is read back from its bytes.
pub uint-put_uint : (w v : ℕ) → v < 256 ^ w → uint (put_uint w v) ≡ v
unfolding put_uint uint
uint-put_uint zero v h = omega (arith, h)
uint-put_uint (suc w) v h =
    uint_from-append 0 (v % 256) (put_uint w (v / 256))
    ∙ omega (arith, uint-put_uint w (v / 256) (omega (arith, pow-suc 256 w)))

-- What `copy(dst, src)` leaves in `dst`.
unfoldable pub copy_into : Bytes → Bytes → Bytes
copy_into [] src = []
copy_into (d ∷ ds) [] = d ∷ ds
copy_into (d ∷ ds) (b ∷ src) = b ∷ copy_into ds src

-- A source as long as the destination replaces it.
pub copy_into_all : (dst src : Bytes) → length src ≡ length dst → copy_into dst src ≡ src
unfolding copy_into
copy_into_all [] [] h = refl
copy_into_all [] (b ∷ src) h = absurd (omega arith)
copy_into_all (d ∷ ds) [] h = absurd (omega arith)
copy_into_all (d ∷ ds) (b ∷ src) h = ap (◌∷◌ b) (copy_into_all ds src (omega arith))

-- Every item is a byte.
abbrev pub IsBytes : Bytes → Type 0
IsBytes [] = Unit {0}
IsBytes (b ∷ bs) = (b < 256) × IsBytes bs

-- `==` on Go strings.
unfoldable pub bytes_eq : Bytes → Bytes → Bool
bytes_eq [] [] = true
bytes_eq (a ∷ xs) (b ∷ ys) = (a == b) && bytes_eq xs ys
bytes_eq _ _ = false

pub bytes_eq_self : (bs : Bytes) → bytes_eq bs bs ≡ true
unfolding bytes_eq
bytes_eq_self [] = refl
bytes_eq_self (b ∷ bs) = ground (arith, bytes_eq_self bs)

pub bytes_eq→eq : (xs ys : Bytes) → bytes_eq xs ys ≡ true → xs ≡ ys
unfolding bytes_eq
bytes_eq→eq [] [] h = refl
bytes_eq→eq [] (b ∷ ys) h = cc
bytes_eq→eq (a ∷ xs) [] h = cc
bytes_eq→eq (a ∷ xs) (b ∷ ys) h = ground (arith, bytes_eq→eq xs ys)

pub ne→bytes_eq : (xs ys : Bytes) → ¬ (xs ≡ ys) → bytes_eq xs ys ≡ false
ne→bytes_eq xs ys ne = elim (Bool-cases (bytes_eq xs ys)) [
  | inl same ↦ absurd (ne (bytes_eq→eq xs ys same))
  | inr other ↦ other
]

pub uint_single : (b : ℕ) → uint (b ∷ []) ≡ b
unfolding uint
uint_single b = omega arith
