-- ===== src/Common/Io.antt =====
-- What the program uses of Go's io package and of slices. An input is the bytes that arrive before
-- the connection ends; a slice is its length and capacity, where the contents do not matter.
use httpadapter.Common.Tests.{if◌then◌else◌, leb, ◌==◌, le→leb, lt→leb}
use httpadapter.Common.Lists.{
  length, take, drop, take-append, drop-append, take-append-drop, length-append, length-take,
  length-drop,
}
use httpadapter.Common.Bytes.{Bytes}
use Prim.Native.Nat.{ℕ, ◌+◌, ◌-◌, ◌≤◌, ◌<◌}
use mathlib.Core.Path.{◌≡◌, refl, sym, ap, ap₂, ◌∙◌}
use mathlib.Core.List.{◌++◌}
use mathlib.Core.Logic.{◌⊎◌, inl, inr}
use native.Mathlib.Omega.{arith}
use native.Mathlib.Decide.{dec_le}

pub data IoError : Type 0 where
  eof unexpected_eof short_buffer : IoError

-- `io.ReadFull`: the bytes read and the input behind them, or the error when the input ends first.
pub data ReadFull : Type 0 where
  full : Bytes → Bytes → ReadFull
  cut : IoError → ReadFull

unfoldable pub read_full : ℕ → Bytes → ReadFull
read_full n input =
    if leb n (length input)
    then full (take n input) (drop n input)
    else cut (if length input == 0 then eof else unexpected_eof)

pub read_full_long :
    (n : ℕ) (input : Bytes)
    → n ≤ length input
    → read_full n input ≡ full (take n input) (drop n input)
unfolding read_full
read_full_long n input h = rw (le→leb n (length input) h)

pub read_full-append :
    (n : ℕ) (bs rest : Bytes) → length bs ≡ n → read_full n (bs ++ rest) ≡ full bs rest
unfolding read_full
read_full-append n bs rest h =
    rw (le→leb n (length (bs ++ rest)) (omega (arith, length-append bs rest)))
      (ap₂ full (take-append n bs rest h) (drop-append n bs rest h))

-- A Go computation returns or panics.
pub data Go {ℓ} (A : Type ℓ) : Type ℓ where
  returns : A → Go A
  panics : Go A

infixl 5 ◌>>=◌ ◌>>◌
abbrev pub ◌>>=◌ {ℓ κ} : {A : Type ℓ} {B : Type κ} → Go A → (A → Go B) → Go B
returns a >>= f = f a
panics >>= f = panics

abbrev pub ◌>>◌ {ℓ κ} : {A : Type ℓ} {B : Type κ} → Go A → Go B → Go B
m >> k = m >>= λ _. k

pub record Slice : Type 0 where
  pub len : ℕ
  pub cap : ℕ

-- `make([]byte, n)`
abbrev pub make_slice : ℕ → Slice
make_slice n = record { len = n; cap = n }

-- `s[n:]`
abbrev pub slice_from : ℕ → Slice → Go Slice
slice_from n s =
    if leb n s.len then returns (record { len = s.len - n; cap = s.cap - n }) else panics

-- `s[:n]`, which reaches up to the capacity.
abbrev pub slice_to : ℕ → Slice → Go Slice
slice_to n s = if leb n s.cap then returns (record { len = n; cap = s.cap }) else panics

-- The bounds check of `ByteOrder.Uint…(s)`, which reads `n` bytes.
abbrev pub need : ℕ → Slice → Go (Unit {0})
need n s = if leb n s.len then returns tt else panics

-- To split on what arrives and keep the equation.
pub ReadFull-cases :
    (r : ReadFull)
    → ((e : IoError) × (r ≡ cut e)) ⊎ ((bs : Bytes) × (rest : Bytes) × (r ≡ full bs rest))
ReadFull-cases (cut e) = inl (e, refl)
ReadFull-cases (full bs rest) = inr (bs, rest, refl)

cut≢full : (e : IoError) (bs rest : Bytes) → ¬ (cut e ≡ full bs rest)
cut≢full e bs rest h = cc h

read_full_short :
    (n : ℕ) (input : Bytes) → length input < n → (e : IoError) × (read_full n input ≡ cut e)
unfolding read_full
read_full_short n input h =
    (if length input == 0 then eof else unexpected_eof, rw (lt→leb (length input) n h))

-- What was read and what is left make up the input.
-- What was read stands before what is left.
pub read_full_whole :
    (n : ℕ) (input bs rest : Bytes) → read_full n input ≡ full bs rest → input ≡ bs ++ rest
read_full_whole n input bs rest e = elim (dec_le n (length input)) [
  | yes long ↦
      let f = sym (read_full_long n input long) ∙ e in
      let b : take n input ≡ bs = cc f in
      let r : drop n input ≡ rest = cc f in sym (take-append-drop n input) ∙ ap₂ ◌++◌ b r
  | no small ↦
      let (x, f) = read_full_short n input (omega arith) in absurd (cut≢full x bs rest (sym f ∙ e))
]

pub read_full-eq-full :
    (n : ℕ) (input bs rest : Bytes)
    → read_full n input ≡ full bs rest
    → (length bs ≡ n) × (length rest + n ≡ length input)
read_full-eq-full n input bs rest e = elim (dec_le n (length input)) [
  | yes long ↦
      let f = sym (read_full_long n input long) ∙ e in
      let b : take n input ≡ bs = cc f in
      let r : drop n input ≡ rest = cc f in
      (
        omega (arith, ap length b, length-take n input),
        omega (arith, ap length r, length-drop n input),
      )
  | no small ↦
      let (x, f) = read_full_short n input (omega arith) in absurd (cut≢full x bs rest (sym f ∙ e))
]

-- The computation does not panic.
abbrev pub Returns {ℓ} : {A : Type ℓ} → Go A → Type 0
Returns (returns a) = Unit {0}
Returns panics = ⊥
