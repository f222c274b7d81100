-- ===== src/Pipe/ReadWriter/Copy.antt =====
-- What Go's `copy` leaves at each place.
use httpadapter.Common.{
  ℕ, zero, suc, ◌+◌, ◌≤◌, ◌<◌, ◌≡◌, refl, ap, ◌∙◌, [], ◌∷◌, arith, length, get_or, drop,
}
use httpadapter.Common.Bytes.{Bytes, copy_into}
use httpadapter.Pipe.ReadWriter.{copy_at}

length-copy_into : (dst src : Bytes) → length (copy_into dst src) ≡ length dst
unfolding copy_into
length-copy_into [] src = refl
length-copy_into (d ∷ ds) [] = refl
length-copy_into (d ∷ ds) (b ∷ src) = ap suc (length-copy_into ds src)

pub length-copy_at : (dst : Bytes) (i : ℕ) (src : Bytes) → length (copy_at dst i src) ≡ length dst
unfolding copy_at
length-copy_at dst zero src = length-copy_into dst src
length-copy_at [] (suc i) src = refl
length-copy_at (d ∷ ds) (suc i) src = ap suc (length-copy_at ds i src)

get_or-copy_into_lt :
    (dst src : Bytes) (j : ℕ)
    → j < length src
    → j < length dst
    → get_or (copy_into dst src) j 0 ≡ get_or src j 0
unfolding copy_into
get_or-copy_into_lt [] src j h k = absurd (omega arith)
get_or-copy_into_lt (d ∷ ds) [] j h k = absurd (omega arith)
get_or-copy_into_lt (d ∷ ds) (b ∷ src) zero h k = refl
get_or-copy_into_lt (d ∷ ds) (b ∷ src) (suc j) h k =
    get_or-copy_into_lt ds src j (omega arith) (omega arith)

get_or-copy_into_ge :
    (dst src : Bytes) (j : ℕ) → length src ≤ j → get_or (copy_into dst src) j 0 ≡ get_or dst j 0
unfolding copy_into
get_or-copy_into_ge [] src j h = refl
get_or-copy_into_ge (d ∷ ds) [] j h = refl
get_or-copy_into_ge (d ∷ ds) (b ∷ src) zero h = absurd (omega arith)
get_or-copy_into_ge (d ∷ ds) (b ∷ src) (suc j) h = get_or-copy_into_ge ds src j (omega arith)

-- Before the place where the copy starts nothing changes.
pub get_or-copy_at_before :
    (dst : Bytes) (i : ℕ) (src : Bytes) (j : ℕ)
    → j < i
    → get_or (copy_at dst i src) j 0 ≡ get_or dst j 0
unfolding copy_at
get_or-copy_at_before dst zero src j h = absurd (omega arith)
get_or-copy_at_before [] (suc i) src j h = refl
get_or-copy_at_before (d ∷ ds) (suc i) src zero h = refl
get_or-copy_at_before (d ∷ ds) (suc i) src (suc j) h =
    get_or-copy_at_before ds i src j (omega arith)

-- In its range stand the bytes of the source.
pub get_or-copy_at_inside :
    (dst : Bytes) (i : ℕ) (src : Bytes) (m : ℕ)
    → m < length src
    → i + m < length dst
    → get_or (copy_at dst i src) (i + m) 0 ≡ get_or src m 0
unfolding copy_at
get_or-copy_at_inside dst zero src m h k =
    ap (λ j. get_or (copy_into dst src) j 0) (let e : 0 + m ≡ m = omega arith in e)
    ∙ get_or-copy_into_lt dst src m h (omega arith)
get_or-copy_at_inside [] (suc i) src m h k = absurd (omega arith)
get_or-copy_at_inside (d ∷ ds) (suc i) src m h k =
    ap (λ j. get_or (d ∷ copy_at ds i src) j 0) (let e : suc i + m ≡ suc (i + m) = omega arith in e)
    ∙ get_or-copy_at_inside ds i src m h (omega arith)

-- Behind its range nothing changes.
pub get_or-copy_at_after :
    (dst : Bytes) (i : ℕ) (src : Bytes) (j : ℕ)
    → i + length src ≤ j
    → get_or (copy_at dst i src) j 0 ≡ get_or dst j 0
unfolding copy_at
get_or-copy_at_after dst zero src j h = get_or-copy_into_ge dst src j (omega arith)
get_or-copy_at_after [] (suc i) src j h = refl
get_or-copy_at_after (d ∷ ds) (suc i) src zero h = absurd (omega arith)
get_or-copy_at_after (d ∷ ds) (suc i) src (suc j) h = get_or-copy_at_after ds i src j (omega arith)

pub get_or-drop : (n j : ℕ) (xs : Bytes) → get_or (drop n xs) j 0 ≡ get_or xs (n + j) 0
get_or-drop zero j xs = ap (λ k. get_or xs k 0) (omega arith)
get_or-drop (suc n) j [] = refl
get_or-drop (suc n) j (x ∷ xs) =
    get_or-drop n j xs
    ∙ ap (λ k. get_or (x ∷ xs) k 0) (let e : suc (n + j) ≡ suc n + j = omega arith in e)
