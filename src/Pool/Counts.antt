-- ===== src/Pool/Counts.antt =====
-- How often a transport is handed out.
use httpadapter.Common.{
  ℕ, ◌+◌, ◌≤◌, ◌<◌, ◌≡◌, refl, ap, ◌∙◌, ◌≢◌, inl, inr, Bool, true, false, Option, none, some, List,
  [], ◌∷◌, ◌++◌, arith, ◌==◌, if◌then◌else◌, eq→==, ne→==, ==→ne, Bool-cases,
}
use native.Mathlib.Decide.{ℕ_discrete}
use httpadapter.Pool.Rounds.{round_cases}
use httpadapter.Pool.{
  Current, max_uint64, Pool, start, Dialed, dialed, not_dialed, handshake_failed, Event, asks,
  removes, closes, healthy, hand_out, make, ask, step, run,
}

abbrev pub count : ℕ → List ℕ → ℕ
count n [] = 0
count n (x ∷ xs) = (if n == x then 1 else 0) + count n xs

count-append :
    (n x : ℕ) (xs : List ℕ) → count n (xs ++ (x ∷ [])) ≡ count n xs + (if n == x then 1 else 0)
count-append n x [] = omega arith
count-append n x (y ∷ xs) = omega (arith, count-append n x xs)

-- What is known of the transport that is handed out next.
abbrev pub IsKnown : ℕ → List ℕ → Option Current → Type 0
IsKnown made given none = Unit {0}
IsKnown made given (some t) =
    (t.number < made) × (count t.number given + 1 ≡ t.used) × (t.used ≤ max_uint64)

record IsCounted (p : Pool) : Type 0 where
  bounded : (n : ℕ) → count n p.given ≤ max_uint64
  fresh : (n : ℕ) → p.made ≤ n → count n p.given ≡ 0
  current : IsKnown p.made p.given p.current

healthy-IsKnown :
    (done : Bool) (made : ℕ) (given : List ℕ) (t : Option Current)
    → IsKnown made given t
    → IsKnown made given (healthy done t)
healthy-IsKnown done made given none k = tt
healthy-IsKnown true made given (some t) k = tt
healthy-IsKnown false made given (some t) k = k

-- One more of `k`.
count_same : (n k : ℕ) (xs : List ℕ) → n ≡ k → count n (xs ++ (k ∷ [])) ≡ count n xs + 1
count_same n k xs e = count-append n k xs ∙ rw (eq→== n k e) refl

count_other : (n k : ℕ) (xs : List ℕ) → n ≢ k → count n (xs ++ (k ∷ [])) ≡ count n xs
count_other n k xs ne = count-append n k xs ∙ rw (ne→== n k ne) (omega arith)

IsKnown-after :
    (p : Pool) (t : Current)
    → IsKnown p.made p.given (some t)
    → IsKnown p.made (p.given ++ (t.number ∷ [])) (hand_out p t).current
IsKnown-after p t (less, used, small) = elim (Bool-cases (t.used == max_uint64)) [
  | inl e ↦ rw e tt
  | inr e ↦ rw e (
    less,
    omega (arith, used, count_same t.number t.number p.given refl),
    omega (arith, ==→ne t.used max_uint64 e, small),
  )
]

hand_out-IsCounted :
    (p : Pool) (t : Current)
    → IsCounted p
    → IsKnown p.made p.given (some t)
    → IsCounted (hand_out p t)
hand_out-IsCounted p t c (less, used, small) = record {
  bounded = λ n. elim (ℕ_discrete n t.number) [
    | yes e ↦
        omega (arith, count_same n t.number p.given e, ap (λ k. count k p.given) e, used, small)
    | no ne ↦ omega (arith, count_other n t.number p.given ne, c.bounded n)
  ];
  fresh = λ n h. omega (
    arith,
    count_other n t.number p.given (λ e. absurd (omega (arith, h, e, less))),
    c.fresh n h,
  );
  current = IsKnown-after p t (less, used, small);
}

make-IsKnown :
    (p : Pool)
    → IsCounted p
    → IsKnown (make p).made p.given (some (record { number = p.made; used = 1 }))
make-IsKnown p c = (omega arith, omega (arith, c.fresh p.made (omega arith)), omega arith)

IsKnown-more :
    (made : ℕ) (given : List ℕ) (t : Option Current)
    → IsKnown made given t
    → IsKnown (made + 1) given t
IsKnown-more made given none k = tt
IsKnown-more made given (some t) (less, used, small) = (omega arith, used, small)

make-IsCounted : (p : Pool) → IsCounted p → IsCounted (make p)
make-IsCounted p c = record {
  bounded = c.bounded;
  fresh = λ n h. c.fresh n (omega arith);
  current = IsKnown-more p.made p.given p.current c.current;
}

without_current : (p : Pool) → IsCounted p → IsCounted (record p { current = none })
without_current p c = record { bounded = c.bounded; fresh = c.fresh; current = tt }

ask-IsCounted :
    (d : Dialed) (p : Pool) (t : Option Current)
    → IsCounted p
    → IsKnown p.made p.given t
    → IsCounted (ask d p t).0
unfolding ask
ask-IsCounted d p (some t) c k = hand_out-IsCounted p t c k
ask-IsCounted dialed p none c k =
    hand_out-IsCounted (make p) (record { number = p.made; used = 1 }) (make-IsCounted p c)
      (make-IsKnown p c)
ask-IsCounted not_dialed p none c k = without_current p c
ask-IsCounted handshake_failed p none c k = without_current p c

step-IsCounted : (p : Pool) (e : Event) → IsCounted p → IsCounted (step p e).0
unfolding step
step-IsCounted p (asks done d) c =
    round_cases IsCounted p.ended _ (ask d p (healthy done p.current)) (λ h. c)
      (λ h.
        ask-IsCounted d p (healthy done p.current) c
          (healthy-IsKnown done p.made p.given p.current c.current))
step-IsCounted p (removes k) c =
    round_cases IsCounted p.ended _ _ (λ h. c)
      (λ h. record { bounded = c.bounded; fresh = c.fresh; current = c.current })
step-IsCounted p closes c =
    round_cases IsCounted p.ended _ _ (λ h. c)
      (λ h. record { bounded = c.bounded; fresh = c.fresh; current = c.current })

run-IsCounted : (p : Pool) (es : List Event) → IsCounted p → IsCounted (run p es)
unfolding run
run-IsCounted p [] c = c
run-IsCounted p (e ∷ es) c = run-IsCounted (step p e).0 es (step-IsCounted p e c)

start-IsCounted : IsCounted start
start-IsCounted = record { bounded = λ n. omega arith; fresh = λ n h. refl; current = tt }

-- However a client's transports end, and whoever asks: each transport is handed out 2^64 - 1 times at
-- most, which is how many ids other than 0 there are for its channels; and the uses that the current
-- one counts are one more than it was handed out, and fit a uint64.
pub handed_out_bounds :
    (es : List Event) (n : ℕ)
    → (count n (run start es).given ≤ max_uint64)
      × IsKnown (run start es).made (run start es).given (run start es).current
handed_out_bounds es n = let c = run-IsCounted start es start-IsCounted in (c.bounded n, c.current)
