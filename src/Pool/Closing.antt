-- ===== src/Pool/Closing.antt =====
-- The transports that a client closes when it is closed.
use httpadapter.Common.{
  ℕ, zero, suc, ◌+◌, ◌≡◌, refl, sym, ap, subst, ◌∙◌, Bool, true, false, Option, none, some, List,
  [], ◌∷◌, ◌++◌, arith,
}
use httpadapter.Pool.Rounds.{round_cases}
use httpadapter.Pool.{
  Current, Pool, start, Dialed, dialed, not_dialed, handshake_failed, Event, asks, removes, closes,
  healthy, ask, step, run,
}

-- The numbers of the first transports, the last first.
abbrev pub numbers : ℕ → List ℕ
numbers zero = []
numbers (suc n) = n ∷ numbers n

-- Nothing is sent on `remove`: the library never does.
abbrev pub NoRemoves : List Event → Type 0
NoRemoves [] = Unit {0}
NoRemoves (removes k ∷ es) = ⊥
NoRemoves (asks done d ∷ es) = NoRemoves es
NoRemoves (closes ∷ es) = NoRemoves es

record IsKept (p : Pool) : Type 0 where
  keys : p.keys ≡ numbers p.made
  closed : p.ended ≡ true → p.closed ≡ numbers p.made

false_not_true : ¬ (false ≡ true)
false_not_true e = cc e

both_ways : (b : Bool) → b ≡ true → b ≡ false → ⊥
both_ways b e f = elim (false_not_true (sym f ∙ e)) [ ]

one_more : (n : ℕ) → suc n ≡ n + 1
one_more n = omega arith

ask-IsKept :
    (d : Dialed) (p : Pool) (t : Option Current) → p.ended ≡ false → IsKept p → IsKept (ask d p t).0
unfolding ask
ask-IsKept d p (some t) e k = record { keys = k.keys; closed = k.closed }
ask-IsKept dialed p none e k = record {
  keys = ap (◌∷◌ p.made) k.keys ∙ ap numbers (one_more p.made);
  closed = λ h. absurd (both_ways p.ended h e);
}
ask-IsKept not_dialed p none e k = record { keys = k.keys; closed = k.closed }
ask-IsKept handshake_failed p none e k = record { keys = k.keys; closed = k.closed }

ask_again : (p : Pool) (done : Bool) (d : Dialed) → IsKept p → IsKept (step p (asks done d)).0
unfolding step
ask_again p done d k =
    round_cases IsKept p.ended _ (ask d p (healthy done p.current)) (λ h. k)
      (λ h. ask-IsKept d p (healthy done p.current) h k)

close_all : (p : Pool) → IsKept p → IsKept (step p closes).0
unfolding step
close_all p k =
    round_cases IsKept p.ended _ _ (λ h. k) (λ h. record { keys = k.keys; closed = λ e. k.keys })

close_ends : (p : Pool) → (step p closes).0.ended ≡ true
unfolding step
close_ends p = round_cases (λ (q : Pool). q.ended ≡ true) p.ended _ _ (λ h. h) (λ h. refl)

run-IsKept : (p : Pool) (es : List Event) → NoRemoves es → IsKept p → IsKept (run p es)
unfolding run
run-IsKept p [] n k = k
run-IsKept p (asks done d ∷ es) n k =
    run-IsKept (step p (asks done d)).0 es n (ask_again p done d k)
run-IsKept p (removes j ∷ es) n k = absurd n
run-IsKept p (closes ∷ es) n k = run-IsKept (step p closes).0 es n (close_all p k)

run-append : (p : Pool) (es es' : List Event) → run p (es ++ es') ≡ run (run p es) es'
unfolding run
run-append p [] es' = refl
run-append p (e ∷ es) es' = run-append (step p e).0 es es'

step_ended : (p : Pool) (e : Event) → p.ended ≡ true → (step p e).0 ≡ p
unfolding step
step_ended p (asks done d) h =
    round_cases (λ q. q ≡ p) p.ended _ _ (λ e. refl) (λ e. absurd (both_ways p.ended h e))
step_ended p (removes k) h =
    round_cases (λ q. q ≡ p) p.ended _ _ (λ e. refl) (λ e. absurd (both_ways p.ended h e))
step_ended p closes h =
    round_cases (λ q. q ≡ p) p.ended _ _ (λ e. refl) (λ e. absurd (both_ways p.ended h e))

run_ended : (p : Pool) (es : List Event) → p.ended ≡ true → run p es ≡ p
unfolding run
run_ended p [] h = refl
run_ended p (e ∷ es) h = ap (λ (q : Pool). run q es) (step_ended p e h) ∙ run_ended p es h

close_makes_none : (p : Pool) → (step p closes).0.made ≡ p.made
unfolding step
close_makes_none p = round_cases (λ q. q.made ≡ p.made) p.ended _ _ (λ h. refl) (λ h. refl)

-- When a client is closed, its pool closes every transport that it ever made, those that had ended
-- before included, since none of them leaves the map; and after that it makes none, whoever still
-- asks.
pub closes_all :
    (es late : List Event)
    → NoRemoves es
    → let p = run start (es ++ (closes ∷ late)) in
      (p.ended ≡ true)
      × (p.closed ≡ numbers p.made)
      × (p.keys ≡ numbers p.made)
      × (p.made ≡ (run start es).made)
unfolding run
closes_all es late n =
    let before = run start es in
    let q = (step before closes).0 in
    let kept =
      close_all before (run-IsKept start es n (record { keys = refl; closed = λ h. refl })) in
    let same : run start (es ++ (closes ∷ late)) ≡ q =
      run-append start es (closes ∷ late) ∙ run_ended q late (close_ends before) in
    subst
      (λ (p : Pool).
        (p.ended ≡ true)
        × (p.closed ≡ numbers p.made)
        × (p.keys ≡ numbers p.made)
        × (p.made ≡ before.made))
      (sym same)
      (close_ends before, kept.closed (close_ends before), kept.keys, close_makes_none before)
