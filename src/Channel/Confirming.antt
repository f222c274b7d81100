-- ===== src/Channel/Confirming.antt =====
-- Confirmations: how they are merged, batched and sent.
use httpadapter.Common.{
  ℕ, zero, suc, ◌+◌, ◌-◌, ◌/◌, ◌^◌, ◌≤◌, ◌<◌, min, ◌≡◌, refl, ap, ◌∙◌, ◌≢◌, true, false, none, some,
  List, [], ◌∷◌, arith, ne→==, lt→ltb, le→ltb, le→leb, lt→leb, All,
}
use native.Mathlib.Decide.{dec_lt, ℕ_discrete}
use httpadapter.Core.Hello.{max_uint16}
use httpadapter.Channel.{add64, next_count, confirm, gather, split_confirmed, confirm_batch}

-- On an open channel, for numbers whose sum is a uint64: a confirmation that finds the slot empty
-- is stored; one that finds a number there is added to it, unless their sum reaches the window:
-- then the overflow is reported and both numbers are lost.
pub confirm_merges :
    (remote_window : ℕ) (old val : ℕ)
    → old + val < 2 ^ 64
    → (confirm false remote_window none val ≡ (some val, false))
      × (old + val < remote_window
          → confirm false remote_window (some old) val ≡ (some (old + val), false))
      × (remote_window ≤ old + val → confirm false remote_window (some old) val ≡ (none, true))
unfolding confirm
confirm_merges w old val small =
    let e : add64 val old ≡ old + val = omega (arith, small) in
    (refl, λ below. rw (e, lt→leb (old + val) w below), λ over. rw (e, le→leb w (old + val) over))

abbrev pub sum : List ℕ → ℕ
sum [] = 0
sum (n ∷ ns) = n + sum ns

-- The batch and what is left of the queue make up what was read.
gather-sum :
    (window confirmed : ℕ) (queue : List ℕ)
    → confirmed + sum queue < 2 ^ 64
    → let (batch, left) = gather window confirmed queue in
      (batch + sum left ≡ confirmed + sum queue) × (batch < 2 ^ 64)
unfolding gather
gather-sum window confirmed [] h = (refl, omega arith)
gather-sum window confirmed (n ∷ queue) h = elim (dec_lt confirmed window) [
  | yes more ↦ rw (lt→ltb confirmed window more) (
      let e : add64 confirmed n ≡ confirmed + n = omega arith in
      let r = gather-sum window (add64 confirmed n) queue (omega (arith, e)) in
      (r.0 ∙ omega (arith, e), r.1))
  | no enough ↦ rw (le→ltb confirmed window (omega arith)) (refl, omega arith)
]

-- A number that a confirm frame can hold.
abbrev pub IsCount : ℕ → Type 0
IsCount n = (1 ≤ n) × (n ≤ max_uint16)

next_count_lem : (confirmed : ℕ) → next_count confirmed ≡ min confirmed max_uint16
unfolding next_count
next_count_lem confirmed = ground arith

split_step :
    (fuel confirmed : ℕ) {ns : List ℕ}
    → confirmed ≢ 0
    → split_confirmed fuel (confirmed - next_count confirmed) ≡ some ns
    → split_confirmed (suc fuel) confirmed ≡ some (next_count confirmed ∷ ns)
unfolding split_confirmed
split_step fuel confirmed ne e = rw (ne→== confirmed 0 ne, e)

split_stop : (fuel : ℕ) → split_confirmed (suc fuel) 0 ≡ some []
unfolding split_confirmed
split_stop fuel = refl

-- With more fuel than the number the loop ends.
split_lem :
    (fuel confirmed : ℕ)
    → confirmed < fuel
    → (ns : List ℕ) × (split_confirmed fuel confirmed ≡ some ns)
      × (sum ns ≡ confirmed)
      × All IsCount ns
split_lem zero confirmed h = absurd (omega arith)
split_lem (suc fuel) confirmed h = elim (ℕ_discrete confirmed 0) [
  | yes e ↦ ([], ap (split_confirmed (suc fuel)) e ∙ split_stop fuel, omega arith, tt)
  | no ne ↦
      let n = next_count confirmed in
      let (ns, e, total, counts) =
        split_lem fuel (confirmed - n) (omega (arith, next_count_lem confirmed)) in
      (
        n ∷ ns,
        split_step fuel confirmed ne e,
        omega (arith, total, next_count_lem confirmed),
        (omega (arith, next_count_lem confirmed), counts),
      )
]

-- For numbers whose sum is a uint64, a round of `serveConfirm` always ends. What it confirms and
-- what it leaves in the queue are, added up, what the reads reported, and each confirm frame
-- carries a number from 1 to 65535.
pub confirm_batch_complete :
    (remote_window first : ℕ) (queue : List ℕ)
    → first + sum queue < 2 ^ 64
    → (ns : List ℕ) × ((confirm_batch remote_window first queue).0 ≡ some ns)
      × (sum ns + sum (confirm_batch remote_window first queue).1 ≡ first + sum queue)
      × All IsCount ns
unfolding confirm_batch
confirm_batch_complete w first queue h =
    let g = gather (w / 3) first queue in
    let (ns, e, total, counts) = split_lem (suc g.0) g.0 (omega arith) in
    (ns, e, omega (arith, total, gather-sum (w / 3) first queue h), counts)
