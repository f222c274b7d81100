-- ===== src/Server/Accept.antt =====
-- The pauses of the accept loop.
use native.Mathlib.Nat.{pow-suc}
use httpadapter.Common.{
  ℕ, zero, suc, ◌+◌, ◌*◌, ◌^◌, ◌≤◌, min, ◌≡◌, refl, ap, ◌∙◌, ◌∷◌, ◌++◌, List, arith, replicate,
}
use httpadapter.Server.{
  next_delay, Accepted, timeout, Looped, pauses, serves, connection, accept_loop,
}

-- The pause after `k` more timeouts in a row: it doubles up to a second.
abbrev pub backoff : ℕ → ℕ
backoff k = min 1000 (5 * 2 ^ k)

pow_pos : (k : ℕ) → 1 ≤ 2 ^ k
pow_pos zero = omega arith
pow_pos (suc k) = omega (arith, pow_pos k, pow-suc 2 k)

next_delay-zero : next_delay 0 ≡ backoff 0
unfolding next_delay
next_delay-zero = refl

next_delay-backoff : (k : ℕ) → next_delay (backoff k) ≡ backoff (suc k)
unfolding next_delay
next_delay-backoff k = ground (arith, pow_pos k, pow-suc 2 k)

-- `n` pauses, beginning with the pause number `k`, before what `rest` does.
pub paused : ℕ → ℕ → Looped → Looped
paused k zero rest = rest
paused k (suc n) rest = pauses (backoff k) (paused (suc k) n rest)

timeouts_from :
    (k n delay : ℕ) (rest : List Accepted)
    → next_delay delay ≡ backoff k
    → accept_loop delay (replicate (suc n) timeout ++ rest)
      ≡ paused k (suc n) (accept_loop (backoff (k + n)) rest)
unfolding accept_loop paused
timeouts_from k zero delay rest e =
    rw e (ap (λ (m : ℕ). pauses (backoff k) (accept_loop (backoff m) rest)) (omega arith))
timeouts_from k (suc n) delay rest e = rw e (
    ap (pauses (backoff k)) (
      timeouts_from (suc k) n (backoff k) rest (next_delay-backoff k)
      ∙ ap (λ (m : ℕ). paused (suc k) (suc n) (accept_loop (backoff m) rest)) (omega arith)))

-- After a connection, `n + 1` failed accepts in a row pause for 5 ms, 10 ms, 20 ms and so on, but
-- never for more than a second, and the loop goes on with the pause that it has come to; the next
-- connection begins again with 5 ms.
pub backoff_doubles :
    (delay n : ℕ) (rest : List Accepted)
    → accept_loop delay (connection ∷ (replicate (suc n) timeout ++ rest))
      ≡ serves (paused 0 (suc n) (accept_loop (backoff n) rest))
unfolding accept_loop
backoff_doubles delay n rest = ap serves (
    timeouts_from 0 n 0 rest next_delay-zero
    ∙ ap (λ (m : ℕ). paused 0 (suc n) (accept_loop (backoff m) rest)) (omega arith))
