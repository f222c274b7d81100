-- ===== src/Channel/Window.antt =====
-- The inner loop of `Serve` keeps within the window of the other end.
use httpadapter.Common.{
  ℕ, zero, suc, ◌+◌, ◌-◌, ◌^◌, ◌≤◌, ◌<◌, min, ◌≡◌, ◌≢◌, refl, ap, ◌∙◌, ◌⊎◌, [], ◌++◌, append_assoc,
  Bool, false, length, length-append, length-take, length-drop, take, take-append-drop, All,
  flatten, arith, eq→==, ne→==, ◌==◌, not,
}
use native.Mathlib.Decide.{ℕ_discrete}
use httpadapter.Common.Bytes.{Bytes}
use httpadapter.Core.Hello.{max_uint16}
use httpadapter.Channel.{Sender, Sent, ahead, chunk, advance, send_loop}

-- What is sent and not confirmed stays within the other end's window, which is a uint64.
pub record IsWithin (remote_window : ℕ) (s : Sender) : Type 0 where
  pub word : remote_window < 2 ^ 64
  pub within : s.writed ≤ remote_window

-- The payload of a frame is neither empty nor longer than its length field counts.
abbrev pub IsFrame : Bytes → Type 0
IsFrame bs = (1 ≤ length bs) × (length bs ≤ max_uint16)

-- What the loop has done, started at `s`, when it ends with `r`.
pub record Sends (remote_window : ℕ) (s : Sender) (r : Sent) : Type 0 where
  pub within : IsWithin remote_window r.sender
  pub order : flatten r.payloads ++ r.sender.pending ≡ s.pending
  pub count : r.sender.writed ≡ s.writed + length (flatten r.payloads)
  pub framed : All IsFrame r.payloads
  pub complete :
      r.stopped ≡ false → (length r.sender.pending ≡ 0) ⊎ (r.sender.writed ≡ remote_window)

module _ (remote_window : ℕ) (s : Sender) (v : IsWithin remote_window s) where
  -- The uint64 subtraction does not wrap, and the size of a frame is the least of three.
  pub chunk_lem :
      chunk remote_window s ≡ min (min (length s.pending) (remote_window - s.writed)) max_uint16
  unfolding chunk
  chunk_lem = ground (arith, v.word, v.within)

  advance-IsWithin : IsWithin remote_window (advance (chunk remote_window s) s)
  unfolding advance
  advance-IsWithin = omega (arith, chunk_lem, v.word, v.within)

  writed-advance : (advance (chunk remote_window s) s).writed ≡ s.writed + chunk remote_window s
  unfolding advance
  writed-advance = omega (arith, chunk_lem, v.word, v.within)

  length-advance :
      length (advance (chunk remote_window s) s).pending ≡ length s.pending - chunk remote_window s
  unfolding advance
  length-advance = length-drop (chunk remote_window s) s.pending

  length-chunk : length (take (chunk remote_window s) s.pending) ≡ chunk remote_window s
  length-chunk = omega (arith, chunk_lem, length-take (chunk remote_window s) s.pending)

  stop-Sends :
      (b : Bool)
      → (b ≡ false → chunk remote_window s ≡ 0)
      → Sends remote_window s (record { payloads = []; sender = s; stopped = b })
  stop-Sends b e = record {
    within = v;
    order = refl;
    count = omega arith;
    framed = tt;
    complete = λ h. omega (arith, chunk_lem, e h, v.within);
  }

  ahead-Sends :
      (r : Sent)
      → chunk remote_window s ≢ 0
      → Sends remote_window (advance (chunk remote_window s) s) r
      → Sends remote_window s (ahead (take (chunk remote_window s) s.pending) r)
  unfolding advance
  ahead-Sends r pos h =
      let n = chunk remote_window s in
      let bs = take n s.pending in
      record {
        within = h.within;
        order =
            append_assoc bs (flatten r.payloads) r.sender.pending
            ∙ ap (◌++◌ bs) h.order
            ∙ take-append-drop n s.pending;
        count =
            omega
              (arith, h.count, writed-advance, length-chunk, length-append bs (flatten r.payloads));
        framed = (omega (arith, length-chunk, chunk_lem, pos), h.framed);
        complete = h.complete;
      }

-- From a sender within the window, however many frames the writer takes, what goes out stays
-- within the window: the frames hold the pending bytes in order, none empty or too long for its
-- length field, `writed` grows by their number, and without a done signal the loop ends only when
-- nothing is pending or the window is full.
pub send_loop-Sends :
    (takes remote_window : ℕ) (s : Sender)
    → IsWithin remote_window s
    → Sends remote_window s (send_loop takes remote_window s)
unfolding send_loop
send_loop-Sends zero w s v = elim (ℕ_discrete (chunk w s) 0) [
  | yes e ↦ stop-Sends w s v (not (chunk w s == 0)) (λ h. e)
  | no ne ↦ stop-Sends w s v (not (chunk w s == 0)) (λ h. ground (arith, ne→== (chunk w s) 0 ne))
]
send_loop-Sends (suc takes) w s v = elim (ℕ_discrete (chunk w s) 0) [
  | yes e ↦ rw (eq→== (chunk w s) 0 e) (stop-Sends w s v false (λ h. e))
  | no ne ↦ rw (ne→== (chunk w s) 0 ne) (
      ahead-Sends w s v (send_loop takes w (advance (chunk w s) s)) ne
        (send_loop-Sends takes w (advance (chunk w s) s) (advance-IsWithin w s v)))
]

-- From a sender within the window, a writer that takes a frame for each pending byte never stops
-- the loop.
pub send_loop_finishes :
    (takes remote_window : ℕ) (s : Sender)
    → IsWithin remote_window s
    → length s.pending ≤ takes
    → (send_loop takes remote_window s).stopped ≡ false
unfolding send_loop
send_loop_finishes zero w s v h = rw (eq→== (chunk w s) 0 (omega (arith, chunk_lem w s v)))
send_loop_finishes (suc takes) w s v h = elim (ℕ_discrete (chunk w s) 0) [
  | yes e ↦ rw (eq→== (chunk w s) 0 e)
  | no ne ↦ rw (ne→== (chunk w s) 0 ne) (
      send_loop_finishes takes w (advance (chunk w s) s) (advance-IsWithin w s v)
        (omega (arith, length-advance w s v, chunk_lem w s v, ne)))
]
