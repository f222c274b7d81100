-- ===== src/Channel/Frames.antt =====
-- `Serve` over any sequence of writes and confirmations.
use mathlib.Core.Bool.{false≢true}
use httpadapter.Common.{
  ℕ, ◌+◌, ◌^◌, ◌≤◌, ◌<◌, ◌≡◌, refl, sym, ap, subst, ◌∙◌, inl, inr, false, List, [], ◌∷◌, ◌++◌,
  append-nil, append_assoc, arith, if◌then◌else◌, eq→==, ne→==, lt→ltb, le→ltb, Bool-cases, length,
  length-append, All, empty_of_length, flatten,
}
use httpadapter.Common.Bytes.{Bytes}
use httpadapter.Channel.{
  Sender, sub64, send_loop, Choice, done, gets, confirms, passes, choose, Round, waits, ends, goes,
  send_round, confirm_round, round, Serving, start_serving, brought, after_round, serve,
}
use httpadapter.Channel.Window.{IsWithin, IsFrame, send_loop-Sends}
use native.Mathlib.Decide.{dec_lt, ℕ_discrete}

pub flatten-append : (xs ys : List Bytes) → flatten (xs ++ ys) ≡ flatten xs ++ flatten ys
flatten-append [] ys = refl
flatten-append (x ∷ xs) ys =
    ap (◌++◌ x) (flatten-append xs ys) ∙ sym (append_assoc x (flatten xs) (flatten ys))

All-append : (xs ys : List Bytes) → All IsFrame xs → All IsFrame ys → All IsFrame (xs ++ ys)
All-append [] ys hx hy = hy
All-append (x ∷ xs) ys hx hy = (hx.0, All-append xs ys hx.1 hy)

-- What a round does to a sender with the pending bytes `bs` after it took `n` as confirmed.
pub data Rounds (w : ℕ) (s : Sender) (c : Choice) : Round → Type 0 where
  is_waiting : Rounds w s c waits
  has_ended :
      (payloads : List Bytes) (left : Bytes)
      → All IsFrame payloads
      → flatten payloads ++ left ≡ s.pending ++ (brought c).0
      → length (flatten payloads) + s.writed ≤ w + (brought c).1
      → Rounds w s c (ends payloads)
  goes_on :
      (payloads : List Bytes) (s' : Sender)
      → All IsFrame payloads
      → IsWithin w s'
      → flatten payloads ++ s'.pending ≡ s.pending ++ (brought c).0
      → s'.writed + (brought c).1 ≡ s.writed + length (flatten payloads)
      → Rounds w s c (goes payloads s')

module _ (takes w : ℕ) (s : Sender) (c : Choice) where
  confirm_round-Rounds :
      (bs : Bytes) (n : ℕ)
      → IsWithin w s
      → bs ≡ s.pending ++ (brought c).0
      → n ≡ (brought c).1
      → Rounds w s c (confirm_round takes w bs s.writed n)
  unfolding confirm_round send_round
  confirm_round-Rounds bs n v e f = elim (dec_lt s.writed n) [
    | yes over ↦ rw (lt→ltb s.writed n over) (has_ended [] bs tt e (omega (arith, v.within)))
    | no fine ↦
        let t : Sender = record { pending = bs; writed = sub64 s.writed n } in
        let inside : IsWithin w t = omega (arith, v.word, v.within) in
        let h = send_loop-Sends takes w t inside in
        let less : sub64 s.writed n + n ≡ s.writed = omega (arith, v.word, v.within) in
        rw (le→ltb s.writed n (omega arith)) (elim (Bool-cases (send_loop takes w t).stopped) [
          | inl stop ↦ rw stop (
              has_ended (send_loop takes w t).payloads (send_loop takes w t).sender.pending h.framed
                (h.order ∙ e) (omega (arith, h.count, h.within.within, less, f)))
          | inr go ↦ rw go (
              goes_on (send_loop takes w t).payloads (send_loop takes w t).sender h.framed h.within
                (h.order ∙ e) (omega (arith, h.count, less, f)))
        ])
  ]

-- Each case of the select, with what it brings.
pub round-Rounds :
    (takes w : ℕ) (s : Sender) (c : Choice) → IsWithin w s → Rounds w s c (round takes w s c)
unfolding round choose
round-Rounds takes w s done v =
    has_ended [] s.pending tt (sym (append-nil s.pending)) (omega (arith, v.within))
round-Rounds takes w s (gets bs) v = elim (ℕ_discrete (length s.pending) 0) [
  | yes e ↦
      rw (eq→== (length s.pending) 0 e, round)
        (confirm_round-Rounds takes w s (gets bs) bs 0 v
          (ap (λ (t : Bytes). t ++ bs) (sym (empty_of_length s.pending e))) refl)
  | no ne ↦ rw (ne→== (length s.pending) 0 ne, round) is_waiting
]
round-Rounds takes w s (confirms n) v =
    confirm_round-Rounds takes w s (confirms n) s.pending n v (sym (append-nil s.pending)) refl
round-Rounds takes w s passes v = elim (ℕ_discrete (length s.pending) 0) [
  | yes e ↦ rw (eq→== (length s.pending) 0 e, round) is_waiting
  | no ne ↦
      rw (ne→== (length s.pending) 0 ne, round)
        (elim (ℕ_discrete (sub64 w s.writed) 0) [
          | yes full ↦ rw (eq→== (sub64 w s.writed) 0 full, round) is_waiting
          | no room ↦
              rw (ne→== (sub64 w s.writed) 0 room, round)
                (confirm_round-Rounds takes w s passes s.pending 0 v (sym (append-nil s.pending))
                  refl)
        ])
]

-- What holds of `Serve` at every point.
pub record Keeps (w : ℕ) (st : Serving) : Type 0 where
  pub within : IsWithin w st.sender
  pub framed : All IsFrame st.sent
  pub bounded : length (flatten st.sent) ≤ w + st.confirmed
  pub balanced : st.ended ≡ false → st.sender.writed + st.confirmed ≡ length (flatten st.sent)
  pub ordered : (left : Bytes) × (flatten st.sent ++ left ≡ st.taken)
  pub pending_left : st.ended ≡ false → flatten st.sent ++ st.sender.pending ≡ st.taken

module _ (w : ℕ) (st : Serving) (v : Keeps w st) (open_still : st.ended ≡ false) where
  longer :
      (payloads : List Bytes) (left more : Bytes)
      → flatten payloads ++ left ≡ st.sender.pending ++ more
      → flatten (st.sent ++ payloads) ++ left ≡ st.taken ++ more
  longer payloads left more e =
      ap (λ (t : Bytes). t ++ left) (flatten-append st.sent payloads)
      ∙ append_assoc (flatten st.sent) (flatten payloads) left
      ∙ ap (◌++◌ (flatten st.sent)) e
      ∙ sym (append_assoc (flatten st.sent) st.sender.pending more)
      ∙ ap (λ (t : Bytes). t ++ more) (v.pending_left open_still)

  length-longer :
      (payloads : List Bytes)
      → length (flatten (st.sent ++ payloads))
        ≡ length (flatten st.sent) + length (flatten payloads)
  length-longer payloads =
      ap length (flatten-append st.sent payloads)
      ∙ length-append (flatten st.sent) (flatten payloads)

  after_round-Keeps :
      (c : Choice) {r : Round} → Rounds w st.sender c r → Keeps w (after_round st c r)
  after_round-Keeps c is_waiting = v
  after_round-Keeps c (has_ended payloads left framed e size) = record {
    within = v.within;
    framed = All-append st.sent payloads v.framed framed;
    bounded = omega (arith, size, length-longer payloads, v.balanced open_still);
    balanced = λ h. absurd (false≢true (sym h));
    ordered = (left, longer payloads left (brought c).0 e);
    pending_left = λ h. absurd (false≢true (sym h));
  }
  after_round-Keeps c (goes_on payloads s' framed within e size) = record {
    within = within;
    framed = All-append st.sent payloads v.framed framed;
    bounded = omega (arith, size, within.within, length-longer payloads, v.balanced open_still);
    balanced = λ h. omega (arith, size, length-longer payloads, v.balanced open_still);
    ordered = (s'.pending, longer payloads s'.pending (brought c).0 e);
    pending_left = λ h. longer payloads s'.pending (brought c).0 e;
  }

start-Keeps : (w : ℕ) → w < 2 ^ 64 → Keeps w start_serving
start-Keeps w h = record {
  within = omega (arith, h);
  framed = tt;
  bounded = omega arith;
  balanced = λ e. omega arith;
  ordered = ([], refl);
  pending_left = λ e. refl;
}

serve-Keeps :
    (w : ℕ) (rounds : List (ℕ × Choice)) (st : Serving) → Keeps w st → Keeps w (serve w rounds st)
unfolding serve
serve-Keeps w [] st v = v
serve-Keeps w ((takes, c) ∷ rest) st v = elim (Bool-cases st.ended) [
  | inl e ↦
      subst
        (λ b.
          Keeps w (if b then st else serve w rest (after_round st c (round takes w st.sender c))))
        (sym e) v
  | inr e ↦
      subst
        (λ b.
          Keeps w (if b then st else serve w rest (after_round st c (round takes w st.sender c))))
        (sym e)
        (serve-Keeps w rest (after_round st c (round takes w st.sender c))
          (after_round-Keeps w st v e c (round-Rounds takes w st.sender c v.within)))
]

-- For a window that is a uint64, whatever is written to a channel and confirmed, in any order and
-- against any other end: the bytes sent are never more than the other end's window and the
-- confirmations together, they are a prefix of the bytes written, in order, and each frame holds
-- from 1 to 65535 of them.
pub serve_within_window :
    (w : ℕ) (rounds : List (ℕ × Choice))
    → w < 2 ^ 64
    → let st = serve w rounds start_serving in
      (length (flatten st.sent) ≤ w + st.confirmed)
      × ((left : Bytes) × (flatten st.sent ++ left ≡ st.taken))
      × All IsFrame st.sent
serve_within_window w rounds h =
    let v = serve-Keeps w rounds start_serving (start-Keeps w h) in (v.bounded, v.ordered, v.framed)
