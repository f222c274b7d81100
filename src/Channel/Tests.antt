-- ===== src/Channel/Tests.antt =====
-- Runs of a channel on small inputs.
use httpadapter.Common.{
  ℕ, ◌+◌, ◌≤◌, ◌≡◌, none, some, List, [], ◌∷◌, ◌++◌, arith, length, All, flatten,
}
use httpadapter.Common.Bytes.{Bytes}
use httpadapter.Channel.{gets, confirms, Choice, serve, start_serving, confirm_batch, Deadlines}
use httpadapter.Channel.Window.{IsFrame}
use httpadapter.Channel.Frames.{serve_within_window}
use httpadapter.Channel.Confirming.{sum, IsCount, confirm_batch_complete}

-- Five bytes are written, the window of three is sent, and a confirmation lets the others go.
abbrev rounds : List (ℕ × Choice)
rounds = (9, gets (1 ∷ 2 ∷ 3 ∷ 4 ∷ 5 ∷ [])) ∷ (9, confirms 2) ∷ (9, gets (6 ∷ [])) ∷ []

serve_within_window_example :
    let st = serve 3 rounds start_serving in
    (length (flatten st.sent) ≤ 3 + st.confirmed)
    × ((left : Bytes) × (flatten st.sent ++ left ≡ st.taken))
    × All IsFrame st.sent
serve_within_window_example = serve_within_window 3 rounds (omega arith)

confirm_batch_complete_example :
    (ns : List ℕ) × ((confirm_batch 100000 70000 (8 ∷ 9 ∷ [])).0 ≡ some ns)
    × (sum ns + sum (confirm_batch 100000 70000 (8 ∷ 9 ∷ [])).1 ≡ 70000 + sum (8 ∷ 9 ∷ []))
    × All IsCount ns
confirm_batch_complete_example = confirm_batch_complete 100000 70000 (8 ∷ 9 ∷ []) (omega arith)

abbrev no_deadline : Deadlines
no_deadline = record { both = none; reading = none; writing = none }
