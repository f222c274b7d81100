-- ===== src/Relay/Sending.antt =====
-- One message of the client after another.
use httpadapter.Common.{
  ℕ, zero, suc, ◌+◌, ◌*◌, ◌≤◌, ◌<◌, ◌≡◌, refl, sym, ap, subst, ◌∙◌, Bool, true, Option, none, some,
  List, [], ◌∷◌, ◌++◌, append-nil, append_assoc, arith, length, length-append,
}
use httpadapter.Common.Bytes.{Bytes}
use httpadapter.Common.Io.{read_full}
use httpadapter.Websocket.{Conn, WriterError, write_message}
use httpadapter.Websocket.Frames.{framed}
use httpadapter.Websocket.Messages.{message_layout}
use httpadapter.Relay.{
  Writer, Stopped, relayed, on_outgoing, stopped, write_rounds, write_session, write_ws,
}
use httpadapter.Relay.ToBackend.{TakesAll, message_relayed, stop}

-- A client that calls `WriteMessage` for one message after another, as long as there is no error.
abbrev on_message : (Conn → Option Conn) → Option (ℕ × Option WriterError × Conn) → Option Conn
on_message more none = none
on_message more (some (n, some e, c)) = none
on_message more (some (n, none, c)) = more c

unfoldable pub write_messages : (ℕ → Bool) → List (ℕ × Bytes) → Conn → Option Conn
write_messages known [] c = some c
write_messages known ((t, b) ∷ ms) c =
    on_message (λ d. write_messages known ms d) (write_message known t b c)

-- How many calls of the channel are enough.
abbrev pub calls : List (ℕ × Bytes) → ℕ
calls [] = 0
calls ((t, b) ∷ ms) = (2 * length b + 2) + calls ms

-- The client knows the type of each message, and the backend, after those before it, refuses neither its
-- type nor a part of it nor its end. For a websocket, a control message of more than 125 bytes or a message
-- behind a close message is none that the backend takes.
abbrev pub AllTaken :
    (ℕ → Bool) → (List (ℕ × Bytes) → Writer) → List (ℕ × Bytes) → List (ℕ × Bytes) → Type 0
AllTaken known backend got [] = Unit {0}
AllTaken known backend got ((t, b) ∷ ms) =
    (known t ≡ true)
    × ((backend got).accepts t ≡ true)
    × TakesAll (backend got) t b
    × AllTaken known backend (got ++ (t, b) ∷ []) ms

nothing_left :
    (backend : List (ℕ × Bytes) → Writer) (n : ℕ) (got : List (ℕ × Bytes))
    → write_rounds backend (suc n) got [] ≡ ([], stopped true)
unfolding write_rounds write_ws read_full
nothing_left backend n got = refl

-- What was written makes the loop give the backend these messages.
Carries : (List (ℕ × Bytes) → Writer) → List (ℕ × Bytes) → List (ℕ × Bytes) → Bytes → Type 0
Carries backend got ms x =
    (n : ℕ) → length x < n → write_rounds backend n got x ≡ (ms, stopped true)

nothing_carried :
    (backend : List (ℕ × Bytes) → Writer) (got : List (ℕ × Bytes)) → Carries backend got [] []
unfolding Carries
nothing_carried backend got zero h = absurd (omega arith)
nothing_carried backend got (suc n) h = nothing_left backend n got

Carries-more :
    (backend : List (ℕ × Bytes) → Writer) (got : List (ℕ × Bytes)) (t : ℕ) (b : Bytes)
    (ms : List (ℕ × Bytes)) (ps : List Bytes) (y : Bytes)
    → ((tail : Bytes)
        → write_ws (backend got) (t ∷ (framed ps ++ (stop ++ tail))) ≡ relayed t b tail)
    → Carries backend (got ++ (t, b) ∷ []) ms y
    → Carries backend got ((t, b) ∷ ms) (t ∷ (framed ps ++ (stop ++ y)))
unfolding Carries write_rounds
Carries-more backend got t b ms ps y first rest zero h = absurd (omega arith)
Carries-more backend got t b ms ps y first rest (suc n) h =
    ap (on_outgoing (backend got) (λ m z. write_rounds backend n (got ++ m ∷ []) z)) (first y)
    ∙ ap (λ (r : List (ℕ × Bytes) × Stopped). ((t, b) ∷ r.0, r.1))
        (rest n (omega (arith, length-append (framed ps) (stop ++ y), length-append stop y)))

all_carried :
    (known : ℕ → Bool) (backend : List (ℕ × Bytes) → Writer) (got ms : List (ℕ × Bytes)) (c : Conn)
    → AllTaken known backend got ms
    → calls ms ≤ c.takes
    → (x : Bytes) × (c' : Conn) × (write_messages known ms c ≡ some c')
      × (c'.out ≡ c.out ++ x)
      × Carries backend got ms x
unfolding write_messages
all_carried known backend got [] c good room =
    ([], c, refl, sym (append-nil c.out), nothing_carried backend got)
all_carried known backend got ((t, b) ∷ ms) c (k, a, taken, good) room =
    let (ps, d, e, out, left, all, sizes) = message_layout known t b c k (omega arith) in
    let (y, c', e', out', rest) =
      all_carried known backend (got ++ (t, b) ∷ []) ms d good (omega (arith, left, room)) in
    (
      t ∷ (framed ps ++ (stop ++ y)),
      c',
      ap (on_message (λ d. write_messages known ms d)) e ∙ e',
      out'
          ∙ ap (λ (z : Bytes). z ++ y) out
          ∙ append_assoc c.out (t ∷ (framed ps ++ stop)) y
          ∙ ap (λ (z : Bytes). c.out ++ t ∷ z) (append_assoc (framed ps) stop y),
      Carries-more backend got t b ms ps y
          (λ tail.
            message_relayed (backend got) t ps tail a
              (subst (TakesAll (backend got) t) (sym all) taken) sizes
            ∙ ap (λ (z : Bytes). relayed t z tail) all)
          rest,
    )

-- A session of the client reaches the backend. If the client knows the type of each message, the backend
-- refuses none of them, in type, in part or at its end, after those before it, and the channel takes all
-- the calls, then a client that calls `WriteMessage` for one message after another has no error, and the
-- loop of `writeWS`, on all that was written before the channel ends, gives the backend exactly these
-- messages, in order, and stops since the channel has ended.
pub session_relayed :
    (known : ℕ → Bool) (backend : List (ℕ × Bytes) → Writer) (ms : List (ℕ × Bytes)) (c : Conn)
    → AllTaken known backend [] ms
    → calls ms ≤ c.takes
    → (x : Bytes) × (c' : Conn) × (write_messages known ms c ≡ some c')
      × (c'.out ≡ c.out ++ x)
      × (write_session backend x ≡ (ms, stopped true))
unfolding write_session Carries
session_relayed known backend ms c good room =
    let (x, c', e, out, rest) = all_carried known backend [] ms c good room in
    (x, c', e, out, rest (suc (length x)) (omega arith))
