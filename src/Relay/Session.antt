-- ===== src/Relay/Session.antt =====
-- One message of the backend after another.
use httpadapter.Common.{
  ℕ, zero, suc, ◌+◌, ◌≤◌, ◌<◌, ◌≡◌, refl, sym, ap, ◌∙◌, false, none, some, List, [], ◌∷◌, ◌++◌, map,
  append-nil, append_assoc, arith, length, All, flatten,
}
use httpadapter.Common.Bytes.{Bytes}
use httpadapter.Core.Hello.{max_uint16}
use httpadapter.Websocket.{Conn}
use httpadapter.Websocket.Frames.{IsPayload}
use httpadapter.Websocket.Reader.{Message, message, no_message, runs_on, read_message, next_reader}
use httpadapter.Common.Io.{read_full}
use httpadapter.Relay.{with_end, Incoming, on_relayed, read_session, read_ws}
use httpadapter.Relay.ToClient.{wire, wire_written, wire_read}

-- A message whose first read does not return the end.
pub record Sent : Type 0 where
  pub t : ℕ
  pub first : Bytes
  pub more : List Bytes
  pub last : Bytes

-- None of its reads after the first returns nothing, and none more than 65535 bytes.
abbrev pub IsSent : Sent → Type 0
IsSent s = (length s.first ≤ max_uint16) × All IsPayload s.more × (length s.last ≤ max_uint16)

abbrev pub incoming : Sent → Incoming
incoming s = record { t = s.t; pieces = s.first ∷ s.more; ending = with_end s.last }

-- The type and the data.
abbrev pub content : Sent → ℕ × Bytes
content s = (s.t, s.first ++ (flatten s.more ++ s.last))

-- How often `readWS` writes on the channel.
abbrev pub calls : List Sent → ℕ
calls [] = 0
calls (s ∷ ss) = (length s.more + 2) + calls ss

-- What a client gets that calls `ReadMessage` until there is an error, `n` times at most.
abbrev on_message : (Bytes → List (ℕ × Bytes)) → Message → List (ℕ × Bytes)
on_message again no_message = []
on_message again (message t b none rest) = (t, b) ∷ again rest
on_message again (message t b (some e) rest) = []
on_message again runs_on = []

unfoldable pub read_messages : (ℕ → ℕ) → ℕ → Bytes → List (ℕ × Bytes)
read_messages sizes zero input = []
read_messages sizes (suc n) input =
    on_message (λ rest. read_messages sizes n rest) (read_message sizes input)

abbrev wires : List Sent → Bytes
wires [] = []
wires (s ∷ ss) = wire s.t s.first s.more s.last ++ wires ss

session_written :
    (ss : List Sent) (c : Conn)
    → calls ss ≤ c.takes
    → (c' : Conn) × (read_session (map incoming ss) c ≡ (false, c')) × (c'.out ≡ c.out ++ wires ss)
unfolding read_session read_ws
session_written [] c room = (c, refl, sym (append-nil c.out))
session_written (s ∷ ss) c room =
    let (d, e, out, left) = wire_written s.t s.first s.more s.last c (omega arith) in
    let (c', e', out') = session_written ss d (omega (arith, left, room)) in
    (
      c',
      ap (on_relayed (λ d. read_session (map incoming ss) d)) e ∙ e',
      out'
          ∙ ap (λ (x : Bytes). x ++ wires ss) out
          ∙ append_assoc c.out (wire s.t s.first s.more s.last) (wires ss),
    )

no_message_left : (sizes : ℕ → ℕ) → read_message sizes [] ≡ no_message
unfolding read_message next_reader read_full
no_message_left sizes = refl

session_end : (sizes : ℕ → ℕ) (n : ℕ) → read_messages sizes n [] ≡ []
unfolding read_messages
session_end sizes zero = refl
session_end sizes (suc n) =
    ap (on_message (λ rest. read_messages sizes n rest)) (no_message_left sizes)

wires_read :
    (sizes : ℕ → ℕ) (n : ℕ) (ss : List Sent)
    → All IsSent ss
    → length ss ≤ n
    → read_messages sizes n (wires ss) ≡ map content ss
unfolding read_messages
wires_read sizes n [] good enough = session_end sizes n
wires_read sizes zero (s ∷ ss) good enough = absurd (omega arith)
wires_read sizes (suc n) (s ∷ ss) ((short, pieces, small), good) enough =
    ap (on_message (λ rest. read_messages sizes n rest))
      (wire_read sizes s.t s.first s.more s.last (wires ss) short pieces small)
    ∙ ap (◌∷◌ (content s)) (wires_read sizes n ss good (omega arith))

-- A session of the backend reaches the client. If of each message a read comes before the one that
-- returns the end, none between returns nothing, none more than 65535 bytes, and the channel takes all
-- the calls, then the loop of `readWS` ends only when the backend has no more messages, and a client that
-- calls `ReadMessage` until it fails gets exactly these messages, in order, whatever the sizes of its
-- reads.
pub session_read :
    (sizes : ℕ → ℕ) (ss : List Sent) (n : ℕ) (c : Conn)
    → All IsSent ss
    → calls ss ≤ c.takes
    → length ss < n
    → (x : Bytes) × (c' : Conn) × (read_session (map incoming ss) c ≡ (false, c'))
      × (c'.out ≡ c.out ++ x)
      × (read_messages sizes n x ≡ map content ss)
session_read sizes ss n c good room enough =
    let (c', e, out) = session_written ss c room in
    (wires ss, c', e, out, wires_read sizes n ss good (omega arith))
