-- ===== src/Relay/Tests.antt =====
-- Small messages.
use httpadapter.Common.{
  ℕ, ◌≡◌, refl, Bool, true, false, some, List, [], ◌∷◌, ◌++◌, map, arith, leb, ◌==◌, if◌then◌else◌,
  length,
}
use httpadapter.Common.Bytes.{Bytes, uint}
use httpadapter.Websocket.{Conn}
use httpadapter.Common.Io.{read_full}
use httpadapter.Relay.{
  Writer, write_rounds, write_ws, copy_frames, read_session, write_session, stopped,
}
use httpadapter.Relay.Session.{Sent, incoming, read_messages, session_read}
use httpadapter.Relay.Sending.{write_messages, session_relayed}

abbrev conn : Conn
conn = record { out = 9 ∷ []; takes = 20 }

abbrev text_only : ℕ → Bool
text_only t = t == 1

abbrev sizes : ℕ → ℕ
sizes i = 1

abbrev sent : List (ℕ × Bytes)
sent = (1, 7 ∷ 8 ∷ []) ∷ (1, []) ∷ []

-- A websocket that takes no control message of more than 125 bytes and nothing behind a close message.
abbrev closed_by : List (ℕ × Bytes) → Bool
closed_by [] = false
closed_by ((t, b) ∷ got) = let later = closed_by got in if t == 8 then true else later

abbrev websocket : List (ℕ × Bytes) → Writer
websocket got = record {
  accepts = λ t. if closed_by got then false else true;
  takes = λ t acc p. if leb 8 t then leb (length (acc ++ p)) 125 else true;
  ends = λ t b. true;
}

session_relayed_example :
    (x : Bytes) × (c' : Conn) × (write_messages text_only sent conn ≡ some c')
    × (c'.out ≡ 9 ∷ [] ++ x)
    × (write_session websocket x ≡ (sent, stopped true))
session_relayed_example =
    session_relayed text_only websocket sent conn
      (
        refl,
        refl,
        (λ acc p rest good e. refl, refl),
        (refl, refl, (λ acc p rest good e. refl, refl), tt),
      )
      (omega arith)

-- What comes behind a close message is not relayed.
behind_close :
    write_session websocket (8 ∷ 1 ∷ 0 ∷ 0 ∷ 1 ∷ 1 ∷ 0 ∷ 0 ∷ []) ≡ ((8, []) ∷ [], stopped false)
unfolding write_session write_rounds write_ws copy_frames read_full uint
behind_close = refl

abbrev session : List Sent
session =
    record { t = 1; first = 7 ∷ []; more = (8 ∷ []) ∷ []; last = [] }
    ∷ record { t = 2; first = []; more = []; last = 9 ∷ [] }
    ∷ []

session_read_example :
    (x : Bytes) × (c' : Conn) × (read_session (map incoming session) conn ≡ (false, c'))
    × (c'.out ≡ 9 ∷ [] ++ x)
    × (read_messages sizes 3 x ≡ (1, 7 ∷ 8 ∷ []) ∷ (2, 9 ∷ []) ∷ [])
session_read_example =
    session_read sizes session 3 conn
      (
        (omega arith, ((omega arith, omega arith), tt), omega arith),
        ((omega arith, tt, omega arith), tt),
      )
      (omega arith) (omega arith)
