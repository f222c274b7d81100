-- ===== src/Websocket/Tests.antt =====
-- Messages on small inputs.
use httpadapter.Common.{ℕ, ◌≡◌, none, [], ◌∷◌, ◌++◌, arith}
use httpadapter.Websocket.{frame_head, Conn}
use httpadapter.Websocket.Reader.{message, read_message}
use httpadapter.Websocket.Reader.Truncated.{truncated_message}

abbrev conn : Conn
conn = record { out = 9 ∷ []; takes = 20 }

abbrev sizes : ℕ → ℕ
sizes i = 1

truncated_message_example :
    read_message sizes (1 ∷ (frame_head 9 ++ (7 ∷ 8 ∷ []))) ≡ message 1 (7 ∷ 8 ∷ []) none []
truncated_message_example = truncated_message sizes 1 9 (7 ∷ 8 ∷ []) (omega arith) (omega arith)
