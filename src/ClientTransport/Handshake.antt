-- ===== src/ClientTransport/Handshake.antt =====
-- The two ends of the handshake together.
use httpadapter.Common.{ℕ, ◌^◌, ◌<◌, ◌≡◌, refl, inl, inr, [], ◌∷◌, ◌++◌, false, replicate, arith}
use httpadapter.Common.Bytes.{Bytes, bytes_eq_self}
use httpadapter.Common.Io.{returns, make_slice}
use httpadapter.Common.Text.{join}
use httpadapter.Core.Protocol.{protocol_version}
use httpadapter.Core.Hello.{ok, hello_ok}
use httpadapter.Core.Hello.ClientHello.{ClientHello}
use httpadapter.Core.Hello.ClientHello.Encode
use httpadapter.Core.Hello.ServerHello.Encode.{wire}
use httpadapter.Core.Hello.ServerHello.RoundTrip.{read_wire}
use httpadapter.Server.{Surroundings, runs, serve}
use httpadapter.Server.Answer.{reply, serve_accepts}
use httpadapter.ClientTransport.{request, connected, judge, judge_outcome, read_answer}

abbrev asked : ℕ → ClientHello
asked window = record { window = window; version = protocol_version ∷ [] }

request-wire :
    (window : ℕ) → 0 < window → request window (replicate 128 0) ≡ ok (Encode.wire (asked window))
unfolding request join
request-wire window pos =
    Encode.marshal_to-wire (asked window) (replicate 128 0)
      (record { window_pos = pos; versions = omega arith; short = omega arith })

read_answer-ok :
    (window : ℕ) (more : Bytes)
    → 0 < window
    → window < 2 ^ 32
    → read_answer (wire (reply window hello_ok protocol_version) ++ more)
      ≡ returns (connected window more)
unfolding read_answer judge_outcome judge
read_answer-ok window more pos wide = rw (
  read_wire (reply window hello_ok protocol_version) more (make_slice 128) (omega arith) wide
      (record { window_pos = pos; says = inr (omega arith); short = omega arith })
      (inr (omega arith)),
  bytes_eq_self protocol_version,
)

-- A client and a server with any windows from 1 to 2^32 - 1 agree: the client's request fits its
-- buffer, the server takes it and starts a transport with the client's window, and the client takes
-- the answer and gets the server's window. Both ends keep the bytes that follow.
pub handshake_agrees :
    (window : ℕ) (s : Surroundings) (rest more : Bytes)
    → 0 < window
    → window < 2 ^ 32
    → 0 < s.window
    → s.window < 2 ^ 32
    → s.write_fails ≡ false
    → (asking : Bytes) × (answering : Bytes) × (request window (replicate 128 0) ≡ ok asking)
      × (serve s (asking ++ rest) ≡ returns (runs answering window rest))
      × (read_answer (answering ++ more) ≡ returns (connected s.window more))
unfolding join
handshake_agrees window s rest more pos wide spos swide sent = (
  Encode.wire (asked window),
  wire (reply s.window hello_ok protocol_version),
  request-wire window pos,
  serve_accepts s spos sent rest window protocol_version []
      (record {
        window_pos = pos;
        window_word = wide;
        clean = omega arith;
        some_text = omega arith;
        fits = omega arith;
      })
      (inl refl),
  read_answer-ok s.window more spos swide,
)
