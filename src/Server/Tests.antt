-- ===== src/Server/Tests.antt =====
-- The server's part of the handshake on small inputs, also against this client.
use httpadapter.Common.{
  ◌≡◌, refl, inl, inr, true, false, none, some, [], ◌∷◌, ◌++◌, arith, replicate,
}
use httpadapter.Common.Bytes.{Bytes, codes}
use httpadapter.Common.Io.{returns, panics}
use httpadapter.Common.Text.{join}
use httpadapter.Core.Protocol.{flag, protocol_version}
use httpadapter.Core.Hello.{hello_ok, hello_invalid_version, ok}
use httpadapter.Core.Hello.ClientHello
use httpadapter.Core.Hello.ClientHello.Encode
use httpadapter.Core.Hello.ClientHello.Decode.{sizes}
use httpadapter.Core.Hello.ServerHello.Encode.{wire}
use httpadapter.Server.{Surroundings, closes, runs, serve, http_reads}
use httpadapter.ClientTransport.{request, connected, read_answer}
use httpadapter.ClientTransport.Handshake.{handshake_agrees}
use httpadapter.Server.Versions.{Offers, serve_panics}
use httpadapter.Server.Answer.{reply, serve_accepts, serve_refuses}
use httpadapter.Server.OtherProtocols.{http_reads_in_order}

abbrev surroundings : Surroundings
surroundings = record { window = 4096; backend = none; http = some true; write_fails = false }

serve_accepts_example :
    serve surroundings (
      ClientHello.Encode.wire (record { window = 8; version = codes "2" ∷ protocol_version ∷ [] })
      ++ 9 ∷ [])
    ≡ returns (runs (wire (reply 4096 hello_ok protocol_version)) 8 (9 ∷ []))
unfolding join
serve_accepts_example =
    serve_accepts surroundings (omega arith) refl (9 ∷ []) 8 (codes "2") (protocol_version ∷ [])
      (record {
        window_pos = omega arith;
        window_word = omega arith;
        clean = ground arith;
        some_text = omega arith;
        fits = omega arith;
      })
      (inr (inl refl))

serve_panics_example : serve surroundings (flag ++ (sizes 8 250 ++ [])) ≡ panics
serve_panics_example =
    serve_panics surroundings 8 250 [] (omega arith) (omega arith) (omega arith) (omega arith)

not_offered : ¬ (Offers (codes "2" ∷ []))
not_offered = ground arith

serve_refuses_example :
    serve surroundings
      (ClientHello.Encode.wire (record { window = 8; version = codes "2" ∷ [] }) ++ 9 ∷ [])
    ≡ returns (closes (wire (reply 4096 hello_invalid_version [])))
unfolding join
serve_refuses_example =
    serve_refuses surroundings (omega arith) refl (9 ∷ []) 8 (codes "2") []
      (record {
        window_pos = omega arith;
        window_word = omega arith;
        clean = ground arith;
        some_text = omega arith;
        fits = omega arith;
      })
      not_offered

http_reads_in_order_example :
    let (bs, c') =
      http_reads
        ((2, 0) ∷ (8, 1) ∷ (3, 2) ∷ [])
        (record { b = codes "GET"; conn = codes " / HTTP" }) in
    bs ++ (c'.b ++ c'.conn) ≡ codes "GET" ++ codes " / HTTP"
http_reads_in_order_example =
    http_reads_in_order ((2, 0) ∷ (8, 1) ∷ (3, 2) ∷ [])
      (record { b = codes "GET"; conn = codes " / HTTP" })

handshake_agrees_example :
    (asking : Bytes) × (answering : Bytes) × (request 8192 (replicate 128 0) ≡ ok asking)
    × (serve surroundings (asking ++ 1 ∷ []) ≡ returns (runs answering 8192 (1 ∷ [])))
    × (read_answer (answering ++ 2 ∷ []) ≡ returns (connected surroundings.window (2 ∷ [])))
handshake_agrees_example =
    handshake_agrees 8192 surroundings (1 ∷ []) (2 ∷ []) (omega arith) (omega arith) (omega arith)
      (omega arith) refl
