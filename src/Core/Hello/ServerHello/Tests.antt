-- ===== src/Core/Hello/ServerHello/Tests.antt =====
-- A server's hello that is encoded and read again.
use httpadapter.Common.{◌≡◌, inr, [], ◌∷◌, ◌++◌, arith}
use httpadapter.Common.Bytes.{Bytes, codes}
use httpadapter.Common.Io.{returns, make_slice}
use httpadapter.Core.Hello.{hello_ok, ok}
use httpadapter.Core.Hello.ServerHello.{ServerHello, read_server_hello, marshal}
use httpadapter.Core.Hello.ServerHello.RoundTrip.{read_server_hello-marshal}

abbrev greeting : ServerHello
greeting = record { code = hello_ok; window = 4096; message = codes "1.0" }

read_server_hello-marshal_example :
    (encoded : Bytes) × (marshal greeting ≡ ok encoded)
    × (read_server_hello (encoded ++ 7 ∷ []) (make_slice 128)
        ≡ returns (record { outcome = ok greeting; rest = 7 ∷ [] }))
read_server_hello-marshal_example =
    read_server_hello-marshal greeting (7 ∷ []) (make_slice 128) (omega arith) (omega arith)
      (record { window_pos = omega arith; says = inr (omega arith); short = omega arith })
      (inr (omega arith))
