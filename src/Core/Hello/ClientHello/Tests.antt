-- ===== src/Core/Hello/ClientHello/Tests.antt =====
-- A client's hello that is encoded and read again.
use httpadapter.Common.{◌≡◌, inr, [], ◌∷◌, ◌++◌, arith}
use httpadapter.Common.Bytes.{Bytes, codes}
use httpadapter.Common.Io.{make_slice}
use httpadapter.Common.Text.{join}
use httpadapter.Core.Hello.{ok}
use httpadapter.Core.Hello.ClientHello.{ClientHello, accepted, read_client_hello, marshal}
use httpadapter.Core.Hello.ClientHello.RoundTrip.{read_client_hello-marshal}

abbrev two_versions : ClientHello
two_versions = record { window = 65536; version = codes "1.0" ∷ codes "2" ∷ [] }

read_client_hello-marshal_example :
    (encoded : Bytes) × (marshal two_versions ≡ ok encoded)
    × (read_client_hello (encoded ++ 1 ∷ []) (make_slice 256) ≡ accepted two_versions (1 ∷ []))
unfolding join
read_client_hello-marshal_example =
    read_client_hello-marshal 65536 (codes "1.0") (codes "2" ∷ []) (1 ∷ []) (make_slice 256)
      (omega arith) (omega arith) (ground arith) (omega arith) (omega arith) (inr (omega arith))
