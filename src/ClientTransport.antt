-- ===== src/ClientTransport.antt =====
-- client_transport.go: the client's end of a tcp chain.
pub mod Handshake
pub mod Dispatch
use httpadapter.Common.{ℕ, [], ◌∷◌, Option, none, some, ◌==◌, if◌then◌else◌}
use httpadapter.Common.Bytes.{Bytes, bytes_eq}
use httpadapter.Common.Io.{Go, returns, panics, make_slice, ◌>>=◌}
use httpadapter.Core.Protocol.{protocol_version}
use httpadapter.Core.Hello.{HelloFailure, hello, Result, ok, err, hello_ok, hello_invalid_version}
use httpadapter.Core.Hello.ClientHello
use httpadapter.Core.Hello.ServerHello.{ServerHello, ReadServer, read_server_hello}

-- The bytes that `newClientTransport` writes first; `buf` is the buffer of `newTransport`.
pub request : ℕ → Bytes → Result Bytes
request window buf =
    ClientHello.marshal_to (record { window = window; version = protocol_version ∷ [] }) buf

-- What `newClientTransport` makes of the answer: a transport with the server's window, or an error.
-- `refused` is the error of `fmt.Errorf` with the code and the text of the server.
pub data Connected : Type 0 where
  connected : ℕ → Bytes → Connected
  failed : HelloFailure → Connected
  refused : ℕ → Bytes → Connected

pub judge : ServerHello → Bytes → Connected
judge m rest =
    if m.code == hello_ok
    then if bytes_eq m.message protocol_version
      then connected m.window rest
      else failed (hello hello_invalid_version)
    else refused m.code m.message

pub judge_outcome : ReadServer → Connected
judge_outcome r = elim r.outcome [ err e ↦ failed e | ok m ↦ judge m r.rest ]

-- From `core.ReadServerHello(c, buf)` on, with the 128 bytes of `newTransport`.
pub read_answer : Bytes → Go Connected
read_answer input = do r ← read_server_hello input (make_slice 128); returns (judge_outcome r)
