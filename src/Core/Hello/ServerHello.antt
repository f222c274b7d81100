-- ===== src/Core/Hello/ServerHello.antt =====
-- core/hello.go: the message with which a server answers.
pub mod Encode
pub mod Decode
pub mod RoundTrip
mod Tests
use httpadapter.Common.{
  ℕ, suc, ◌+◌, ◌-◌, List, [], ◌∷◌, ◌++◌, Bool, true, false, not, ◌&&◌, Option, none, some, length,
  take, drop, ltb, ◌==◌, if◌then◌else◌, get_or, replicate,
}
use httpadapter.Common.Bytes.{Bytes, put_uint, uint, bytes_eq, copy_into}
use httpadapter.Common.Io.{
  IoError, full, cut, read_full, Go, returns, panics, Slice, make_slice, slice_from, slice_to, need,
  ◌>>=◌, ◌>>◌,
}
use httpadapter.Core.Protocol.{flag}
use httpadapter.Core.Hello.{
  HelloFailure, io, hello, unknow_protocol, invalid_message, Result, ok, err, hello_ok,
  hello_invalid_version, hello_invalid_window, max_uint16,
}

pub record ServerHello : Type 0 where
  pub code : ℕ
  pub window : ℕ
  pub message : Bytes

-- The results of `ReadServerHello`, and the input that it leaves.
pub record ReadServer : Type 0 where
  pub outcome : Result ServerHello
  pub rest : Bytes

abbrev pub failed : HelloFailure → Bytes → Go ReadServer
failed e input = returns (record { outcome = err e; rest = input })

-- `if code == HelloOk && msg == ""`, and the result.
pub accept : ℕ → ℕ → Bytes → Bytes → Go ReadServer
accept code window msg input =
    if code == hello_ok && length msg == 0
    then failed (hello hello_invalid_version) input
    else returns (record {
      outcome = ok (record { code = code; window = window; message = msg });
      rest = input;
    })

-- From `if msglen > 0` on; `buf` has `msglen` bytes.
pub read_message : ℕ → ℕ → ℕ → Bytes → Go ReadServer
read_message code window msglen input =
    if ltb 0 msglen
    then elim (read_full msglen input) [
      | cut e ↦ failed (io e) []
      | full bs rest ↦ accept code window bs rest
    ]
    else accept code window [] input

-- The tests on the length of the message.
pub check_message : Bool → Slice → ℕ → ℕ → ℕ → Bytes → Go ReadServer
check_message autobuf buf code window msglen input =
    if ltb buf.len msglen
    then (if autobuf
        then read_message code window msglen input
        else failed (io IoError.short_buffer) input)
    else do text ← slice_to msglen buf; read_message code window msglen input

-- The code, the window and the length of the message, in seven bytes behind the flag.
pub read_sizes : Bool → Slice → Bytes → Bytes → Go ReadServer
read_sizes autobuf buf bs input = do
  need 1 buf
  window ← slice_from 1 buf
  need 4 window
  if ltb (uint (take 4 (drop 1 bs))) 1 then failed (hello hello_invalid_window) input else do
    sizes ← slice_from 5 buf
    need 2 sizes
    check_message autobuf buf (get_or bs 0 0) (uint (take 4 (drop 1 bs))) (uint (drop 5 bs)) input

-- From the second `io.ReadFull` on.
pub read_body : Bool → Slice → Bytes → Go ReadServer
read_body autobuf buf input = do
  sizes ← slice_to 7 buf
  elim (read_full 7 input) [
    | cut e ↦ failed (io e) []
    | full bs rest ↦ read_sizes autobuf buf bs rest
  ]

pub read_flag : Bool → Slice → Bytes → Go ReadServer
read_flag autobuf buf input = elim (read_full (length flag) input) [
  | cut e ↦ failed (io e) []
  | full bs rest ↦
      if bytes_eq bs flag then read_body autobuf buf rest else failed unknow_protocol rest
]

-- `ReadServerHello(r, buf)`
pub read_server_hello : Bytes → Slice → Go ReadServer
read_server_hello input buf =
    if buf.len == 0
    then read_flag true (make_slice 128) input
    else if ltb buf.len (length flag)
    then failed (io IoError.short_buffer) input
    else read_flag false buf input

-- `verify`: the size of the encoded message.
pub verify : ServerHello → Result ℕ
verify m =
    if m.window == 0
    then err (hello hello_invalid_window)
    else if m.code == hello_ok && length m.message == 0
    then err (hello hello_invalid_version)
    else if ltb max_uint16 (length m.message)
    then err invalid_message
    else ok (length flag + 7 + length m.message)

-- `marshalTo(b)` on a buffer of at least 18 bytes, which `verify` asks for.
pub marshal_into : ServerHello → Bytes → Bytes
marshal_into m b = copy_into b (
    flag
    ++ (put_uint 1 m.code ++ (put_uint 4 m.window ++ (put_uint 2 (length m.message) ++ m.message))))

-- `MarshalTo(b)`
pub marshal_to : ServerHello → Bytes → Result Bytes
marshal_to m b = elim (verify m) [
  | err e ↦ err e
  | ok size ↦
      if ltb (length b) size
      then err (io IoError.short_buffer)
      else ok (marshal_into m (take size b))
]

-- `Marshal()`
pub marshal : ServerHello → Result Bytes
marshal m = elim (verify m) [ err e ↦ err e | ok size ↦ ok (marshal_into m (replicate size 0)) ]
