-- ===== src/Core/Hello/ClientHello.antt =====
-- core/hello.go: the message that a client sends first.
pub mod Encode
pub mod Decode
pub mod RoundTrip
mod Tests
use httpadapter.Common.{
  ℕ, suc, ◌+◌, ◌-◌, List, [], ◌∷◌, ◌++◌, Bool, true, false, not, ◌&&◌, Option, none, some, length,
  take, drop, replicate, ltb, ◌==◌, if◌then◌else◌,
}
use httpadapter.Common.Bytes.{Bytes, put_uint, uint, bytes_eq, copy_into}
use httpadapter.Common.Io.{
  IoError, full, cut, read_full, Go, returns, panics, Slice, make_slice, slice_from, slice_to, need,
  ◌>>=◌, ◌>>◌,
}
use httpadapter.Common.Text.{comma, join, split, total}
use httpadapter.Core.Protocol.{flag}
use httpadapter.Core.Hello.{
  HelloFailure, io, hello, Result, ok, err, hello_ok, hello_invalid_protocol, hello_invalid_version,
  hello_invalid_window, max_uint16,
}

pub record ClientHello : Type 0 where
  pub window : ℕ
  pub version : List Bytes

-- The four results of `ReadClientHello`, and the input that it leaves.
pub record ReadClient : Type 0 where
  pub message : ClientHello
  pub code : ℕ
  pub flag : Bytes
  pub error : Option HelloFailure
  pub rest : Bytes

abbrev pub no_message : ClientHello
no_message = record { window = 0; version = [] }

abbrev pub failed : IoError → Bytes → Go ReadClient
failed e input =
    returns (record {
      message = no_message;
      code = hello_ok;
      flag = [];
      error = some (io e);
      rest = input;
    })

abbrev pub rejected : ℕ → Bytes → Bytes → Go ReadClient
rejected code bs input =
    returns (record { message = no_message; code = code; flag = bs; error = none; rest = input })

abbrev pub accepted : ClientHello → Bytes → Go ReadClient
accepted m input =
    returns (record { message = m; code = hello_ok; flag = []; error = none; rest = input })

-- From `buf = buf[:vs]` on.
pub read_versions : Slice → ℕ → ℕ → Bytes → Go ReadClient
read_versions buf vs window input = do
  text ← slice_to vs buf
  elim (read_full vs input) [
    | cut e ↦ failed e []
    | full bs rest ↦ accepted (record { window = window; version = split bs }) rest
  ]

-- The tests on the length of the versions. `bufsize` is the length of the whole buffer.
pub check_versions : Bool → ℕ → Slice → ℕ → ℕ → Bytes → Go ReadClient
check_versions autobuf bufsize buf vs window input =
    if ltb vs 1
    then rejected hello_invalid_version [] input
    else if ltb bufsize vs
    then (if autobuf
        then read_versions (make_slice vs) vs window input
        else failed IoError.short_buffer input)
    else read_versions buf vs window input

-- The window and the length of the versions, in six bytes behind the flag.
pub read_sizes : Bool → ℕ → Slice → Bytes → Bytes → Go ReadClient
read_sizes autobuf bufsize buf bs input = do
  need 4 buf
  if ltb (uint (take 4 bs)) 1 then rejected hello_invalid_window [] input else do
    sizes ← slice_from 4 buf
    need 2 sizes
    check_versions autobuf bufsize buf (uint (drop 4 bs)) (uint (take 4 bs)) input

-- From `buf = buf[flagsize:]` on.
pub read_body : Bool → Slice → Bytes → Go ReadClient
read_body autobuf buf input = do
  body ← slice_from (length flag) buf
  sizes ← slice_to 6 body
  elim (read_full 6 input) [
    | cut e ↦ failed e []
    | full bs rest ↦ read_sizes autobuf buf.len body bs rest
  ]

pub read_flag : Bool → Slice → Bytes → Go ReadClient
read_flag autobuf buf input = elim (read_full (length flag) input) [
  | cut e ↦ failed e []
  | full bs rest ↦
      if bytes_eq bs flag
      then read_body autobuf buf rest
      else rejected hello_invalid_protocol bs rest
]

-- `ReadClientHello(r, buf)`
pub read_client_hello : Bytes → Slice → Go ReadClient
read_client_hello input buf =
    if buf.len == 0
    then read_flag true (make_slice 128) input
    else if ltb buf.len (length flag)
    then failed IoError.short_buffer input
    else read_flag false buf input

-- `verify`: the size of the encoded message.
pub verify : ClientHello → Result ℕ
verify m =
    let vs = length m.version in
    if m.window == 0
    then err (hello hello_invalid_window)
    else if vs == 0
    then err (hello hello_invalid_version)
    else ok (length flag + 6 + ((if vs == 1 then 0 else vs - 1) + total m.version))

-- `marshalTo(b)` on a buffer of at least 17 bytes, which `verify` asks for.
pub marshal_into : ClientHello → Bytes → Result Bytes
marshal_into m b =
    let vs = join m.version in
    if ltb max_uint16 (length vs)
    then err (hello hello_invalid_version)
    else ok (copy_into b (flag ++ (put_uint 4 m.window ++ (put_uint 2 (length vs) ++ vs))))

-- `MarshalTo(b)`
pub marshal_to : ClientHello → Bytes → Result Bytes
marshal_to m b = elim (verify m) [
  | err e ↦ err e
  | ok size ↦
      if ltb (length b) size then err (io IoError.short_buffer) else marshal_into m (take size b)
]

-- `Marshal()`
pub marshal : ClientHello → Result Bytes
marshal m = elim (verify m) [ err e ↦ err e | ok size ↦ marshal_into m (replicate size 0) ]
