-- ===== src/Core/Hello.antt =====
-- core/hello.go: the codes of the handshake, shared by its two messages.
pub mod ClientHello
pub mod ServerHello
use httpadapter.Common.{ℕ, ◌==◌, if◌then◌else◌, ◌++◌}
use httpadapter.Common.Bytes.{Bytes, codes}
use httpadapter.Common.Io.{IoError}
use httpadapter.Common.Text.{itoa}

-- `Hello` is a uint8.
abbrev pub hello_ok : ℕ
hello_ok = 0

abbrev pub hello_invalid_protocol : ℕ
hello_invalid_protocol = 1

abbrev pub hello_invalid_version : ℕ
hello_invalid_version = 2

abbrev pub hello_busy : ℕ
hello_busy = 3

abbrev pub hello_server_error : ℕ
hello_server_error = 4

abbrev pub hello_invalid_window : ℕ
hello_invalid_window = 5

unfoldable pub hello_string : ℕ → Bytes
hello_string h =
    if h == hello_ok
    then codes "Ok"
    else if h == hello_invalid_protocol
    then codes "Invalid Protocol"
    else if h == hello_invalid_version
    then codes "Invalid Version"
    else if h == hello_busy
    then codes "Server Busy"
    else if h == hello_server_error
    then codes "Server Error"
    else if h == hello_invalid_window
    then codes "Invalid Window"
    else codes "Unknow(" ++ itoa h ++ codes ")"

-- `hello` is `HelloError`; `invalid_message` is the error of `ServerHello.verify`.
pub data HelloFailure : Type 0 where
  io : IoError → HelloFailure
  hello : ℕ → HelloFailure
  unknow_protocol invalid_message : HelloFailure

pub data Result {ℓ} (A : Type ℓ) : Type ℓ where
  ok : A → Result A
  err : HelloFailure → Result A

abbrev pub max_uint16 : ℕ
max_uint16 = 65535
