-- ===== src/Core/Protocol.antt =====
-- core/protocol.go: the flag and the commands. `Command` is a uint8.
use httpadapter.Common.{ℕ, ◌==◌, if◌then◌else◌, ◌++◌}
use httpadapter.Common.Bytes.{Bytes, codes}
use httpadapter.Common.Text.{itoa}

abbrev pub flag : Bytes
flag = codes "httpadapter"

abbrev pub command_ping : ℕ
command_ping = 1

abbrev pub command_pong : ℕ
command_pong = 2

abbrev pub command_create : ℕ
command_create = 3

abbrev pub command_close : ℕ
command_close = 4

abbrev pub command_write : ℕ
command_write = 5

abbrev pub command_confirm : ℕ
command_confirm = 6

-- core/version.go
abbrev pub protocol_version : Bytes
protocol_version = codes "1.0"

unfoldable pub command_string : ℕ → Bytes
command_string c =
    if c == command_ping
    then codes "Ping"
    else if c == command_pong
    then codes "Pong"
    else if c == command_create
    then codes "Create"
    else if c == command_close
    then codes "Close"
    else if c == command_write
    then codes "Write"
    else if c == command_confirm
    then codes "Confirm"
    else codes "Unknow Command(" ++ itoa c ++ codes ")"
