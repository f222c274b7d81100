-- ===== src/Server.antt =====
-- server.go: how the server accepts connections and answers the first bytes of each.
pub mod Accept
pub mod Versions
pub mod Answer
pub mod OtherProtocols
mod Tests
use httpadapter.Common.{
  ℕ, suc, ◌*◌, List, [], ◌∷◌, ◌++◌, Bool, true, false, Option, none, some, length, take, drop, min,
  replicate, ltb, ◌==◌, if◌then◌else◌,
}
use httpadapter.Common.Bytes.{Bytes, bytes_eq}
use httpadapter.Common.Io.{IoError, Go, returns, panics, make_slice, ◌>>=◌}
use httpadapter.Core.Protocol.{protocol_version}
use httpadapter.Core.Hello.{
  HelloFailure, io, hello, Result, ok, err, hello_ok, hello_invalid_protocol, hello_invalid_version,
  hello_string,
}
use httpadapter.Core.Hello.ClientHello.{ReadClient, read_client_hello}
use httpadapter.Core.Hello.ServerHello.{ServerHello, marshal_to}

-- The results of `hello`: `backend` holds the bytes that an `httpConn` gives back first.
pub record Greeting : Type 0 where
  pub backend : Option Bytes
  pub code : ℕ
  pub version : Bytes
  pub window : ℕ
  pub error : Option HelloFailure
  pub rest : Bytes

abbrev pub greeting_code : ℕ → Option HelloFailure → Bytes → Greeting
greeting_code code e input = record {
  backend = none;
  code = code;
  version = [];
  window = 0;
  error = e;
  rest = input;
}

-- The loop over the client's versions.
pub choose_version : List Bytes → ℕ → Bytes → Greeting
choose_version [] window input = greeting_code hello_invalid_version none input
choose_version (v ∷ vs) window input =
    if bytes_eq v protocol_version
    then record {
      backend = none;
      code = hello_ok;
      version = protocol_version;
      window = window;
      error = none;
      rest = input;
    }
    else choose_version vs window input

-- `if e == io.ErrShortBuffer`
pub greeting_failed : ℕ → HelloFailure → Bytes → Greeting
greeting_failed code (io IoError.short_buffer) input =
    greeting_code hello_invalid_version none input
greeting_failed code e input = greeting_code code (some e) input

-- `hello` after `ReadClientHello`.
pub greet : ReadClient → Greeting
greet r =
    if r.code == hello_invalid_protocol
    then record {
      backend = some r.flag;
      code = r.code;
      version = [];
      window = 0;
      error = r.error;
      rest = r.rest;
    }
    else elim r.error [
      | some e ↦ greeting_failed r.code e r.rest
      | none ↦
          if r.code == hello_ok
          then choose_version r.message.version r.message.window r.rest
          else greeting_code r.code none r.rest
    ]

-- `hello(rw, b)` with the 256 bytes that `serve` makes.
pub read_greeting : Bytes → Go Greeting
read_greeting input = do r ← read_client_hello input (make_slice 256); returns (greet r)

-- `sendHello`: the bytes for `rw.Write`. `b` is the buffer of `serve`.
pub send_hello : ℕ → Bytes → ℕ → Bytes → Result Bytes
send_hello window b code version =
    marshal_to
      (record {
        code = code;
        window = window;
        message = if code == hello_ok then version else hello_string code;
      })
      b

-- The options that `serve` reads, with what the environment answers: `backend` is `some true` if the
-- backend can be dialled, `http` is `some true` if the listener of the http server takes the
-- connection before the server closes.
pub record Surroundings : Type 0 where
  pub window : ℕ
  pub backend : Option Bool
  pub http : Option Bool
  pub write_fails : Bool

-- What becomes of a connection. The bytes of `closes` and `runs` are those written to it.
pub data Served : Type 0 where
  closes : Bytes → Served
  relays : Bytes → Bytes → Served
  backend_closed : Served
  hands_over : Bytes → Bytes → Served
  runs : Bytes → ℕ → Bytes → Served

-- The end of `serve`: `e != nil || code != 0`, or the transport.
pub answer : Surroundings → Greeting → Result Bytes → Served
answer s g (err e) = closes []
answer s g (ok bs) =
    if s.write_fails
    then closes []
    else if g.code == hello_ok
    then runs bs g.window g.rest
    else closes bs

-- A connection that does not speak the protocol.
pub serve_other : Surroundings → Bytes → Bytes → Result Bytes → Served
serve_other s flag input refusal = elim s.backend [
  | some true ↦ relays flag input
  | some false ↦ backend_closed
  | none ↦ elim s.http [
    | some true ↦ hands_over flag input
    | some false ↦ backend_closed
    | none ↦ elim refusal [
      | err e ↦ closes []
      | ok bs ↦ if s.write_fails then closes [] else closes bs
    ]
  ]
]

-- `serve` on the result of `hello`; `none` when the timer fired first.
pub serve_greeting : Surroundings → Option Greeting → Served
serve_greeting s none = closes []
serve_greeting s (some g) =
    let b = replicate 256 0 in
    elim g.error [
      | some e ↦ closes []
      | none ↦ elim g.backend [
        | some flag ↦ serve_other s flag g.rest (send_hello s.window b hello_invalid_protocol [])
        | none ↦ answer s g (send_hello s.window b g.code g.version)
      ]
    ]

-- `serve(l, rw)` where the hello comes in time.
pub serve : Surroundings → Bytes → Go Served
serve s input = do g ← read_greeting input; returns (serve_greeting s (some g))

-- `Serve`: the pause after a failed accept, in milliseconds.
pub next_delay : ℕ → ℕ
next_delay delay =
    let doubled = (if delay == 0 then 5 else delay * 2) in
    if ltb 1000 doubled then 1000 else doubled

-- What `l.Accept` returns, with `closed` for an error after the server closed.
pub data Accepted : Type 0 where
  connection timeout closed failure : Accepted

-- How the accept loop goes: the pauses and connections in order, and how it ends.
pub data Looped : Type 0 where
  pauses : ℕ → Looped → Looped
  serves : Looped → Looped
  server_closed accept_failed waiting : Looped

pub accept_loop : ℕ → List Accepted → Looped
accept_loop delay [] = waiting
accept_loop delay (connection ∷ rest) = serves (accept_loop 0 rest)
accept_loop delay (timeout ∷ rest) = pauses (next_delay delay) (accept_loop (next_delay delay) rest)
accept_loop delay (closed ∷ rest) = server_closed
accept_loop delay (failure ∷ rest) = accept_failed

-- http.go: `httpConn`, whose first reads give back the bytes that `hello` took.
pub record HttpConn : Type 0 where
  pub b : Bytes
  pub conn : Bytes

-- `Read` with room for `n` bytes, where the connection has `avail` of its bytes at hand.
http_read_held : ℕ → ℕ → Bytes → Bytes → Bytes × HttpConn
http_read_held n avail [] conn =
    (take (min n avail) conn, record { b = []; conn = drop (min n avail) conn })
http_read_held n avail (x ∷ xs) conn =
    (take n (x ∷ xs), record { b = drop n (x ∷ xs); conn = conn })

pub http_read : ℕ → ℕ → HttpConn → Bytes × HttpConn
http_read n avail c = http_read_held n avail c.b c.conn

-- A sequence of reads, and all the bytes that they gave.
pub http_reads : List (ℕ × ℕ) → HttpConn → Bytes × HttpConn
http_reads [] c = ([], c)
http_reads ((n, avail) ∷ rest) c =
    let (bs, c') = http_read n avail c in
    let (more, last) = http_reads rest c' in (bs ++ more, last)
