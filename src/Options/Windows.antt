-- ===== src/Options/Windows.antt =====
-- The windows that options can set, and the handshake between ends made with any options.
mod Tests
use httpadapter.Common.{
  ℕ, ◌^◌, ◌<◌, ◌≡◌, refl, Bool, false, Option, List, [], ◌∷◌, ◌++◌, arith, ltb, if◌then◌else◌,
  replicate, All,
}
use httpadapter.Common.Bytes.{Bytes}
use httpadapter.Common.Io.{returns}
use httpadapter.Core.Hello.{ok}
use httpadapter.Server.{Surroundings, serve, runs}
use httpadapter.ClientTransport.{request, connected, read_answer}
use httpadapter.ClientTransport.Handshake.{handshake_agrees}
use httpadapter.Options.{
  ServerOptions, ServerOption, server_window, ClientOptions, ClientOption, with_window,
  default_client_options, apply_client, apply_clients, default_server_options, apply_server,
  apply_servers, server_http, server_handler, server_backend, server_timeout, server_read_buffer,
  server_write_buffer, server_write_buffer_channels, server_ping, server_channels,
  server_tcp_dialer, server_hook_url, server_hook_do, with_read_buffer, with_write_buffer,
  with_ping, with_dialer,
}

-- A window that a hello can carry.
abbrev pub IsWindow : ℕ → Type 0
IsWindow w = (0 < w) × (w < 2 ^ 32)

-- The argument of `ServerWindow` and of `WithWindow` is a uint32.
abbrev pub IsClientOption : {A : Type 0} → ClientOption A → Type 0
IsClientOption (with_window w) = w < 2 ^ 32
IsClientOption x = Unit {0}

abbrev pub IsServerOption : {A : Type 0} → ServerOption A → Type 0
IsServerOption (server_window w) = w < 2 ^ 32
IsServerOption x = Unit {0}

chosen_lem : (w v : ℕ) → w < 2 ^ 32 → IsWindow v → IsWindow (if ltb 0 w then w else v)
chosen_lem w v h good = ground arith

apply_client-IsWindow :
    {A : Type 0} (x : ClientOption A) (o : ClientOptions A)
    → IsClientOption x
    → IsWindow o.window
    → IsWindow (apply_client x o).window
unfolding apply_client
apply_client-IsWindow (with_window w) o h v = chosen_lem w o.window h v
apply_client-IsWindow (with_read_buffer n) o h v = v
apply_client-IsWindow (with_write_buffer n) o h v = v
apply_client-IsWindow (with_ping n) o h v = v
apply_client-IsWindow (with_dialer n) o h v = v

apply_clients-IsWindow :
    {A : Type 0} (xs : List (ClientOption A)) (o : ClientOptions A)
    → All IsClientOption xs
    → IsWindow o.window
    → IsWindow (apply_clients xs o).window
unfolding apply_clients
apply_clients-IsWindow [] o h v = v
apply_clients-IsWindow (x ∷ xs) o h v =
    apply_clients-IsWindow xs (apply_client x o) h.1 (apply_client-IsWindow x o h.0 v)

module _ {A : Type 0} (default_handler default_dialer : A) where
  apply_server-IsWindow :
      (x : ServerOption A) (o : ServerOptions A)
      → IsServerOption x
      → IsWindow o.window
      → IsWindow (apply_server default_handler default_dialer x o).window
  unfolding apply_server
  apply_server-IsWindow (server_window w) o h v = chosen_lem w o.window h v
  apply_server-IsWindow (server_http x) o h v = v
  apply_server-IsWindow (server_handler x) o h v = v
  apply_server-IsWindow (server_backend x) o h v = v
  apply_server-IsWindow (server_timeout x) o h v = v
  apply_server-IsWindow (server_read_buffer x) o h v = v
  apply_server-IsWindow (server_write_buffer x) o h v = v
  apply_server-IsWindow (server_write_buffer_channels x) o h v = v
  apply_server-IsWindow (server_ping x) o h v = v
  apply_server-IsWindow (server_channels x) o h v = v
  apply_server-IsWindow (server_tcp_dialer x) o h v = v
  apply_server-IsWindow (server_hook_url x) o h v = v
  apply_server-IsWindow (server_hook_do x) o h v = v

  apply_servers-IsWindow :
      (xs : List (ServerOption A)) (o : ServerOptions A)
      → All IsServerOption xs
      → IsWindow o.window
      → IsWindow (apply_servers default_handler default_dialer xs o).window
  unfolding apply_servers
  apply_servers-IsWindow [] o h v = v
  apply_servers-IsWindow (x ∷ xs) o h v =
      apply_servers-IsWindow xs (apply_server default_handler default_dialer x o) h.1
        (apply_server-IsWindow x o h.0 v)

-- A client and a server made with any options agree in the handshake on a connection that takes the
-- server's answer: each gets the window that the options of the other gave it, whatever backend and
-- http handler the server has, and the bytes that follow the hello messages are kept.
pub options_agree :
    {A : Type 0} (handler dialer : A) (cs : List (ClientOption A)) (ss : List (ServerOption A))
    (backend http : Option Bool) (rest more : Bytes)
    → All IsClientOption cs
    → All IsServerOption ss
    → let c = (apply_clients cs (default_client_options dialer)).window in
      let w = (apply_servers handler dialer ss (default_server_options handler dialer)).window in
      let s : Surroundings = record {
        window = w;
        backend = backend;
        http = http;
        write_fails = false;
      } in
      (asking : Bytes) × (answering : Bytes) × (request c (replicate 128 0) ≡ ok asking)
      × (serve s (asking ++ rest) ≡ returns (runs answering c rest))
      × (read_answer (answering ++ more) ≡ returns (connected w more))
options_agree handler dialer cs ss backend http rest more hc hs =
    let c = apply_clients-IsWindow cs (default_client_options dialer) hc (omega arith) in
    let w =
      apply_servers-IsWindow handler dialer ss (default_server_options handler dialer) hs
        (omega arith) in
    handshake_agrees _ _ rest more c.0 c.1 w.0 w.1 refl
