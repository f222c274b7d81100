-- ===== src/Options/Windows/Tests.antt =====
-- A handshake between ends made with options.
use httpadapter.Common.{ℕ, ◌≡◌, true, false, none, some, List, [], ◌∷◌, ◌++◌, arith, replicate}
use httpadapter.Common.Bytes.{Bytes}
use httpadapter.Common.Io.{returns}
use httpadapter.Core.Hello.{ok}
use httpadapter.Server.{Surroundings, serve, runs}
use httpadapter.ClientTransport.{request, connected, read_answer}
use httpadapter.Options.{
  pos, ServerOption, server_window, server_channels, ClientOption, with_window, with_ping,
  default_client_options, apply_clients, default_server_options, apply_servers,
}
use httpadapter.Options.Windows.{options_agree}

abbrev client : List (ClientOption ℕ)
client = with_window 4096 ∷ with_ping (pos 9) ∷ with_window 0 ∷ []

abbrev server : List (ServerOption ℕ)
server = server_channels (pos 5) ∷ server_window 0 ∷ []

options_agree_example :
    let c = (apply_clients client (default_client_options 1)).window in
    let w = (apply_servers 0 1 server (default_server_options 0 1)).window in
    let s : Surroundings = record {
      window = w;
      backend = none;
      http = some true;
      write_fails = false;
    } in
    (asking : Bytes) × (answering : Bytes) × (request c (replicate 128 0) ≡ ok asking)
    × (serve s (asking ++ 7 ∷ []) ≡ returns (runs answering c (7 ∷ [])))
    × (read_answer (answering ++ 8 ∷ []) ≡ returns (connected w (8 ∷ [])))
options_agree_example =
    options_agree 0 1 client server none (some true) (7 ∷ []) (8 ∷ [])
      (omega arith, (tt, (omega arith, tt))) (tt, (omega arith, tt))
