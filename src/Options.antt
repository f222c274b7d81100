-- ===== src/Options.antt =====
-- server_options.go and client_options.go: the options of `NewServer` and of the client, applied in
-- order to the defaults. Values of interface types are of a type `A`; nil is `none`.
pub mod Windows
use httpadapter.Common.{ℕ, ◌*◌, List, [], ◌∷◌, Option, none, some, ltb, if◌then◌else◌}

-- Go's `int` and `time.Duration` (in nanoseconds).
pub data ℤ : Type 0 where
  pos : ℕ → ℤ
  negsuc : ℕ → ℤ

-- `serverOptions`
pub record ServerOptions (A : Type 0) : Type 0 where
  pub window : ℕ
  pub timeout : ℤ
  pub handler : Option A
  pub backend : Option A
  pub read_buffer : ℤ
  pub write_buffer : ℤ
  pub channels : ℤ
  pub channel_handler : A
  pub ping : ℤ
  pub tcp_dialer : A
  pub hook_url : Option A
  pub hook_do : Option A

-- The functions that make a `ServerOption`, with their arguments. `ServerWriteBufferChannels` and
-- `ServerChannels` do the same.
pub data ServerOption (A : Type 0) : Type 0 where
  server_window : ℕ → ServerOption A
  server_http : Option A → ServerOption A
  server_handler : Option A → ServerOption A
  server_backend : Option A → ServerOption A
  server_timeout : ℤ → ServerOption A
  server_read_buffer : ℤ → ServerOption A
  server_write_buffer : ℤ → ServerOption A
  server_write_buffer_channels : ℤ → ServerOption A
  server_ping : ℤ → ServerOption A
  server_channels : ℤ → ServerOption A
  server_tcp_dialer : Option A → ServerOption A
  server_hook_url : Option A → ServerOption A
  server_hook_do : Option A → ServerOption A

abbrev or_default : {A : Type 0} → A → Option A → A
or_default v none = v
or_default v (some w) = w

-- `clientOptions`
pub record ClientOptions (A : Type 0) : Type 0 where
  pub window : ℕ
  pub read_buffer : ℤ
  pub write_buffer : ℤ
  pub ping : ℤ
  pub dialer : Option A

-- The functions that make a `ClientOption`.
pub data ClientOption (A : Type 0) : Type 0 where
  with_window : ℕ → ClientOption A
  with_read_buffer : ℤ → ClientOption A
  with_write_buffer : ℤ → ClientOption A
  with_ping : ℤ → ClientOption A
  with_dialer : Option A → ClientOption A

-- `net_dialer` stands for `&net.Dialer{}`.
abbrev pub default_client_options : {A : Type 0} → A → ClientOptions A
default_client_options net_dialer = record {
  window = 32 * 1024;
  read_buffer = pos 4096;
  write_buffer = pos 4096;
  ping = pos 0;
  dialer = some net_dialer;
}

unfoldable pub apply_client : {A : Type 0} → ClientOption A → ClientOptions A → ClientOptions A
apply_client (with_window w) o = record o { window = if ltb 0 w then w else o.window }
apply_client (with_read_buffer n) o = record o { read_buffer = n }
apply_client (with_write_buffer n) o = record o { write_buffer = n }
apply_client (with_ping n) o = record o { ping = n }
apply_client (with_dialer v) o = record o { dialer = v }

unfoldable pub apply_clients :
    {A : Type 0} → List (ClientOption A) → ClientOptions A → ClientOptions A
apply_clients [] o = o
apply_clients (x ∷ xs) o = apply_clients xs (apply_client x o)

-- `default_handler` and `default_dialer` stand for `defaultHandler` and `DefaultTCPDialer{}`.
module _ {A : Type 0} (default_handler default_dialer : A) where
  abbrev pub default_server_options : ServerOptions A
  default_server_options = record {
    window = 32 * 1024;
    timeout = pos (10 * 1000000000);
    handler = none;
    backend = none;
    read_buffer = pos 4096;
    write_buffer = pos 4096;
    channels = pos 0;
    channel_handler = default_handler;
    ping = pos 0;
    tcp_dialer = default_dialer;
    hook_url = none;
    hook_do = none;
  }

  unfoldable pub apply_server : ServerOption A → ServerOptions A → ServerOptions A
  apply_server (server_window w) o = record o { window = if ltb 0 w then w else o.window }
  apply_server (server_http v) o = record o { handler = v }
  apply_server (server_handler v) o = record o { channel_handler = or_default default_handler v }
  apply_server (server_backend v) o = record o { backend = v }
  apply_server (server_timeout n) o = record o { timeout = n }
  apply_server (server_read_buffer n) o = record o { read_buffer = n }
  apply_server (server_write_buffer n) o = record o { write_buffer = n }
  apply_server (server_write_buffer_channels n) o = record o { channels = n }
  apply_server (server_ping n) o = record o { ping = n }
  apply_server (server_channels n) o = record o { channels = n }
  apply_server (server_tcp_dialer v) o = record o { tcp_dialer = or_default default_dialer v }
  apply_server (server_hook_url v) o = record o { hook_url = v }
  apply_server (server_hook_do v) o = record o { hook_do = v }

  unfoldable pub apply_servers : List (ServerOption A) → ServerOptions A → ServerOptions A
  apply_servers [] o = o
  apply_servers (x ∷ xs) o = apply_servers xs (apply_server x o)
