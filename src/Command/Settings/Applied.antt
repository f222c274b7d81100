-- ===== src/Command/Settings/Applied.antt =====
-- What the options of a configuration make of the defaults.
use httpadapter.Common.{
  ℕ, ◌≡◌, refl, inl, inr, Bool, true, false, not, Option, none, some, List, [], ◌∷◌, ◌++◌, ltb,
  if◌then◌else◌, Bool-cases,
}
use httpadapter.Common.Bytes.{Bytes, bytes_eq}
use httpadapter.Options.{
  ℤ, ServerOptions, ServerOption, server_window, server_http, server_backend, server_timeout,
  server_read_buffer, server_channels, server_ping, server_hook_url, server_hook_do,
  default_server_options, apply_server, apply_servers,
}
use httpadapter.Command.Rewriter.{UnaryRewriter, is_empty}
use httpadapter.Command.Settings.{Settings, is_positive, when, server_options}

-- A value of the configuration in place of a default, where it is positive.
abbrev pub set_to : ℤ → ℤ → ℤ
set_to v old = if is_positive v then v else old

module _ {A : Type 0} (dh dd : A) where
  -- An option that is there if `b` is true.
  if_set :
      (b : Bool) (x : ServerOption A) (ys : List (ServerOption A)) (o : ServerOptions A)
      → apply_servers dh dd (when b x ++ ys) o
        ≡ apply_servers dh dd ys (if b then apply_server dh dd x o else o)
  unfolding apply_servers
  if_set true x ys o = refl
  if_set false x ys o = refl

  first_then :
      (b : Bool) (x y : ServerOption A) (b' : Bool) (z : ServerOption A)
      (ys : List (ServerOption A)) (o : ServerOptions A)
      → apply_servers dh dd ((if b then x else y) ∷ (when b' z ++ ys)) o
        ≡ apply_servers dh dd (when b' z ++ ys) (apply_server dh dd (if b then x else y) o)
  unfolding apply_servers
  first_then b x y b' z ys o = refl

  last_one :
      (v : Option A) (o : ServerOptions A)
      → apply_servers dh dd (server_hook_do v ∷ []) o ≡ record o { hook_do = v }
  unfolding apply_servers apply_server
  last_one v o = refl

  timeout_if :
      (b : Bool) (v : ℤ) (o : ServerOptions A)
      → (if b then apply_server dh dd (server_timeout v) o else o)
        ≡ record o { timeout = if b then v else o.timeout }
  unfolding apply_server
  timeout_if true v o = refl
  timeout_if false v o = refl

  read_buffer_if :
      (b : Bool) (v : ℤ) (o : ServerOptions A)
      → (if b then apply_server dh dd (server_read_buffer v) o else o)
        ≡ record o { read_buffer = if b then v else o.read_buffer }
  unfolding apply_server
  read_buffer_if true v o = refl
  read_buffer_if false v o = refl

  channels_if :
      (b : Bool) (v : ℤ) (o : ServerOptions A)
      → (if b then apply_server dh dd (server_channels v) o else o)
        ≡ record o { channels = if b then v else o.channels }
  unfolding apply_server
  channels_if true v o = refl
  channels_if false v o = refl

  ping_if :
      (b : Bool) (v : ℤ) (o : ServerOptions A)
      → (if b then apply_server dh dd (server_ping v) o else o)
        ≡ record o { ping = if b then v else o.ping }
  unfolding apply_server
  ping_if true v o = refl
  ping_if false v o = refl

  window_if :
      (w : ℕ) (o : ServerOptions A)
      → (if ltb 0 w then apply_server dh dd (server_window w) o else o)
        ≡ record o { window = if ltb 0 w then w else o.window }
  unfolding apply_server
  window_if w o = elim (Bool-cases (ltb 0 w)) [ inl e ↦ rw e refl | inr e ↦ rw e refl ]

  hook_if :
      (b : Bool) (v : Option A) (o : ServerOptions A)
      → (if not b then apply_server dh dd (server_hook_url v) o else o)
        ≡ record o { hook_url = if b then o.hook_url else v }
  unfolding apply_server
  hook_if true v o = refl
  hook_if false v o = refl

  backend_if :
      (b : Bool) (v w : A) (o : ServerOptions A)
      → apply_server dh dd (if b then server_http (some v) else server_backend (some w)) o
        ≡ record o {
          handler = if b then some v else o.handler;
          backend = if b then o.backend else some w;
        }
  unfolding apply_server
  backend_if true v w o = refl
  backend_if false v w o = refl

module _ {A : Type 0} (dh dd web : A) (tcp_backend : Bytes → A) (hook : List UnaryRewriter → A)
    (do_hook : A) where
  -- What the configuration sets. The size of the write buffer is not among it: the program gives
  -- it to `ServerReadBuffer`, where it wins over the size of the read buffer.
  abbrev pub configured : Settings → ServerOptions A
  configured s = record (default_server_options dh dd) {
    handler = if bytes_eq s.backend [] then some web else none;
    backend = if bytes_eq s.backend [] then none else some (tcp_backend s.backend);
    window = if ltb 0 s.window then s.window else 32768;
    timeout = set_to s.timeout (default_server_options dh dd).timeout;
    read_buffer =
        set_to s.write_buffer (set_to s.read_buffer (default_server_options dh dd).read_buffer);
    channels = set_to s.channels (default_server_options dh dd).channels;
    ping = set_to s.ping (default_server_options dh dd).ping;
    hook_url = if is_empty s.rewriter then none else some (hook s.rewriter);
    hook_do = some do_hook;
  }

  -- A server that the program makes has the defaults but for what its configuration sets; the size
  -- of the write buffer in the configuration sets the read buffer, also where the configuration has
  -- a size for that, and the write buffer keeps its default.
  pub settings_apply :
      (s : Settings)
      → apply_servers dh dd
          (server_options web tcp_backend hook do_hook s)
          (default_server_options dh dd)
        ≡ configured s
  unfolding server_options
  settings_apply s = simp (
    first_then dh dd,
    last_one dh dd,
    if_set dh dd,
    backend_if dh dd,
    window_if dh dd,
    timeout_if dh dd,
    read_buffer_if dh dd,
    channels_if dh dd,
    ping_if dh dd,
    hook_if dh dd,
  )
