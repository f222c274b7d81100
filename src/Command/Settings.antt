-- ===== src/Command/Settings.antt =====
-- cmd/httpadapter/server.go: the options of the server that the program makes of its configuration.
pub mod Applied
mod Tests
use httpadapter.Common.{ℕ, Bool, false, not, some, List, [], ◌∷◌, ◌++◌, ltb, if◌then◌else◌}
use httpadapter.Common.Bytes.{Bytes, bytes_eq}
use httpadapter.Options.{
  ℤ, pos, negsuc, ServerOption, server_window, server_http, server_backend, server_timeout,
  server_read_buffer, server_channels, server_ping, server_hook_url, server_hook_do,
}
use httpadapter.Command.Rewriter.{UnaryRewriter, is_empty}

-- `Options` of the configuration, and the rewriters that were made of its rules.
pub record Settings : Type 0 where
  pub backend : Bytes
  pub window : ℕ
  pub timeout : ℤ
  pub read_buffer : ℤ
  pub write_buffer : ℤ
  pub channels : ℤ
  pub ping : ℤ
  pub rewriter : List UnaryRewriter

abbrev pub is_positive : ℤ → Bool
is_positive (pos n) = ltb 0 n
is_positive (negsuc n) = false

abbrev pub when {ℓ} : {A : Type ℓ} → Bool → A → List A
when b x = if b then x ∷ [] else []

-- `web` stands for the handler of the web page, `tcp_backend` for `NewTCPBackend`, `hook` for the
-- hook that runs the rewriters, `do_hook` for the one that chooses between the two http clients.
module _ {A : Type 0} (web : A) (tcp_backend : Bytes → A) (hook : List UnaryRewriter → A)
    (do_hook : A) where
  -- The list `opts`.
  unfoldable pub server_options : Settings → List (ServerOption A)
  server_options s =
      (if bytes_eq s.backend []
        then server_http (some web)
        else server_backend (some (tcp_backend s.backend)))
      ∷ (when (ltb 0 s.window) (server_window s.window)
          ++ (when (is_positive s.timeout) (server_timeout s.timeout)
              ++ (when (is_positive s.read_buffer) (server_read_buffer s.read_buffer)
                  ++ (when (is_positive s.write_buffer) (server_read_buffer s.write_buffer)
                      ++ (when (is_positive s.channels) (server_channels s.channels)
                          ++ (when (is_positive s.ping) (server_ping s.ping)
                              ++ (when (not (is_empty s.rewriter))
                                    (server_hook_url (some (hook s.rewriter)))
                                  ++ (server_hook_do (some do_hook) ∷ []))))))))
