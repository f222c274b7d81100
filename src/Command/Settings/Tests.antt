-- ===== src/Command/Settings/Tests.antt =====
-- A configuration with a size for the write buffer.
use httpadapter.Common.{ℕ, ◌≡◌, List, []}
use httpadapter.Common.Bytes.{Bytes, codes}
use httpadapter.Options.{pos, default_server_options, apply_servers}
use httpadapter.Command.Rewriter.{UnaryRewriter}
use httpadapter.Command.Settings.{Settings, server_options}
use httpadapter.Command.Settings.Applied.{configured, settings_apply}

abbrev settings : Settings
settings = record {
  backend = codes "b";
  window = 7;
  timeout = pos 0;
  read_buffer = pos 100;
  write_buffer = pos 200;
  channels = pos 0;
  ping = pos 0;
  rewriter = [];
}

abbrev to_backend : Bytes → ℕ
to_backend b = 4

abbrev to_hook : List UnaryRewriter → ℕ
to_hook rs = 5

settings_apply_example :
    apply_servers 1 2 (server_options 3 to_backend to_hook 6 settings) (default_server_options 1 2)
    ≡ configured 1 2 3 to_backend to_hook 6 settings
settings_apply_example = settings_apply 1 2 3 to_backend to_hook 6 settings
