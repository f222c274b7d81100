-- ===== src/Command/Tunnels.antt =====
-- cmd/httpadapter/tunnel.go: the tunnels of a configuration and the clients that they share.
pub mod Keys
pub mod Sharing
mod Tests
use httpadapter.Common.{
  ℕ, Bool, ◌||◌, Option, none, some, List, [], ◌∷◌, ◌++◌, ltb, if◌then◌else◌, length,
}
use httpadapter.Common.Bytes.{Bytes, codes, bytes_eq}
use httpadapter.Options.{
  ℤ, ClientOption, with_window, with_read_buffer, with_write_buffer, with_ping, with_dialer,
}
use httpadapter.Command.Settings.{is_positive, when}

-- `Tunnel` of the configuration.
pub record Tunnel : Type 0 where
  pub listen : Bytes
  pub server : Bytes
  pub tls : Bool
  pub insecure : Bool
  pub backend : Bytes
  pub window : ℕ
  pub read_buffer : ℤ
  pub write_buffer : ℤ
  pub ping : ℤ

-- A client that was made; `number` stands for the pointer.
pub record Client (A : Type 0) : Type 0 where
  pub number : ℕ
  pub address : Bytes
  pub options : List (ClientOption A)

-- `dialer` stands for the `tls.Dialer` that checks no certificate if its argument is true; `quote` is
-- `json.Marshal` of a text; `listens` tells if `net.Listen` succeeds.
module _ {A : Type 0} (dialer : Bool → A) (quote : Bytes → Bytes) (listens : Bytes → Bool) where
  -- The list `opts`.
  unfoldable pub client_options : Tunnel → List (ClientOption A)
  client_options t =
      when (ltb 0 t.window) (with_window t.window)
      ++ (when (is_positive t.read_buffer) (with_read_buffer t.read_buffer)
          ++ (when (is_positive t.write_buffer) (with_write_buffer t.write_buffer)
              ++ (when (is_positive t.ping) (with_ping t.ping)
                  ++ when t.tls (with_dialer (some (dialer t.insecure))))))

  abbrev pub key_end : Bool → Bool → Bytes
  key_end tls insecure =
      if tls then if insecure then codes "-1-1" else codes "-1-0" else codes "-0-0"

  -- `key`
  unfoldable pub client_key : Tunnel → Bytes
  client_key t = quote t.server ++ key_end t.tls t.insecure

  -- `keys[key]`
  unfoldable pub find : Bytes → List (Bytes × Client A) → Option (Client A)
  find k [] = none
  find k ((j, c) ∷ keys) = if bytes_eq k j then some c else find k keys

  abbrev pub new_client : Tunnel → List (Bytes × Client A) → Client A
  new_client t keys = record {
    number = length keys;
    address = t.server;
    options = client_options t;
  }

  abbrev pub found :
      Tunnel → List (Bytes × Client A) → Option (Client A) → Client A × List (Bytes × Client A)
  found t keys (some c) = (c, keys)
  found t keys none = (new_client t keys, (client_key t, new_client t keys) ∷ keys)

  -- The client of a tunnel: one that is there, or a new one.
  unfoldable pub client_for : Tunnel → List (Bytes × Client A) → Client A × List (Bytes × Client A)
  client_for t keys = found t keys (find (client_key t) keys)

  -- `NewTunnelServer` on each tunnel. Where it fails the program ends.
  unfoldable pub new_tunnel_server :
      Tunnel → List (Bytes × Client A) → Option (Client A × List (Bytes × Client A))
  new_tunnel_server t keys =
      if bytes_eq t.server [] || bytes_eq t.backend []
      then none
      else if listens t.listen
      then some (client_for t keys)
      else none

  abbrev pub and_then {ℓ} :
      {B : Type ℓ}
      → Option B
      → (B → Option (List (Tunnel × Client A)))
      → Option (List (Tunnel × Client A))
  and_then none f = none
  and_then (some b) f = f b

  abbrev pub with_first :
      Tunnel × Client A → Option (List (Tunnel × Client A)) → Option (List (Tunnel × Client A))
  with_first x none = none
  with_first x (some xs) = some (x ∷ xs)

  unfoldable pub new_tunnel_servers :
      List Tunnel → List (Bytes × Client A) → Option (List (Tunnel × Client A))
  new_tunnel_servers [] keys = some []
  new_tunnel_servers (t ∷ ts) keys =
      and_then (new_tunnel_server t keys)
        (λ made. with_first (t, made.0) (new_tunnel_servers ts made.1))
