-- ===== src/Calls/Tunnel.antt =====
-- client_tcp.go and client_websocket.go: `Connect` and `Websocket`, which open a tunnel to a tcp or
-- websocket server through a channel; internal/pipe/io.go.
pub mod Opening
use httpadapter.Common.{
  Bool, not, ◌&&◌, Option, none, some, List, [], ◌∷◌, ◌==◌, if◌then◌else◌, length, take,
}
use httpadapter.Common.Bytes.{Bytes, codes, bytes_eq}
use httpadapter.Common.Io.{Go, returns, ◌>>=◌, IoError, eof, ReadFull, full, cut, read_full}
use httpadapter.Calls.{Header, ClientMetadata, ServerMetadata, Uri, is_one_of}
use httpadapter.Calls.Client.{
  CallError, url_invalid, url_not_supported, Body, nil_body, channel_body, Called, failed, answered,
  Fate, unary,
}

-- `Connect` or `Websocket`.
pub data Kind : Type 0 where
  tcp websocket : Kind

abbrev pub schemes : Kind → List Bytes
schemes tcp = codes "tcp" ∷ codes "tls" ∷ []
schemes websocket = codes "ws" ∷ codes "wss" ∷ []

abbrev pub is_complete : Kind → Uri → Bool
is_complete tcp uri = not (bytes_eq uri.host []) && not (bytes_eq uri.port [])
is_complete websocket uri = not (bytes_eq uri.host [])

-- What they refuse, with what `url.Parse` makes of the url.
abbrev pub check_tunnel : Kind → Option Uri → Option CallError
check_tunnel kind none = some url_invalid
check_tunnel kind (some uri) =
    if is_one_of uri.scheme (schemes kind) && is_complete kind uri
    then none
    else some url_not_supported

-- What they return: an error, the text of the server as an error, the error that stands for an empty
-- text, or the tunnel, with what is to be read on it.
pub data Opened : Type 0 where
  not_opened : CallError → Opened
  refused : Bytes → Opened
  no_text : Opened
  text_not_read : IoError → Opened
  tunnel : Bytes → Opened

-- The body of the response, of what arrives on the channel.
abbrev pub body_bytes : Body → Bytes → Bytes
body_bytes nil_body rest = []
body_bytes (channel_body n) rest = take n rest

-- `io.ReadAll` of 256 bytes at most.
abbrev pub tcp_text : Bytes → Opened
tcp_text text = if length text == 0 then no_text else refused text

-- `ReadAll` of the internal package pipe into a buffer of 256 bytes: it takes the unexpected end for
-- the end, and passes on the end without a byte.
abbrev pub on_text : Bytes → ReadFull → Opened
on_text text (full b rest) = refused b
on_text text (cut e) = if length text == 0 then text_not_read eof else refused text

abbrev pub error_text : Kind → Bytes → Opened
error_text tcp text = tcp_text (take 256 text)
error_text websocket text = on_text text (read_full 256 text)

abbrev pub on_called : Kind → Called → Opened
on_called kind (failed e) = not_opened e
on_called kind (answered r rest) =
    if r.status == 101 then tunnel rest else error_text kind (body_bytes r.body rest)

-- The metadata; `Connect` sends no header.
abbrev pub tunnel_metadata : Bytes → Header → ClientMetadata
tunnel_metadata url header = record { url = url; method = []; header = header }

-- With `json.Unmarshal` of a `ServerMetadata` and `textproto.CanonicalMIMEHeaderKey`.
module _ (decode : Bytes → Option ServerMetadata) (canonical : Bytes → Bytes) where
  abbrev pub checked_tunnel : Kind → Option Bytes → Fate → Option CallError → Go Opened
  checked_tunnel kind md f (some e) = returns (not_opened e)
  checked_tunnel kind md f none =
      unary decode canonical none 0 md f >>= λ r. returns (on_called kind r)

  -- `Connect` and `Websocket`, with `url.Parse` and `json.Encode` of the metadata.
  unfoldable pub open_tunnel :
      Kind
      → (Bytes → Option Uri)
      → (ClientMetadata → Option Bytes)
      → Bytes
      → Header
      → Fate
      → Go Opened
  open_tunnel kind parse encode url header f =
      checked_tunnel kind (encode (tunnel_metadata url header)) f (check_tunnel kind (parse url))
