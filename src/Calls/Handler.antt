-- ===== src/Calls/Handler.antt =====
-- server_handler.go: how the server serves a channel, up to the relays between the channel and what
-- it dials.
use httpadapter.Common.{
  ℕ, Bool, ◌&&◌, Option, none, some, List, [], ◌∷◌, ◌++◌, ltb, ◌==◌, if◌then◌else◌, length, take,
  drop,
}
use httpadapter.Common.Bytes.{Bytes, codes, uint, bytes_eq}
use httpadapter.Common.Io.{ReadFull, full, cut, read_full}
use httpadapter.Calls.{
  Header, ClientMetadata, ServerMetadata, Uri, max_int64, head, is_one_of, set_header, get_header,
  unmarshal,
}

-- Why the server answers with a text; the texts are those of errors or tell these reasons.
pub data Reason : Type 0 where
  metadata_invalid bodylen_too_large url_invalid url_refused : Reason
  method_not_supported scheme_not_supported bodylen_invalid dial_failed : Reason
  request_invalid request_failed body_not_read length_not_set length_invalid length_too_large :
      Reason

-- What `Serve` comes to; `rest` is what it leaves to be read on the channel.
pub data Served : Type 0 where
  quits : Served
  says : ℕ → Reason → Served
  to_tcp : Uri → ClientMetadata → ℕ → Bytes → Served
  to_websocket : ClientMetadata → ℕ → Bytes → Served
  to_unary : ClientMetadata → ℕ → Bytes → Served

abbrev pub methods : List Bytes
methods =
    codes "GET" ∷ codes "POST" ∷ codes "HEAD" ∷ codes "PUT" ∷ codes "PATCH" ∷ codes "DELETE" ∷ []

abbrev pub dispatch : ClientMetadata → ℕ → Bytes → Uri → Served
dispatch md bodylen rest uri =
    if is_one_of uri.scheme (codes "tcp" ∷ codes "tls" ∷ [])
    then to_tcp uri md bodylen rest
    else if is_one_of uri.scheme (codes "ws" ∷ codes "wss" ∷ [])
    then to_websocket md bodylen rest
    else if is_one_of uri.scheme (codes "http" ∷ codes "https" ∷ [])
    then if is_one_of md.method methods
      then to_unary md bodylen rest
      else says 400 method_not_supported
    else says 400 scheme_not_supported

-- What `hookURL.Hook` makes of the url; `print` is `uri.String()`.
abbrev pub on_hooked : (Uri → Bytes) → ClientMetadata → ℕ → Bytes → Option Uri → Served
on_hooked print md bodylen rest none = says 400 url_refused
on_hooked print md bodylen rest (some uri) =
    dispatch (record md { url = print uri }) bodylen rest uri

abbrev pub on_uri :
    Option (Uri → Option Uri) → (Uri → Bytes) → ClientMetadata → ℕ → Bytes → Option Uri → Served
on_uri hook print md bodylen rest none = says 400 url_invalid
on_uri none print md bodylen rest (some uri) = dispatch md bodylen rest uri
on_uri (some hook) print md bodylen rest (some uri) = on_hooked print md bodylen rest (hook uri)

-- What the handler uses of other packages: `json.Unmarshal` of a `ClientMetadata`,
-- `textproto.CanonicalMIMEHeaderKey`, `url.Parse` and `uri.String()`; and the server's hook.
module _ (decode : Bytes → Option ClientMetadata) (canonical : Bytes → Bytes)
    (parse : Bytes → Option Uri) (print : Uri → Bytes) (hook : Option (Uri → Option Uri)) where
  abbrev pub on_metadata : ℕ → Bytes → Option ClientMetadata → Served
  on_metadata bodylen rest none = says 400 metadata_invalid
  on_metadata bodylen rest (some md) =
      if ltb max_int64 bodylen
      then says 400 bodylen_too_large
      else on_uri hook print md bodylen rest (parse md.url)

  abbrev pub on_metadata_bytes : ℕ → ReadFull → Served
  on_metadata_bytes bodylen (cut e) = quits
  on_metadata_bytes bodylen (full b rest) =
      on_metadata bodylen rest (unmarshal canonical (decode b))

  abbrev pub on_head : ReadFull → Served
  on_head (cut e) = quits
  on_head (full b rest) = on_metadata_bytes (uint (drop 2 b)) (read_full (uint (take 2 b)) rest)

  -- `Serve`
  unfoldable pub serve : Bytes → Served
  serve input = on_head (read_full 10 input)

-- What `sendOk` and `sendText` write, if the channel has not ended: `status`, the header and the
-- body, with `json.Encode` of the metadata.
abbrev pub message : (ServerMetadata → Bytes) → ServerMetadata → ℕ → Bytes → Bytes
message encode md bodylen body = head (length (encode md)) bodylen ++ (encode md ++ body)

unfoldable pub send_ok : (ServerMetadata → Bytes) → Bool → ServerMetadata → ℕ → Bytes → Bytes
send_ok encode ended md bodylen body =
    if ended then [] else message encode md bodylen (if bodylen == 0 then [] else body)

abbrev pub text_metadata : ℕ → ServerMetadata
text_metadata status = record {
  status = status;
  header = (codes "Content-Type", codes "text/plain; charset=utf-8" ∷ []) ∷ [];
}

unfoldable pub send_text : (ServerMetadata → Bytes) → Bool → ℕ → Bytes → Bytes
send_text encode ended status text =
    if ended then [] else message encode (text_metadata status) (length text) text

-- What the server answers: with a text, or with `sendOk` of a status, a header, a body and its
-- length.
pub data Reply : Type 0 where
  text : ℕ → Reason → Reply
  ok : ServerMetadata → ℕ → Bytes → Reply

abbrev pub switching : Reply
switching = ok (record { status = 101; header = [] }) 0 []

-- `tcp` and `websocket`, up to the relay; `dials` tells if the other side could be dialled.
unfoldable pub open_tunnel : Bool → ℕ → Reply
open_tunnel dials bodylen =
    if bodylen == 0
    then if dials then switching else text 502 dial_failed
    else text 400 bodylen_invalid

-- The headers of the request to the backend; `lower` is `strings.ToLower`.
abbrev pub dropped : List Bytes
dropped = codes "connection" ∷ codes "content-length" ∷ []

unfoldable pub copy_header : (Bytes → Bytes) → Header → Header → Header
copy_header lower [] out = out
copy_header lower ((k, v) ∷ h) out =
    copy_header lower h (if is_one_of (lower k) dropped then out else set_header k v out)

abbrev pub content_type : Bytes
content_type = codes "Content-Type"

abbrev pub form : Bytes
form = codes "application/x-www-form-urlencoded"

unfoldable pub request_header : (Bytes → Bytes) → Header → ℕ → Header
request_header lower h bodylen =
    let out = copy_header lower h [] in
    if ltb 0 bodylen && bytes_eq (get_header content_type out) []
    then set_header content_type (form ∷ []) out
    else out

-- The request to the backend, and its response: the body, and if it is read without an error.
pub record BackendRequest : Type 0 where
  pub method : Bytes
  pub url : Bytes
  pub header : Header
  pub body : Bytes

pub record BackendResponse : Type 0 where
  pub status : ℕ
  pub header : Header
  pub body : Bytes
  pub readable : Bool

abbrev pub content_length : Bytes
content_length = codes "Content-Length"

abbrev pub max_unsized : ℕ
max_unsized = 32768

abbrev pub metadata_of : BackendResponse → ServerMetadata
metadata_of r = record { status = r.status; header = r.header }

-- A response without a length is read up to 32 KiB, which it must not reach.
unfoldable pub send_unsized : BackendResponse → Reply
send_unsized r =
    if r.readable
    then if length (take max_unsized r.body) == max_unsized
      then text 502 length_not_set
      else ok (metadata_of r) (length r.body) r.body
    else text 502 body_not_read

abbrev pub send_sized : BackendResponse → Option ℕ → Reply
send_sized r none = text 502 length_invalid
send_sized r (some n) =
    if ltb max_int64 n then text 502 length_too_large else ok (metadata_of r) n r.body

-- The response of the backend, with `strconv.ParseUint`.
unfoldable pub forward : (Bytes → Option ℕ) → BackendResponse → Reply
forward parse_uint r =
    let s = get_header content_length r.header in
    if bytes_eq s [] then send_unsized r else send_sized r (parse_uint s)

abbrev pub on_response : (Bytes → Option ℕ) → Option BackendResponse → Reply
on_response parse_uint none = text 502 request_failed
on_response parse_uint (some r) = forward parse_uint r

-- `unary`, on a channel that has `rest`; `valid` is what `http.NewRequestWithContext` accepts, and
-- `backend` what `Do` returns.
abbrev pub backend_request : (Bytes → Bytes) → ClientMetadata → ℕ → Bytes → BackendRequest
backend_request lower md bodylen rest = record {
  method = md.method;
  url = md.url;
  header = request_header lower md.header bodylen;
  body = take bodylen rest;
}

unfoldable pub unary :
    (Bytes → Bytes)
    → (Bytes → Option ℕ)
    → (ClientMetadata → Bool)
    → (BackendRequest → Option BackendResponse)
    → ClientMetadata
    → ℕ
    → Bytes
    → Reply
unary lower parse_uint valid backend md bodylen rest =
    if valid md
    then on_response parse_uint (backend (backend_request lower md bodylen rest))
    else text 400 request_invalid

-- What is written on the channel; `say` gives the texts.
unfoldable pub reply_bytes : (ServerMetadata → Bytes) → (Reason → Bytes) → Bool → Reply → Bytes
reply_bytes encode say ended (text status why) = send_text encode ended status (say why)
reply_bytes encode say ended (ok md bodylen body) = send_ok encode ended md bodylen body

-- The first that the server writes on a channel where the bytes `input` arrive, for a handler whose
-- serving of the input is `served`.
unfoldable pub respond :
    (ServerMetadata → Bytes)
    → (Reason → Bytes)
    → Bool
    → Bool
    → (ClientMetadata → ℕ → Bytes → Reply)
    → Served
    → Bytes
respond encode say ended dials run quits = []
respond encode say ended dials run (says status why) =
    reply_bytes encode say ended (text status why)
respond encode say ended dials run (to_tcp uri md n rest) =
    reply_bytes encode say ended (open_tunnel dials n)
respond encode say ended dials run (to_websocket md n rest) =
    reply_bytes encode say ended (open_tunnel dials n)
respond encode say ended dials run (to_unary md n rest) =
    reply_bytes encode say ended (run md n rest)
