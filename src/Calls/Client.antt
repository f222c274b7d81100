-- ===== src/Calls/Client.antt =====
-- client_unary.go: `Unary` and `unary`.
use httpadapter.Common.{
  ℕ, Bool, not, ◌&&◌, ◌||◌, Option, none, some, List, [], ◌∷◌, ◌++◌, ltb, ◌==◌, if◌then◌else◌,
  length, take, drop,
}
use httpadapter.Common.Bytes.{Bytes, codes, uint, bytes_eq}
use httpadapter.Common.Io.{IoError, ReadFull, full, cut, read_full, Go, returns, panics, ◌>>=◌}
use httpadapter.Core.Hello.{max_uint16}
use httpadapter.Calls.{
  Header, ClientMetadata, ServerMetadata, Uri, max_int64, head, is_one_of, set_header,
}

pub data CallError : Type 0 where
  url_invalid url_not_supported method_not_supported body_too_long : CallError
  not_encoded metadata_too_long not_connected cancelled : CallError
  not_written not_copied : CallError
  not_read : IoError → CallError
  metalen_invalid bodylen_invalid metadata_invalid : CallError

-- The first message: head and metadata.
unfoldable pub request : Bytes → ℕ → Option Bytes
request md bodylen =
    if ltb max_uint16 (length md) then none else some (head (length md) bodylen ++ md)

-- The body of a response: `nilReadCloser`, or a `readCloser` on the channel that ends after some
-- bytes.
pub data Body : Type 0 where
  nil_body : Body
  channel_body : ℕ → Body

-- `MessageResponse`
pub record Response : Type 0 where
  pub status : ℕ
  pub header : Header
  pub body : Body
  pub body_len : ℕ

-- What the call leaves: the response and what is still to be read on the channel, or the error.
pub data Called : Type 0 where
  failed : CallError → Called
  answered : Response → Bytes → Called

-- How the channel fares: if `DialContext` gives one, if it takes the first message and then the
-- body, and what arrives on it; and if the context ends before the call does.
pub record Fate : Type 0 where
  pub connects : Bool
  pub writes : Bool
  pub copies : Bool
  pub arrives : Bytes
  pub cancels : Bool

-- `MessageRequest`; a nil body is `none`.
pub record MessageRequest : Type 0 where
  pub url : Bytes
  pub method : Bytes
  pub header : Header
  pub body : Option Bytes
  pub body_len : ℕ

abbrev pub with_body : List Bytes
with_body = codes "POST" ∷ codes "PUT" ∷ codes "PATCH" ∷ []

abbrev pub without_body : List Bytes
without_body = codes "GET" ∷ codes "HEAD" ∷ codes "DELETE" ∷ []

abbrev pub metadata_of : MessageRequest → ClientMetadata
metadata_of req = record { url = req.url; method = req.method; header = req.header }

-- The length of the body that `Unary` checks.
abbrev pub checked_len : MessageRequest → ℕ
checked_len req =
    if is_one_of req.method with_body
    then (elim req.body [ none ↦ 0 | some b ↦ req.body_len ])
    else 0

abbrev pub check_call : MessageRequest → Option CallError
check_call req =
    if is_one_of req.method with_body || is_one_of req.method without_body
    then if ltb max_int64 (checked_len req) then some body_too_long else none
    else some method_not_supported

abbrev pub check_url : MessageRequest → Option Uri → Option CallError
check_url req none = some url_invalid
check_url req (some uri) =
    if is_one_of uri.scheme (codes "http" ∷ codes "https" ∷ []) && not (bytes_eq uri.host [])
    then check_call req
    else some url_not_supported

-- What `Unary` refuses.
unfoldable pub check : (Bytes → Option Uri) → MessageRequest → Option CallError
check parse req = check_url req (parse req.url)

-- `io.Copy` of `io.LimitReader(body, int64(bodylen))`: what it writes. To read a nil body panics; a
-- length above the 63 bits is negative.
unfoldable pub copy_body : Option Bytes → ℕ → Go Bytes
copy_body body bodylen =
    if bodylen == 0 || ltb max_int64 bodylen
    then returns []
    else (elim body [ none ↦ panics | some b ↦ returns (take bodylen b) ])

abbrev pub copied : Go Bytes → Bytes
copied (returns bs) = bs
copied panics = []

abbrev pub sent_after : Option Bytes → ℕ → Option Bytes → Bytes
sent_after body bodylen none = []
sent_after body bodylen (some first) = first ++ copied (copy_body body bodylen)

-- What `unary` writes on a channel that takes all of it.
unfoldable pub sent : Option Bytes → ℕ → Bytes → Bytes
sent body bodylen md = sent_after body bodylen (request md bodylen)

-- The loop that fills the header of the response, where `canonical` is
-- `textproto.CanonicalMIMEHeaderKey`.
unfoldable pub canonical_header : (Bytes → Bytes) → Header → Header → Header
canonical_header canonical [] header = header
canonical_header canonical ((k, v) ∷ h) header =
    canonical_header canonical h (set_header (canonical k) v header)

abbrev pub body_of : ℕ → Body
body_of bodylen = if bodylen == 0 then nil_body else channel_body bodylen

-- What is used of other packages: `json.Unmarshal` of a `ServerMetadata` and
-- `textproto.CanonicalMIMEHeaderKey`.
module _ (decode : Bytes → Option ServerMetadata) (canonical : Bytes → Bytes) where
  abbrev pub on_server_metadata : ℕ → Bytes → Option ServerMetadata → Called
  on_server_metadata bodylen rest none = failed metadata_invalid
  on_server_metadata bodylen rest (some md) =
      answered
        (record {
          status = md.status;
          header = canonical_header canonical md.header [];
          body = body_of bodylen;
          body_len = bodylen;
        })
        rest

  abbrev pub on_metadata_bytes : ℕ → ReadFull → Called
  on_metadata_bytes bodylen (cut e) = failed (not_read e)
  on_metadata_bytes bodylen (full b rest) = on_server_metadata bodylen rest (decode b)

  abbrev pub on_lengths : ℕ → ℕ → Bytes → Called
  on_lengths metalen bodylen rest =
      if metalen == 0
      then failed metalen_invalid
      else if ltb max_int64 bodylen
      then failed bodylen_invalid
      else on_metadata_bytes bodylen (read_full metalen rest)

  abbrev pub on_head : ReadFull → Called
  on_head (cut e) = failed (not_read e)
  on_head (full b rest) = on_lengths (uint (take 2 b)) (uint (drop 2 b)) rest

  -- The reading of the response.
  unfoldable pub read_response : Bytes → Called
  read_response input = on_head (read_full 10 input)

  -- The goroutine of `unary`.
  abbrev pub exchange : Option Bytes → ℕ → Fate → Go Called
  exchange body bodylen f =
      if not f.writes
      then returns (failed not_written)
      else copy_body body bodylen >>= λ bs.
          returns
            (if not f.copies && ltb 0 bodylen then failed not_copied else read_response f.arrives)

  abbrev pub on_request : Option Bytes → ℕ → Fate → Option Bytes → Go Called
  on_request body bodylen f none = returns (failed metadata_too_long)
  on_request body bodylen f (some first) =
      if f.connects
      then (exchange body bodylen f >>= λ r. returns (if f.cancels then failed cancelled else r))
      else returns (failed not_connected)

  -- `unary`, with what `json.Encode` makes of the metadata.
  unfoldable pub unary : Option Bytes → ℕ → Option Bytes → Fate → Go Called
  unary body bodylen none f = returns (failed not_encoded)
  unary body bodylen (some md) f = on_request body bodylen f (request md bodylen)

  abbrev pub checked : MessageRequest → Option Bytes → Fate → Option CallError → Go Called
  checked req md f (some e) = returns (failed e)
  checked req md f none = unary req.body req.body_len md f

  -- `Unary`, with what `url.Parse` makes of the url and `json.Encode` of the metadata. No response
  -- has a nil body.
  unfoldable pub call :
      (Bytes → Option Uri) → (ClientMetadata → Option Bytes) → MessageRequest → Fate → Go Called
  call parse encode req f = checked req (encode (metadata_of req)) f (check parse req)
