-- ===== src/Calls/Tests.antt =====
-- Calls with small metadata.
use httpadapter.Common.{
  ℕ, ◌+◌, ◌≤◌, ◌<◌, ◌≡◌, refl, inr, Bool, true, false, Option, none, some, [], ◌∷◌, ◌++◌, arith,
  ◌==◌, if◌then◌else◌, ne→==, length, take, length-take, replicate, length-replicate,
}
use httpadapter.Common.Bytes.{Bytes, codes, bytes_eq, uint}
use httpadapter.Common.Io.{Go, returns, panics, read_full}
use httpadapter.Calls.{
  ClientMetadata, ServerMetadata, Uri, max_int64, unmarshal, canonical_keys, get_header,
}
use httpadapter.Calls.Client.{
  CallError, answered, failed, MessageRequest, check, sent, call, read_response, canonical_header,
  body_of, metadata_of,
}
use httpadapter.Calls.Handler.{
  BackendRequest, BackendResponse, Reason, dial_failed, Reply, text, text_metadata, serve, to_unary,
  message,
}
use httpadapter.Calls.Trip.{lasting, answer, call_through}
use httpadapter.Calls.Tunnel.{
  tcp, check_tunnel, Opened, no_text, tunnel, tunnel_metadata, open_tunnel,
}
use httpadapter.Calls.Tunnel.Opening.{switching_metadata, tunnel_answer, tunnel_opens}
use httpadapter.Calls.Reply.{long_metadata_fails}
use httpadapter.Calls.Guards.{HookedUrl, IsMessage, only_allowed_requests}
use httpadapter.Calls.NilBody.{nil_body_panics}

abbrev site : Uri
site = record { scheme = codes "http"; host = codes "a"; port = [] }

abbrev parse : Bytes → Option Uri
parse b = some site

abbrev print : Uri → Bytes
print uri = codes "http://a"

abbrev same : Bytes → Bytes
same b = b

abbrev post : MessageRequest
post = record {
  url = codes "http://a";
  method = codes "POST";
  header = [];
  body = some (7 ∷ 8 ∷ []);
  body_len = 2;
}

abbrev post_nil : MessageRequest
post_nil = record post { body = none }

abbrev encode : ClientMetadata → Option Bytes
encode md = some (1 ∷ 2 ∷ 3 ∷ [])

abbrev decode : Bytes → Option ClientMetadata
decode b = some (metadata_of post)

abbrev response : BackendResponse
response = record { status = 200; header = []; body = 4 ∷ 5 ∷ 6 ∷ []; readable = true }

abbrev ok_metadata : ServerMetadata
ok_metadata = record { status = 200; header = [] }

abbrev encode_reply : ServerMetadata → Bytes
encode_reply md = 9 ∷ []

abbrev decode_reply : Bytes → Option ServerMetadata
decode_reply b = some ok_metadata

abbrev no_number : Bytes → Option ℕ
no_number b = none

abbrev all_valid : ClientMetadata → Bool
all_valid md = true

abbrev silent : Reason → Bytes
silent why = []

abbrev backend : BackendRequest → Option BackendResponse
backend r = some response

post_passes : check parse post ≡ none
unfolding check bytes_eq
post_passes = refl

call_through_example :
    call decode_reply same parse encode post (
      lasting (
        answer decode_reply encode_reply decode encode same same parse print no_number all_valid
          silent backend
          (sent (some (7 ∷ 8 ∷ [])) 2 (1 ∷ 2 ∷ 3 ∷ []))))
    ≡ returns (
        answered
          (record {
            status = 200;
            header = canonical_header same [] [];
            body = body_of 3;
            body_len = 3;
          })
          (4 ∷ 5 ∷ 6 ∷ []))
unfolding get_header bytes_eq canonical_keys
call_through_example =
    call_through decode_reply encode_reply decode encode same same parse print no_number all_valid
      silent backend post site (1 ∷ 2 ∷ 3 ∷ []) (7 ∷ 8 ∷ []) response post_passes refl refl refl
      (omega arith) refl (omega arith) refl refl refl (inr (refl, refl, omega arith)) (omega arith)
      (omega arith) refl

post_nil_passes : check parse post_nil ≡ none
unfolding check bytes_eq
post_nil_passes = refl

nil_body_panics_example : call decode_reply same parse encode post_nil (lasting []) ≡ panics
nil_body_panics_example =
    nil_body_panics decode_reply same parse encode post_nil (1 ∷ 2 ∷ 3 ∷ []) (lasting [])
      post_nil_passes refl (omega arith) (omega arith) refl (omega arith) refl refl

abbrev long_reply : ServerMetadata → Bytes
long_reply md = replicate 65540 1

abbrev decode_long : Bytes → Option ServerMetadata
decode_long b = if length b == 65540 then some ok_metadata else none

long_length : length (long_reply ok_metadata) ≡ 65540
long_length = length-replicate {A = ℕ} 65540 1

part_refused : (b : Bytes) → length b < 65540 → decode_long b ≡ none
part_refused b less = rw (ne→== (length b) 65540 (omega arith)) refl

parts_refused :
    (k : ℕ)
    → k + 1 < length (long_reply ok_metadata)
    → decode_long (take k (long_reply ok_metadata)) ≡ none
parts_refused k less =
    part_refused (take k (long_reply ok_metadata))
      (omega (arith, long_length, length-take k (long_reply ok_metadata)))

long_metadata_fails_example :
    (e : CallError) × (read_response decode_long same (message long_reply ok_metadata 0 [])
      ≡ failed e)
long_metadata_fails_example =
    long_metadata_fails decode_long same long_reply ok_metadata 0 [] (omega (arith, long_length))
      (omega arith) parts_refused

-- A head for three bytes of metadata and two of body.
abbrev arrived : Bytes
arrived = 0 ∷ 3 ∷ 0 ∷ 0 ∷ 0 ∷ 0 ∷ 0 ∷ 0 ∷ 0 ∷ 2 ∷ 1 ∷ 2 ∷ 3 ∷ 7 ∷ 8 ∷ []

abbrev allow : Uri → Option Uri
allow uri = some uri

arrived_serves :
    serve decode same parse print (some allow) arrived ≡ to_unary (metadata_of post) 2 (7 ∷ 8 ∷ [])
unfolding serve read_full uint unmarshal canonical_keys bytes_eq
arrived_serves = refl

only_allowed_requests_example :
    (h : Bytes) × (b : Bytes) × (before : ClientMetadata) × (asked : Uri) × (allowed : Uri)
    × IsMessage arrived h b 2 (7 ∷ 8 ∷ [])
    × (unmarshal same (decode b) ≡ some before)
    × HookedUrl decode same parse print allow before (metadata_of post) asked allowed
    × (2 ≤ max_int64)
only_allowed_requests_example =
    only_allowed_requests decode same parse print allow arrived (7 ∷ 8 ∷ []) (metadata_of post) 2
      arrived_serves

abbrev tcp_site : Uri
tcp_site = record { scheme = codes "tcp"; host = codes "a"; port = codes "1" }

abbrev tcp_url : Bytes → Option Uri
tcp_url b = some tcp_site

abbrev decode_connect : Bytes → Option ClientMetadata
decode_connect b = some (tunnel_metadata (codes "tcp://a:1") [])

-- The number of the status in one byte.
abbrev status_byte : ServerMetadata → Bytes
status_byte md = md.status ∷ []

abbrev text_of : ServerMetadata → Bytes → Option ServerMetadata
text_of other [] = none
text_of other (x ∷ b) = if x == 101 then some switching_metadata else some other

abbrev from_status_byte : Bytes → Option ServerMetadata
from_status_byte = text_of (text_metadata 502)

abbrev no_run : ClientMetadata → ℕ → Bytes → Reply
no_run md n rest = text 400 dial_failed

connect_passes : check_tunnel tcp (tcp_url (codes "tcp://a:1")) ≡ none
unfolding bytes_eq
connect_passes = refl

abbrev connect : Bytes → Go Opened
connect input =
    open_tunnel from_status_byte same tcp tcp_url encode (codes "tcp://a:1") [] (lasting input)

abbrev answers : Bool → Bytes → Bytes
answers dials input =
    tunnel_answer from_status_byte status_byte decode_connect encode same tcp_url print silent
      no_run dials input

tunnel_opens_example :
    (connect (answers true (sent none 0 (1 ∷ 2 ∷ 3 ∷ [])) ++ (5 ∷ 6 ∷ []))
      ≡ returns (tunnel (5 ∷ 6 ∷ [])))
    × (connect (answers false (sent none 0 (1 ∷ 2 ∷ 3 ∷ []))) ≡ returns no_text)
tunnel_opens_example =
    tunnel_opens from_status_byte status_byte decode_connect encode same tcp_url print silent no_run
      tcp (codes "tcp://a:1") [] tcp_site (1 ∷ 2 ∷ 3 ∷ []) (5 ∷ 6 ∷ []) connect_passes refl refl
      (omega arith) refl (omega arith, omega arith, refl) (omega arith, omega arith, refl)
      (omega arith)
