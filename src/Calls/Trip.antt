-- ===== src/Calls/Trip.antt =====
-- A call from the client over the server to a backend and back.
use httpadapter.Common.{
  ℕ, ◌≤◌, ◌<◌, ◌≡◌, refl, ap, ap₂, ◌∙◌, Bool, true, false, Option, none, some, [], ◌∷◌, ◌++◌,
  append_assoc, arith, ◌==◌, if◌then◌else◌, ne→==, le→ltb, length, take_all,
}
use httpadapter.Common.Bytes.{Bytes}
use httpadapter.Common.Io.{Go, returns, ◌>>=◌}
use httpadapter.Calls.{
  ClientMetadata, ServerMetadata, Uri, max_int64, head, unmarshal, canonical_keys, keys,
}
use httpadapter.Calls.Client.{
  CallError, Called, answered, failed, metalen_invalid, metadata_invalid, Fate, MessageRequest,
  request, sent, sent_after, copy_body, check, check_url, check_call, with_body, without_body,
  canonical_header, body_of, on_server_metadata, on_lengths, on_metadata_bytes, read_response, call,
  metadata_of, copied, check_call, on_request, checked,
}
use httpadapter.Calls.Client
use httpadapter.Calls.Handler
use httpadapter.Calls.Handler.{
  unary, serve, dispatch, on_metadata, on_uri, to_unary, BackendRequest, BackendResponse, Reply, ok,
  Reason, message, methods, content_length, max_unsized, backend_request, forward, on_response,
  respond, reply_bytes, send_ok,
}
use httpadapter.Calls.Reply.{reply_read}
use httpadapter.Calls.Layout.{request_read}
use httpadapter.Calls.Passing.{IsSized, check_pass, dispatch_http, forward_sized}

pub request_fits :
    (md : Bytes) (n : ℕ) → length md ≤ 65535 → request md n ≡ some (head (length md) n ++ md)
unfolding request
request_fits md n fits = rw (le→ltb 65535 (length md) fits) refl

copies_all :
    (body : Bytes) → length body ≤ max_int64 → copy_body (some body) (length body) ≡ returns body
unfolding copy_body
copies_all [] small = refl
copies_all (x ∷ body) small =
    rw (ne→== (length (x ∷ body)) 0 (omega arith), le→ltb max_int64 (length (x ∷ body)) small)
      (ap returns (take_all (length (x ∷ body)) (x ∷ body) (omega arith)))

-- A channel that lasts for the call.
abbrev pub lasting : Bytes → Fate
lasting input = record {
  connects = true;
  writes = true;
  copies = true;
  arrives = input;
  cancels = false;
}

unary_lasts :
    (decode : Bytes → Option ServerMetadata) (canonical : Bytes → Bytes) (md body input : Bytes)
    → length md ≤ 65535
    → length body ≤ max_int64
    → Client.unary decode canonical (some body) (length body) (some md) (lasting input)
      ≡ returns (read_response decode canonical input)
unfolding Client.unary
unary_lasts decode canonical md body input fits small =
    ap (on_request decode canonical (some body) (length body) (lasting input))
      (request_fits md (length body) fits)
    ∙ ap
        (λ (x : Go Bytes).
          (x >>= λ bs. returns (read_response decode canonical input)) >>= λ r. returns r)
        (copies_all body small)

body_sent : (b : Bytes) → (if length b == 0 then [] else b) ≡ b
body_sent [] = refl
body_sent (x ∷ b) = rw (ne→== (length (x ∷ b)) 0 (omega arith)) refl

sent_bytes :
    (md body : Bytes)
    → length md ≤ 65535
    → length body ≤ max_int64
    → sent (some body) (length body) md ≡ head (length md) (length body) ++ (md ++ body)
unfolding sent
sent_bytes md body fits small =
    ap (sent_after (some body) (length body)) (request_fits md (length body) fits)
    ∙ ap (λ x. (head (length md) (length body) ++ md) ++ copied x) (copies_all body small)
    ∙ append_assoc (head (length md) (length body)) md body

-- What the client uses of other packages and what the server does.
module _ (decode_reply : Bytes → Option ServerMetadata) (encode_reply : ServerMetadata → Bytes)
    (decode : Bytes → Option ClientMetadata) (encode : ClientMetadata → Option Bytes)
    (canonical lower : Bytes → Bytes) (parse : Bytes → Option Uri) (print : Uri → Bytes)
    (parse_uint : Bytes → Option ℕ) (valid : ClientMetadata → Bool) (say : Reason → Bytes)
    (backend : BackendRequest → Option BackendResponse) where
  -- What a server without a hook answers to what arrives on a channel.
  abbrev pub answer : Bytes → Bytes
  answer input =
      respond encode_reply say false true (unary lower parse_uint valid backend)
        (serve decode canonical parse print none input)

  -- The metadata as the server passes them on.
  abbrev pub served_metadata : MessageRequest → ClientMetadata
  served_metadata req = record (metadata_of req) {
    header = canonical_keys canonical (keys req.header) req.header;
  }

  served :
      (req : MessageRequest) (uri : Uri) (md body : Bytes)
      → check parse req ≡ none
      → parse req.url ≡ some uri
      → length md ≤ 65535
      → length body ≤ max_int64
      → decode md ≡ some (metadata_of req)
      → serve decode canonical parse print none (sent (some body) (length body) md)
        ≡ to_unary (served_metadata req) (length body) body
  unfolding unmarshal
  served req uri md body passes parsed fits small known =
      let n = length body in
      let (scheme, method) = check_pass parse req uri passes parsed in
      ap (serve decode canonical parse print none) (sent_bytes md body fits small)
      ∙ request_read decode canonical parse print none md n body fits small
      ∙ ap (λ m. on_metadata decode canonical parse print none n body (unmarshal canonical m)) known
      ∙ rw (le→ltb max_int64 n small) refl
      ∙ ap (on_uri none print (served_metadata req) n body) parsed
      ∙ dispatch_http (served_metadata req) n body uri scheme method

  answer_unary :
      (req : MessageRequest) (uri : Uri) (md body : Bytes) (r : BackendResponse)
      → check parse req ≡ none
      → parse req.url ≡ some uri
      → length md ≤ 65535
      → length body ≤ max_int64
      → decode md ≡ some (metadata_of req)
      → valid (served_metadata req) ≡ true
      → backend (backend_request lower (served_metadata req) (length body) body) ≡ some r
      → IsSized parse_uint r
      → answer (sent (some body) (length body) md)
        ≡ message encode_reply (Handler.metadata_of r) (length r.body) r.body
  unfolding respond unary reply_bytes send_ok
  answer_unary req uri md body r passes parsed fits small known is_valid responds sized =
      let n = length body in
      ap (respond encode_reply say false true (unary lower parse_uint valid backend))
        (served req uri md body passes parsed fits small known)
      ∙ rw is_valid refl
      ∙ ap (λ x. reply_bytes encode_reply say false (on_response parse_uint x)) responds
      ∙ ap (reply_bytes encode_reply say false) (forward_sized parse_uint r sized).0
      ∙ ap (message encode_reply (Handler.metadata_of r) (length r.body)) (body_sent r.body)

  -- A call reaches the backend and its response the client, over a server without a hook. If `Unary`
  -- does not refuse the call, its metadata fit and both sides decode what the other encoded, the
  -- request is valid, and the backend answers the request that is made of the metadata and the whole
  -- body with a body whose length the server knows, on a channel that lasts, then the call returns
  -- the status and the header of the backend, its keys canonical, and the body is what remains to be
  -- read.
  pub call_through :
      (req : MessageRequest) (uri : Uri) (md body : Bytes) (r : BackendResponse)
      → check parse req ≡ none
      → parse req.url ≡ some uri
      → req.body ≡ some body
      → req.body_len ≡ length body
      → length body ≤ max_int64
      → encode (metadata_of req) ≡ some md
      → length md ≤ 65535
      → decode md ≡ some (metadata_of req)
      → valid (served_metadata req) ≡ true
      → backend (backend_request lower (served_metadata req) (length body) body) ≡ some r
      → IsSized parse_uint r
      → 0 < length (encode_reply (Handler.metadata_of r))
      → length (encode_reply (Handler.metadata_of r)) ≤ 65535
      → decode_reply (encode_reply (Handler.metadata_of r)) ≡ some (Handler.metadata_of r)
      → call decode_reply canonical parse encode req
          (lasting (answer (sent req.body req.body_len md)))
        ≡ returns (
            answered
              (record {
                status = r.status;
                header = canonical_header canonical r.header [];
                body = body_of (length r.body);
                body_len = length r.body;
              })
              r.body)
  unfolding call
  call_through req uri md body r passes parsed has_body has_len small encodes fits known is_valid
        responds sized some_reply reply_fits reply_known =
      let reply = answer (sent (some body) (length body) md) in
      ap
        (checked decode_reply canonical req (encode (metadata_of req))
          (lasting (answer (sent req.body req.body_len md))))
        passes
      ∙ ap
          (λ x.
            Client.unary decode_reply canonical req.body req.body_len x
              (lasting (answer (sent req.body req.body_len md))))
          encodes
      ∙ ap₂
          (λ (b : Option Bytes) (n : ℕ).
            Client.unary decode_reply canonical b n (some md) (lasting (answer (sent b n md))))
          has_body has_len
      ∙ unary_lasts decode_reply canonical md body reply fits small
      ∙ ap (λ x. returns (read_response decode_reply canonical x))
          (answer_unary req uri md body r passes parsed fits small known is_valid responds sized)
      ∙ ap returns (
          reply_read decode_reply canonical encode_reply (Handler.metadata_of r) (length r.body)
            r.body some_reply reply_fits (forward_sized parse_uint r sized).1 reply_known)
