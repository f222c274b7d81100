-- ===== src/Calls/Tunnel/Opening.antt =====
-- A tunnel over the server.
use httpadapter.Common.{
  ℕ, ◌≤◌, ◌<◌, ◌≡◌, refl, sym, ap, ◌∙◌, inl, inr, Bool, true, false, ◌&&◌, Option, none, some, [],
  ◌∷◌, ◌++◌, append_assoc, arith, if◌then◌else◌, ne→==, Bool-cases, length, take_all,
}
use httpadapter.Common.Bytes.{Bytes}
use httpadapter.Common.Io.{returns, ◌>>=◌}
use httpadapter.Calls.{
  Header, ClientMetadata, ServerMetadata, Uri, max_int64, head, is_one_of, unmarshal,
  canonical_keys, keys,
}
use httpadapter.Calls.Client
use httpadapter.Calls.Client.{
  CallError, Called, answered, Fate, request, sent, sent_after, copy_body, canonical_header,
  body_of, on_request, read_response,
}
use httpadapter.Calls.Handler
use httpadapter.Calls.Handler.{
  Reason, dial_failed, Reply, ok, switching, message, text_metadata, on_metadata, on_uri, dispatch,
  serve, respond, reply_bytes, send_ok, send_text,
}
use httpadapter.Calls.Layout.{request_read}
use httpadapter.Calls.Passing.{first_of_both}
use httpadapter.Calls.Trip.{lasting, request_fits}
use httpadapter.Calls.Reply.{reply_read}
use httpadapter.Calls.Tunnel.{
  Kind, tcp, websocket, schemes, is_complete, check_tunnel, tunnel, body_bytes, error_text,
  on_called, tunnel_metadata, checked_tunnel, open_tunnel,
}

-- The server serves both kinds alike up to the relay.
tunnel_served :
    (encode : ServerMetadata → Bytes) (say : Reason → Bytes) (dials : Bool)
    (run : ClientMetadata → ℕ → Bytes → Reply) (kind : Kind) (md : ClientMetadata) (n : ℕ)
    (rest : Bytes) (uri : Uri)
    → is_one_of uri.scheme (schemes kind) ≡ true
    → respond encode say false dials run (dispatch md n rest uri)
      ≡ reply_bytes encode say false (Handler.open_tunnel dials n)
unfolding respond
tunnel_served encode say dials run tcp md n rest uri scheme = rw scheme refl
tunnel_served encode say dials run websocket md n rest uri scheme =
    elim (Bool-cases (is_one_of uri.scheme (schemes tcp))) [
      | inl e ↦ rw e refl
      | inr e ↦ rw (e, scheme) refl
    ]

sent_alone : (md : Bytes) → length md ≤ 65535 → sent none 0 md ≡ head (length md) 0 ++ (md ++ [])
unfolding sent copy_body
sent_alone md fits =
    ap (sent_after none 0) (request_fits md 0 fits) ∙ append_assoc (head (length md) 0) md []

exchanged :
    (decode : Bytes → Option ServerMetadata) (canonical : Bytes → Bytes) (md input : Bytes)
    → length md ≤ 65535
    → Client.unary decode canonical none 0 (some md) (lasting input)
      ≡ returns (read_response decode canonical input)
unfolding Client.unary copy_body
exchanged decode canonical md input fits =
    ap (on_request decode canonical none 0 (lasting input)) (request_fits md 0 fits)

passed_test : (b : Bool) (e : CallError) → (if b then none else some e) ≡ none → b ≡ true
passed_test b e h = ground arith

check_tunnel_pass :
    (kind : Kind) (parse : Bytes → Option Uri) (url : Bytes) (uri : Uri)
    → check_tunnel kind (parse url) ≡ none
    → parse url ≡ some uri
    → is_one_of uri.scheme (schemes kind) ≡ true
check_tunnel_pass kind parse url uri e p =
    let f = sym (ap (check_tunnel kind) p) ∙ e in
    let g = passed_test (is_one_of uri.scheme (schemes kind) && is_complete kind uri) _ f in
    first_of_both _ _ g

text_whole : (b : Bytes) → body_bytes (body_of (length b)) b ≡ b
text_whole [] = refl
text_whole (x ∷ b) =
    rw (ne→== (length (x ∷ b)) 0 (omega arith)) (take_all (length (x ∷ b)) (x ∷ b) (omega arith))

-- The two answers of the server.
abbrev pub switching_metadata : ServerMetadata
switching_metadata = record { status = 101; header = [] }

module _ (decode_reply : Bytes → Option ServerMetadata) (encode_reply : ServerMetadata → Bytes)
    (decode : Bytes → Option ClientMetadata) (encode : ClientMetadata → Option Bytes)
    (canonical : Bytes → Bytes) (parse : Bytes → Option Uri) (print : Uri → Bytes)
    (say : Reason → Bytes) (run : ClientMetadata → ℕ → Bytes → Reply) where
  -- What a server without a hook answers, where `dials` tells if the other side could be dialled.
  abbrev pub tunnel_answer : Bool → Bytes → Bytes
  tunnel_answer dials input =
      respond encode_reply say false dials run (serve decode canonical parse print none input)

  -- A metadata of the server that arrives.
  abbrev pub IsReadable : ServerMetadata → Type 0
  IsReadable md =
      (0 < length (encode_reply md))
      × (length (encode_reply md) ≤ 65535)
      × (decode_reply (encode_reply md) ≡ some md)

  tunnel_answered :
      (kind : Kind) (url : Bytes) (header : Header) (uri : Uri) (md : Bytes) (dials : Bool)
      → check_tunnel kind (parse url) ≡ none
      → parse url ≡ some uri
      → length md ≤ 65535
      → decode md ≡ some (tunnel_metadata url header)
      → tunnel_answer dials (sent none 0 md)
        ≡ reply_bytes encode_reply say false (Handler.open_tunnel dials 0)
  unfolding unmarshal
  tunnel_answered kind url header uri md dials passes parsed fits known =
      let served = record (tunnel_metadata url header) {
        header = canonical_keys canonical (keys header) header;
      } in
      ap (tunnel_answer dials) (sent_alone md fits)
      ∙ ap (respond encode_reply say false dials run) (
          request_read decode canonical parse print none md 0 [] fits (omega arith)
          ∙ ap (λ m. on_metadata decode canonical parse print none 0 [] (unmarshal canonical m))
              known
          ∙ ap (on_uri none print served 0 []) parsed)
      ∙ tunnel_served encode_reply say dials run kind served 0 [] uri
          (check_tunnel_pass kind parse url uri passes parsed)

  called :
      (kind : Kind) (url : Bytes) (header : Header) (md input : Bytes)
      → check_tunnel kind (parse url) ≡ none
      → encode (tunnel_metadata url header) ≡ some md
      → length md ≤ 65535
      → open_tunnel decode_reply canonical kind parse encode url header (lasting input)
        ≡ returns (on_called kind (read_response decode_reply canonical input))
  unfolding open_tunnel
  called kind url header md input passes encodes fits =
      ap
        (checked_tunnel decode_reply canonical kind (encode (tunnel_metadata url header))
          (lasting input))
        passes
      ∙ ap
          (λ x. Client.unary decode_reply canonical none 0 x (lasting input) >>= λ r.
            returns (on_called kind r))
          encodes
      ∙ ap (λ x. x >>= λ r. returns (on_called kind r))
          (exchanged decode_reply canonical md input fits)

  -- A tunnel opens over the server, for `Connect` and for `Websocket`. If the client does not refuse
  -- the url, its metadata fit and the server decodes them, and the client can read the answers of the
  -- server, on a channel that lasts, then: if the server could dial, the client has a tunnel on which
  -- it reads what follows the answer, from its first byte; if not, it gets the text of the server,
  -- its first 256 bytes, as an error.
  pub tunnel_opens :
      (kind : Kind) (url : Bytes) (header : Header) (uri : Uri) (md more : Bytes)
      → check_tunnel kind (parse url) ≡ none
      → parse url ≡ some uri
      → encode (tunnel_metadata url header) ≡ some md
      → length md ≤ 65535
      → decode md ≡ some (tunnel_metadata url header)
      → IsReadable switching_metadata
      → IsReadable (text_metadata 502)
      → length (say dial_failed) ≤ max_int64
      → (open_tunnel decode_reply canonical kind parse encode url header
            (lasting (tunnel_answer true (sent none 0 md) ++ more))
          ≡ returns (tunnel more))
        × (open_tunnel decode_reply canonical kind parse encode url header
              (lasting (tunnel_answer false (sent none 0 md)))
            ≡ returns (error_text kind (say dial_failed)))
  unfolding Handler.open_tunnel reply_bytes send_ok send_text
  tunnel_opens kind url header uri md more passes parsed encodes fits known switches tells small =
      let answered_by =
        λ (dials : Bool). tunnel_answered kind url header uri md dials passes parsed fits known in
      let m = encode_reply switching_metadata in
      (
        called kind url header md _ passes encodes fits
            ∙ ap (λ (x : Bytes). returns (on_called kind (read_response decode_reply canonical x)))
                (ap (λ (x : Bytes). x ++ more) (answered_by true)
                  ∙ append_assoc (head (length m) 0) (m ++ []) more
                  ∙ ap (◌++◌ (head (length m) 0)) (append_assoc m [] more))
            ∙ ap (λ x. returns (on_called kind x))
                (reply_read decode_reply canonical encode_reply switching_metadata 0 more switches.0
                  switches.1 (omega arith) switches.2),
        called kind url header md _ passes encodes fits
            ∙ ap (λ (x : Bytes). returns (on_called kind (read_response decode_reply canonical x)))
                (answered_by false)
            ∙ ap (λ x. returns (on_called kind x))
                (reply_read decode_reply canonical encode_reply (text_metadata 502)
                  (length (say dial_failed)) (say dial_failed) tells.0 tells.1 small tells.2)
            ∙ ap (λ (x : Bytes). returns (error_text kind x)) (text_whole (say dial_failed)),
      )
