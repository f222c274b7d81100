-- ===== src/Server/OtherProtocols.antt =====
-- Connections that speak another protocol: no byte of theirs is lost.
use httpadapter.Common.{
  ℕ, ◌≤◌, ◌<◌, min, ◌≡◌, ◌≢◌, refl, sym, ap, ◌∙◌, List, [], ◌∷◌, ◌++◌, append_assoc, false, true,
  none, some, length, take, drop, take-append-drop, arith, inl,
}
use httpadapter.Common.Bytes.{Bytes}
use httpadapter.Common.Io.{returns, make_slice}
use httpadapter.Core.Protocol.{flag}
use httpadapter.Core.Hello.{hello_invalid_protocol}
use httpadapter.Core.Hello.ClientHello.Decode.{read_rejects}
use httpadapter.Core.Hello.ServerHello.Encode.{wire}
use httpadapter.Server.{
  Surroundings, Greeting, relays, hands_over, closes, serve, serve_other, serve_greeting, greet,
  read_greeting, HttpConn, http_read_held, http_read, http_reads,
}
use httpadapter.Server.Answer.{reply, send_hello-reply}

other : Bytes → Greeting
other input = record {
  backend = some (take 11 input);
  code = hello_invalid_protocol;
  version = [];
  window = 0;
  error = none;
  rest = drop 11 input;
}

read_other :
    (input : Bytes)
    → 11 ≤ length input
    → take 11 input ≢ flag
    → read_greeting input ≡ returns (other input)
unfolding read_greeting greet other
read_other input long ne = rw (read_rejects input (make_slice 256) (omega arith) long ne)

-- On a server with a positive window, a client that sends eleven bytes at least that do not begin
-- with the flag is handed on with these eleven and all the others: to the backend if there is one
-- that can be dialed, else to a running http server if there is one; with neither, it gets
-- `Invalid Protocol` if the connection takes it, and the connection is closed.
pub serve_hands_on :
    (s : Surroundings) (input : Bytes)
    → 11 ≤ length input
    → take 11 input ≢ flag
    → 0 < s.window
    → (s.backend ≡ some true → serve s input ≡ returns (relays (take 11 input) (drop 11 input)))
      × (s.backend ≡ none
          → s.http ≡ some true
          → serve s input ≡ returns (hands_over (take 11 input) (drop 11 input)))
      × (s.backend ≡ none
          → s.http ≡ none
          → s.write_fails ≡ false
          → serve s input ≡ returns (closes (wire (reply s.window hello_invalid_protocol []))))
unfolding serve serve_greeting serve_other other
serve_hands_on s input long ne pos = (
  λ b. rw (read_other input long ne) (rw (b, serve_other)),
  λ b h. rw (read_other input long ne) (rw (b, serve_other, h)),
  λ b h w. rw (read_other input long ne) (
      rw (
        b,
        serve_other,
        h,
        send_hello-reply s.window hello_invalid_protocol [] pos (omega arith, inl (omega arith)),
        w,
      )),
)

http_held_in_order :
    (n avail : ℕ) (b conn : Bytes)
    → let (bs, c') = http_read_held n avail b conn in bs ++ (c'.b ++ c'.conn) ≡ b ++ conn
unfolding http_read_held
http_held_in_order n avail [] conn = take-append-drop (min n avail) conn
http_held_in_order n avail (x ∷ xs) conn =
    sym (append_assoc (take n (x ∷ xs)) (drop n (x ∷ xs)) conn)
    ∙ ap (λ (t : Bytes). t ++ conn) (take-append-drop n (x ∷ xs))

-- What the http server reads from the connection, in reads of any sizes, is what the client sent:
-- the bytes that the hello took, then those behind them, none lost, doubled or moved.
pub http_reads_in_order :
    (reads : List (ℕ × ℕ)) (c : HttpConn)
    → let (bs, c') = http_reads reads c in bs ++ (c'.b ++ c'.conn) ≡ c.b ++ c.conn
unfolding http_reads http_read
http_reads_in_order [] c = refl
http_reads_in_order ((n, avail) ∷ rest) c =
    let (bs, c') = http_read n avail c in
    append_assoc bs (http_reads rest c').0 _
    ∙ ap (◌++◌ bs) (http_reads_in_order rest c')
    ∙ http_held_in_order n avail c.b c.conn
