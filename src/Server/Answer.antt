-- ===== src/Server/Answer.antt =====
-- What the server writes back, and what becomes of a connection that speaks the protocol.
use httpadapter.Common.{
  ℕ, ◌+◌, ◌≤◌, ◌<◌, ◌≡◌, ◌≢◌, ◌⊎◌, inl, inr, ap, ◌∙◌, List, [], ◌∷◌, ◌++◌, false, none, some,
  length, replicate, length-replicate, arith, if◌then◌else◌, ◌==◌, le→ltb, ne→==,
}
use httpadapter.Common.Bytes.{Bytes}
use httpadapter.Common.Io.{returns}
use httpadapter.Core.Protocol.{protocol_version}
use httpadapter.Core.Hello.{hello_ok, hello_invalid_version, hello_string, ok}
use httpadapter.Core.Hello.ClientHello
use httpadapter.Core.Hello.ClientHello.Encode
use httpadapter.Core.Hello.ServerHello.{ServerHello}
use httpadapter.Core.Hello.ServerHello.Encode.{wire, marshal_to-wire}
use httpadapter.Server.{
  Surroundings, closes, runs, send_hello, answer, serve_greeting, serve, greeting_code,
}
use httpadapter.Server.Versions.{
  Offers, chosen, IsReadable, read_greeting_offered, read_greeting_refused,
}

-- The answer for a code, which carries the version on success and the code's name otherwise.
abbrev pub reply : ℕ → ℕ → Bytes → ServerHello
reply window code version = record {
  code = code;
  window = window;
  message = if code == hello_ok then version else hello_string code;
}

abbrev pub Replies : ℕ → Bytes → Type 0
Replies code version =
    (code ≤ 5) × ((code ≢ hello_ok) ⊎ ((0 < length version) × (length version ≤ 16)))

reply_message :
    (window code : ℕ) (version : Bytes)
    → Replies code version
    → (0 < length (reply window code version).message)
      × (length (reply window code version).message ≤ 16)
unfolding hello_string
reply_message window code version h = ground arith

-- The answer always fits the buffer of 256 bytes that `serve` has.
pub send_hello-reply :
    (window code : ℕ) (version : Bytes)
    → 0 < window
    → Replies code version
    → send_hello window (replicate 256 0) code version ≡ ok (wire (reply window code version))
unfolding send_hello
send_hello-reply window code version pos h =
    let m = reply window code version in
    let size = reply_message window code version h in
    marshal_to-wire m (replicate 256 0)
      (record { window_pos = pos; says = inr size.0; short = omega (arith, size.1) })
    ∙ rw (
        le→ltb (length {A = ℕ} (replicate 256 0)) (18 + length m.message)
          (omega (arith, size.1, length-replicate {A = ℕ} 256 0)))

module _ (s : Surroundings) (pos : 0 < s.window) (sent : s.write_fails ≡ false) (rest : Bytes) where
  serve_chosen :
      (w : ℕ)
      → serve_greeting s (some (chosen w rest))
        ≡ runs (wire (reply s.window hello_ok protocol_version)) w rest
  unfolding serve_greeting answer
  serve_chosen w =
      rw (
        send_hello-reply s.window hello_ok protocol_version pos (omega arith),
        serve_greeting,
        sent,
      )

  serve_code :
      (code : ℕ)
      → code ≢ hello_ok
      → code ≤ 5
      → serve_greeting s (some (greeting_code code none rest))
        ≡ closes (wire (reply s.window code []))
  unfolding serve_greeting answer
  serve_code code ne le = rw (
    send_hello-reply s.window code [] pos (le, inl ne),
    serve_greeting,
    sent,
    ne→== code hello_ok ne,
  )

  module _ (w : ℕ) (v : Bytes) (vs : List Bytes) (h : IsReadable w v vs) where
    abbrev request : Bytes
    request = ClientHello.Encode.wire (record { window = w; version = v ∷ vs })

    -- On a connection that takes the answer, a client with a window from 1 to 2^32 - 1 and at most
    -- 245 bytes of versions without commas, among them this server's, gets the answer `Ok` with
    -- the server's window, if this is positive, and the version, and the transport starts with the
    -- client's window on what follows the hello.
    pub serve_accepts :
        Offers (v ∷ vs)
        → serve s (request ++ rest)
          ≡ returns (runs (wire (reply s.window hello_ok protocol_version)) w rest)
    unfolding serve
    serve_accepts offered =
        rw (read_greeting_offered w v vs rest h offered, serve) (ap returns (serve_chosen w))

    -- On a connection that takes the answer, a client with a window from 1 to 2^32 - 1 and at most
    -- 245 bytes of versions without commas, none of them this server's, gets `Invalid Version`
    -- with the server's window, if this is positive, and the connection is closed.
    pub serve_refuses :
        ¬ (Offers (v ∷ vs))
        → serve s (request ++ rest)
          ≡ returns (closes (wire (reply s.window hello_invalid_version [])))
    unfolding serve
    serve_refuses missing =
        rw (read_greeting_refused w v vs rest h missing, serve)
          (ap returns (serve_code hello_invalid_version (omega arith) (omega arith)))
