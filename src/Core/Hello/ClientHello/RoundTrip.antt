-- ===== src/Core/Hello/ClientHello/RoundTrip.antt =====
-- A client's message is read back as it was written.
use httpadapter.Common.{
  ℕ, ◌≤◌, ◌<◌, ◌^◌, ◌≡◌, sym, ap, ◌∙◌, List, ◌∷◌, ◌++◌, append_assoc, length, arith,
}
use httpadapter.Common.Bytes.{Bytes, put_uint}
use httpadapter.Common.Io.{Slice}
use httpadapter.Common.Text.{AllNoComma, join, split-join}
use httpadapter.Core.Protocol.{flag}
use httpadapter.Core.Hello.{ok, max_uint16}
use httpadapter.Core.Hello.ClientHello.{ClientHello, accepted, marshal, read_client_hello}
use httpadapter.Core.Hello.ClientHello.Encode.{wire, marshal-wire}
use httpadapter.Core.Hello.ClientHello.Decode.{sizes, Holds, read_accepts}

-- The layout, grouped as the reader takes it apart.
wire-append :
    (m : ClientHello) (rest : Bytes)
    → wire m ++ rest
      ≡ flag ++ (sizes m.window (length (join m.version)) ++ (join m.version ++ rest))
wire-append m rest = ap (◌++◌ flag) (
    append_assoc (put_uint 4 m.window) (put_uint 2 (length (join m.version)) ++ join m.version) rest
    ∙ ap (◌++◌ (put_uint 4 m.window))
        (append_assoc (put_uint 2 (length (join m.version))) (join m.version) rest)
    ∙ sym (append_assoc (put_uint 4 m.window) (put_uint 2 (length (join m.version))) _))

pub read_wire :
    (w : ℕ) (v : Bytes) (vs : List Bytes) (rest : Bytes) (buf : Slice)
    → 0 < w
    → w < 2 ^ 32
    → AllNoComma (v ∷ vs)
    → 0 < length (join (v ∷ vs))
    → length (join (v ∷ vs)) ≤ max_uint16
    → Holds buf (length (join (v ∷ vs)))
    → let m : ClientHello = record { window = w; version = v ∷ vs } in
      read_client_hello (wire m ++ rest) buf ≡ accepted m rest
read_wire w v vs rest buf pos wide clean some_text short holds =
    let m : ClientHello = record { window = w; version = v ∷ vs } in
    ap (λ (input : Bytes). read_client_hello input buf) (wire-append m rest)
    ∙ read_accepts buf w (join (v ∷ vs)) rest pos wide some_text (omega arith) holds
    ∙ ap (λ (t : List Bytes). accepted (record { window = w; version = t }) rest)
        (split-join v vs clean)

-- A message with a window below 2^32 and versions without commas, not all empty and at most 65535
-- bytes with their commas, is encoded, and `ReadClientHello` on any buffer that holds the versions
-- gives it back with no error and leaves what follows it on the connection.
pub read_client_hello-marshal :
    (w : ℕ) (v : Bytes) (vs : List Bytes) (rest : Bytes) (buf : Slice)
    → 0 < w
    → w < 2 ^ 32
    → AllNoComma (v ∷ vs)
    → 0 < length (join (v ∷ vs))
    → length (join (v ∷ vs)) ≤ max_uint16
    → Holds buf (length (join (v ∷ vs)))
    → let m : ClientHello = record { window = w; version = v ∷ vs } in
      (encoded : Bytes) × (marshal m ≡ ok encoded)
      × (read_client_hello (encoded ++ rest) buf ≡ accepted m rest)
read_client_hello-marshal w v vs rest buf pos wide clean some_text short holds =
    let m : ClientHello = record { window = w; version = v ∷ vs } in
    (
      wire m,
      marshal-wire m (record { window_pos = pos; versions = omega arith; short = short }),
      read_wire w v vs rest buf pos wide clean some_text short holds,
    )
