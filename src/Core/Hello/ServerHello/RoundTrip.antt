-- ===== src/Core/Hello/ServerHello/RoundTrip.antt =====
-- A server's message is read back as it was written, and no input makes its reader panic.
use httpadapter.Common.{
  ℕ, ◌≤◌, ◌<◌, ◌^◌, ◌≡◌, inl, inr, sym, ap, ◌∙◌, Bool, true, false, ◌==◌, ltb, ltb→le, le→leb, ◌-◌,
  take, drop, [], Bool-cases, ◌++◌, append_assoc, length, arith,
}
use httpadapter.Common.Bytes.{Bytes, put_uint, uint, bytes_eq}
use httpadapter.Common.Io.{read_full, ReadFull-cases, Returns, returns, Slice, make_slice}
use httpadapter.Core.Protocol.{flag}
use httpadapter.Core.Hello.{ok}
use httpadapter.Core.Hello.ServerHello.{
  ServerHello, marshal, accept, read_message, check_message, read_sizes, read_body, read_flag,
  read_server_hello,
}
use httpadapter.Core.Hello.ServerHello.Encode.{wire, IsEncodable, marshal-wire}
use httpadapter.Core.Hello.ServerHello.Decode.{sizes, Holds, read_accepts}

-- The layout, grouped as the reader takes it apart.
wire-append :
    (m : ServerHello) (rest : Bytes)
    → wire m ++ rest ≡ flag ++ (sizes m.code m.window (length m.message) ++ (m.message ++ rest))
wire-append m rest =
    let c = put_uint 1 m.code in
    let w = put_uint 4 m.window in
    let n = put_uint 2 (length m.message) in
    ap (◌++◌ flag) (
      append_assoc c (w ++ (n ++ m.message)) rest
      ∙ ap (◌++◌ c) (
          append_assoc w (n ++ m.message) rest
          ∙ ap (◌++◌ w) (append_assoc n m.message rest)
          ∙ sym (append_assoc w n (m.message ++ rest)))
      ∙ sym (append_assoc c (w ++ n) (m.message ++ rest)))

pub read_wire :
    (m : ServerHello) (rest : Bytes) (buf : Slice)
    → m.code < 256
    → m.window < 2 ^ 32
    → IsEncodable m
    → Holds buf (length m.message)
    → read_server_hello (wire m ++ rest) buf ≡ returns (record { outcome = ok m; rest = rest })
read_wire m rest buf byte wide h holds =
    ap (λ (input : Bytes). read_server_hello input buf) (wire-append m rest)
    ∙ read_accepts m.code m.window m.message rest byte h.window_pos wide (omega (arith, h.short))
        buf h.says holds

-- A message with a byte as its code, a window below 2^32, at most 65535 bytes of text, and a text
-- if the code is that of success, is encoded, and `ReadServerHello` on any buffer that holds the
-- text, or on none, gives it back with no error and leaves what follows it on the connection.
pub read_server_hello-marshal :
    (m : ServerHello) (rest : Bytes) (buf : Slice)
    → m.code < 256
    → m.window < 2 ^ 32
    → IsEncodable m
    → Holds buf (length m.message)
    → (encoded : Bytes) × (marshal m ≡ ok encoded)
      × (read_server_hello (encoded ++ rest) buf ≡ returns (record { outcome = ok m; rest = rest }))
read_server_hello-marshal m rest buf byte wide h holds =
    (wire m, marshal-wire m h, read_wire m rest buf byte wide h holds)

accept-Returns : (code window : ℕ) (msg input : Bytes) → Returns (accept code window msg input)
unfolding accept
accept-Returns code window msg input = ground arith

read_message-Returns :
    (code window msglen : ℕ) (input : Bytes) → Returns (read_message code window msglen input)
unfolding read_message
read_message-Returns code window msglen input = elim (Bool-cases (ltb 0 msglen)) [
  | inr e ↦ rw e (accept-Returns code window [] input)
  | inl e ↦ rw e (elim (ReadFull-cases (read_full msglen input)) [
    | inl (x, r) ↦ rw (r, read_message) tt
    | inr (bs, rest, r) ↦ rw (r, read_message) (accept-Returns code window bs rest)
  ])
]

check_message-Returns :
    (autobuf : Bool) (buf : Slice) (code window msglen : ℕ) (input : Bytes)
    → buf.len ≤ buf.cap
    → Returns (check_message autobuf buf code window msglen input)
unfolding check_message
check_message-Returns autobuf buf code window msglen input le =
    ground (arith, read_message-Returns code window msglen input)

read_sizes-Returns :
    (autobuf : Bool) (buf : Slice) (bs input : Bytes)
    → 11 ≤ buf.len
    → buf.len ≤ buf.cap
    → Returns (read_sizes autobuf buf bs input)
unfolding read_sizes
read_sizes-Returns autobuf buf bs input room le =
    rw
      (
        le→leb 1 buf.len (omega arith),
        le→leb 4 (buf.len - 1) (omega arith),
        le→leb 5 buf.len (omega arith),
        le→leb 2 (buf.len - 5) (omega arith),
      )
      (elim (Bool-cases (ltb (uint (take 4 (drop 1 bs))) 1)) [
        | inl e ↦ rw e tt
        | inr e ↦ rw e (check_message-Returns autobuf buf _ _ _ input le)
      ])

read_body-Returns :
    (autobuf : Bool) (buf : Slice) (input : Bytes)
    → 11 ≤ buf.len
    → buf.len ≤ buf.cap
    → Returns (read_body autobuf buf input)
unfolding read_body
read_body-Returns autobuf buf input room le =
    rw (le→leb 7 buf.cap (omega arith)) (elim (ReadFull-cases (read_full 7 input)) [
      | inl (x, r) ↦ rw (r, read_body) tt
      | inr (bs, rest, r) ↦ rw (r, read_body) (read_sizes-Returns autobuf buf bs rest room le)
    ])

read_flag-Returns :
    (autobuf : Bool) (buf : Slice) (input : Bytes)
    → 11 ≤ buf.len
    → buf.len ≤ buf.cap
    → Returns (read_flag autobuf buf input)
unfolding read_flag
read_flag-Returns autobuf buf input room le = elim (ReadFull-cases (read_full 11 input)) [
  | inl (x, r) ↦ rw (r, read_flag) tt
  | inr (bs, rest, r) ↦
      rw (r, read_flag)
        (elim (Bool-cases (bytes_eq bs flag)) [
          | inl e ↦ rw e (read_body-Returns autobuf buf rest room le)
          | inr e ↦ rw e tt
        ])
]

-- `ReadServerHello` panics on no input, whatever buffer it is given: its length is at most its
-- capacity.
pub read_server_hello-Returns :
    (input : Bytes) (buf : Slice) → buf.len ≤ buf.cap → Returns (read_server_hello input buf)
unfolding read_server_hello
read_server_hello-Returns input buf le = elim (Bool-cases (buf.len == 0)) [
  | inl e ↦ rw e (read_flag-Returns true (make_slice 128) input (omega arith) (omega arith))
  | inr e ↦ rw e (elim (Bool-cases (ltb buf.len 11)) [
    | inl f ↦ rw f tt
    | inr f ↦ rw f (read_flag-Returns false buf input (ltb→le buf.len 11 f) le)
  ])
]
