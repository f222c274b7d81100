-- ===== src/Core/Hello/ServerHello/Decode.antt =====
-- `ReadServerHello` on an input that begins with the flag and the sizes: each stage of the reader.
use httpadapter.Common.{
  ℕ, suc, ◌-◌, ◌^◌, ◌≤◌, ◌<◌, ◌≡◌, refl, ◌∙◌, ◌⊎◌, inl, inr, Bool, true, false, [], ◌∷◌, ◌++◌,
  length, ap, get_or, append_assoc, ◌≢◌, length-append, take-append, drop-append, take, drop, arith,
  eq→==, ne→==, lt→ltb, le→ltb, le→leb, sym,
}
use native.Mathlib.Decide.{dec_lt}
use httpadapter.Common.Bytes.{Bytes, put_uint, length-put_uint, uint-put_uint, bytes_eq_self}
use httpadapter.Common.Io.{read_full-append, returns, Slice, make_slice}
use httpadapter.Core.Protocol.{flag}
use httpadapter.Core.Hello.{ok, hello_ok}
use httpadapter.Core.Hello.ServerHello.{
  accept, read_message, check_message, read_sizes, read_body, read_flag, read_server_hello,
}
use httpadapter.Core.Hello.ServerHello.Encode.{says_lem}

-- The seven bytes behind the flag.
abbrev pub sizes : ℕ → ℕ → ℕ → Bytes
sizes code window msglen = put_uint 1 code ++ (put_uint 4 window ++ put_uint 2 msglen)

length-sizes : (code window msglen : ℕ) → length (sizes code window msglen) ≡ 7
length-sizes code window msglen = omega (
  arith,
  length-append (put_uint 1 code) (put_uint 4 window ++ put_uint 2 msglen),
  length-append (put_uint 4 window) (put_uint 2 msglen),
  length-put_uint 1 code,
  length-put_uint 4 window,
  length-put_uint 2 msglen,
)

-- The fields are found at their places.
sizes_code : (code window msglen : ℕ) → code < 256 → get_or (sizes code window msglen) 0 0 ≡ code
unfolding put_uint
sizes_code code window msglen small = omega arith

sizes_window :
    (code window msglen : ℕ) → take 4 (drop 1 (sizes code window msglen)) ≡ put_uint 4 window
sizes_window code window msglen =
    ap (take 4) (
      drop-append 1 (put_uint 1 code) (put_uint 4 window ++ put_uint 2 msglen)
        (length-put_uint 1 code))
    ∙ take-append 4 (put_uint 4 window) (put_uint 2 msglen) (length-put_uint 4 window)

sizes_msglen : (code window msglen : ℕ) → drop 5 (sizes code window msglen) ≡ put_uint 2 msglen
sizes_msglen code window msglen =
    ap (drop 5) (sym (append_assoc (put_uint 1 code) (put_uint 4 window) (put_uint 2 msglen)))
    ∙ drop-append 5 (put_uint 1 code ++ put_uint 4 window) (put_uint 2 msglen) (
        omega (
          arith,
          length-append (put_uint 1 code) (put_uint 4 window),
          length-put_uint 1 code,
          length-put_uint 4 window,
        ))

read_flag_lem :
    (autobuf : Bool) (buf : Slice) (input : Bytes)
    → read_flag autobuf buf (flag ++ input) ≡ read_body autobuf buf input
unfolding read_flag
read_flag_lem autobuf buf input =
    rw (read_full-append 11 flag input refl, read_flag, bytes_eq_self flag)

read_body_lem :
    (autobuf : Bool) (buf : Slice) (seven input : Bytes)
    → length seven ≡ 7
    → 7 ≤ buf.cap
    → read_body autobuf buf (seven ++ input) ≡ read_sizes autobuf buf seven input
unfolding read_body
read_body_lem autobuf buf seven input size room =
    rw (le→leb 7 buf.cap room, read_full-append 7 seven input size, read_body)

read_sizes_lem :
    (autobuf : Bool) (buf : Slice) (code window msglen : ℕ) (input : Bytes)
    → code < 256
    → 0 < window
    → window < 2 ^ 32
    → msglen < 2 ^ 16
    → 11 ≤ buf.len
    → read_sizes autobuf buf (sizes code window msglen) input
      ≡ check_message autobuf buf code window msglen input
unfolding read_sizes
read_sizes_lem autobuf buf code window msglen input byte pos wide small room = rw (
  le→leb 1 buf.len (omega arith),
  le→leb 4 (buf.len - 1) (omega arith),
  sizes_window code window msglen,
  uint-put_uint 4 window wide,
  le→ltb window 1 pos,
  le→leb 5 buf.len (omega arith),
  le→leb 2 (buf.len - 5) (omega arith),
  sizes_code code window msglen byte,
  sizes_msglen code window msglen,
  uint-put_uint 2 msglen small,
)

accept_lem :
    (code window : ℕ) (msg rest : Bytes)
    → (code ≢ hello_ok) ⊎ (0 < length msg)
    → accept code window msg rest
      ≡ returns (record {
        outcome = ok (record { code = code; window = window; message = msg });
        rest = rest;
      })
unfolding accept
accept_lem code window msg rest says = rw (says_lem code (length msg) says)

read_message_lem :
    (code window : ℕ) (msg rest : Bytes)
    → read_message code window (length msg) (msg ++ rest) ≡ accept code window msg rest
unfolding read_message
read_message_lem code window [] rest = refl
read_message_lem code window (c ∷ cs) rest = rw (
  lt→ltb 0 (suc (length cs)) (omega arith),
  read_full-append (suc (length cs)) (c ∷ cs) rest refl,
  read_message,
)

check_own :
    (autobuf : Bool) (buf : Slice) (code window msglen : ℕ) (input : Bytes)
    → msglen ≤ buf.len
    → buf.len ≤ buf.cap
    → check_message autobuf buf code window msglen input ≡ read_message code window msglen input
unfolding check_message
check_own autobuf buf code window msglen input fits le =
    rw (le→ltb buf.len msglen fits, le→leb msglen buf.cap (omega arith))

check_new :
    (buf : Slice) (code window msglen : ℕ) (input : Bytes)
    → buf.len < msglen
    → check_message true buf code window msglen input ≡ read_message code window msglen input
unfolding check_message
check_new buf code window msglen input large = rw (lt→ltb buf.len msglen large)

read_own :
    (input : Bytes) (buf : Slice)
    → 11 ≤ buf.len
    → read_server_hello input buf ≡ read_flag false buf input
unfolding read_server_hello
read_own input buf h = rw (ne→== buf.len 0 (omega arith), le→ltb buf.len 11 h)

read_new :
    (input : Bytes) (buf : Slice)
    → buf.len ≡ 0
    → read_server_hello input buf ≡ read_flag true (make_slice 128) input
unfolding read_server_hello
read_new input buf h = rw (eq→== buf.len 0 h)

-- A buffer in which a message of `msglen` bytes can be read: none at all, or one that holds it.
abbrev pub Holds : Slice → ℕ → Type 0
Holds buf msglen = (buf.len ≡ 0) ⊎ ((11 ≤ buf.len) × (buf.len ≤ buf.cap) × (msglen ≤ buf.len))

module _ (code window : ℕ) (msg rest : Bytes) (byte : code < 256) (pos : 0 < window)
    (wide : window < 2 ^ 32) (small : length msg < 2 ^ 16) where
  read_down :
      (autobuf : Bool) (buf : Slice)
      → 11 ≤ buf.len
      → buf.len ≤ buf.cap
      → read_flag autobuf buf (flag ++ (sizes code window (length msg) ++ (msg ++ rest)))
        ≡ check_message autobuf buf code window (length msg) (msg ++ rest)
  read_down autobuf buf room le =
      read_flag_lem autobuf buf (sizes code window (length msg) ++ (msg ++ rest))
      ∙ read_body_lem autobuf buf (sizes code window (length msg)) (msg ++ rest)
          (length-sizes code window (length msg)) (omega arith)
      ∙ read_sizes_lem autobuf buf code window (length msg) (msg ++ rest) byte pos wide small room

  -- With or without a buffer of its own the reader comes to the message.
  pub read_accepts :
      (buf : Slice)
      → (code ≢ hello_ok) ⊎ (0 < length msg)
      → Holds buf (length msg)
      → read_server_hello (flag ++ (sizes code window (length msg) ++ (msg ++ rest))) buf
        ≡ returns (record {
          outcome = ok (record { code = code; window = window; message = msg });
          rest = rest;
        })
  read_accepts buf says (inr (room, le, fits)) =
      read_own _ buf room
      ∙ read_down false buf room le
      ∙ check_own false buf code window (length msg) (msg ++ rest) fits le
      ∙ read_message_lem code window msg rest
      ∙ accept_lem code window msg rest says
  read_accepts buf says (inl empty) =
      read_new _ buf empty
      ∙ read_down true (make_slice 128) (omega arith) (omega arith)
      ∙ elim (dec_lt 128 (length msg)) [
        | yes large ↦ check_new (make_slice 128) code window (length msg) (msg ++ rest) large
        | no fits ↦
            check_own true (make_slice 128) code window (length msg) (msg ++ rest) (omega arith)
              (omega arith)
      ]
      ∙ read_message_lem code window msg rest
      ∙ accept_lem code window msg rest says
