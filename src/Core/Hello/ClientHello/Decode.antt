-- ===== src/Core/Hello/ClientHello/Decode.antt =====
-- `ReadClientHello` on an input that begins with the flag and the sizes: each stage of the reader.
use httpadapter.Common.{
  ℕ, ◌+◌, ◌-◌, ◌^◌, ◌≤◌, ◌<◌, ◌≡◌, refl, ◌∙◌, ◌⊎◌, inl, inr, Bool, true, false, ◌++◌, length,
  length-append, ◌≢◌, take, drop, take-append, drop-append, arith, eq→==, ne→==, lt→ltb, le→ltb,
  le→leb, lt→leb,
}
use httpadapter.Common.Bytes.{
  Bytes, put_uint, length-put_uint, uint-put_uint, bytes_eq_self, ne→bytes_eq,
}
use httpadapter.Common.Io.{read_full_long, read_full-append, panics, Slice, make_slice}
use httpadapter.Common.Text.{split}
use httpadapter.Core.Protocol.{flag}
use httpadapter.Core.Hello.{hello_invalid_protocol}
use httpadapter.Core.Hello.ClientHello.{
  accepted, rejected, read_versions, check_versions, read_sizes, read_body, read_flag,
  read_client_hello,
}

pub read_flag_lem :
    (autobuf : Bool) (buf : Slice) (input : Bytes)
    → read_flag autobuf buf (flag ++ input) ≡ read_body autobuf buf input
unfolding read_flag
read_flag_lem autobuf buf input =
    rw (read_full-append 11 flag input refl, read_flag, bytes_eq_self flag)

-- The slice that is left of the buffer behind the flag.
abbrev pub behind : Slice → Slice
behind buf = record { len = buf.len - 11; cap = buf.cap - 11 }

pub read_body_lem :
    (autobuf : Bool) (buf : Slice) (six input : Bytes)
    → length six ≡ 6
    → 11 ≤ buf.len
    → 17 ≤ buf.cap
    → read_body autobuf buf (six ++ input) ≡ read_sizes autobuf buf.len (behind buf) six input
unfolding read_body
read_body_lem autobuf buf six input six_bytes l c = rw (
  le→leb 11 buf.len l,
  le→leb 6 (buf.cap - 11) (omega arith),
  read_full-append 6 six input six_bytes,
  read_body,
)

pub read_sizes_lem :
    (autobuf : Bool) (bufsize : ℕ) (buf : Slice) (window vs : ℕ) (input : Bytes)
    → 0 < window
    → window < 2 ^ 32
    → vs < 2 ^ 16
    → 6 ≤ buf.len
    → read_sizes autobuf bufsize buf (put_uint 4 window ++ put_uint 2 vs) input
      ≡ check_versions autobuf bufsize buf vs window input
unfolding read_sizes
read_sizes_lem autobuf bufsize buf window vs input pos wide small room = rw (
  le→leb 4 buf.len (omega arith),
  take-append 4 (put_uint 4 window) (put_uint 2 vs) (length-put_uint 4 window),
  drop-append 4 (put_uint 4 window) (put_uint 2 vs) (length-put_uint 4 window),
  uint-put_uint 4 window wide,
  uint-put_uint 2 vs small,
  le→ltb window 1 pos,
  le→leb 2 (buf.len - 4) (omega arith),
)

-- The six bytes behind the flag.
abbrev pub sizes : ℕ → ℕ → Bytes
sizes window vs = put_uint 4 window ++ put_uint 2 vs

length-sizes : (window vs : ℕ) → length (sizes window vs) ≡ 6
length-sizes window vs = omega (
  arith,
  length-append (put_uint 4 window) (put_uint 2 vs),
  length-put_uint 4 window,
  length-put_uint 2 vs,
)

check_own :
    (autobuf : Bool) (bufsize : ℕ) (buf : Slice) (vs window : ℕ) (input : Bytes)
    → 0 < vs
    → vs ≤ bufsize
    → check_versions autobuf bufsize buf vs window input ≡ read_versions buf vs window input
unfolding check_versions
check_own autobuf bufsize buf vs window input pos fits =
    rw (le→ltb vs 1 pos, le→ltb bufsize vs fits)

check_new :
    (bufsize : ℕ) (buf : Slice) (vs window : ℕ) (input : Bytes)
    → bufsize < vs
    → check_versions true bufsize buf vs window input
      ≡ read_versions (make_slice vs) vs window input
unfolding check_versions
check_new bufsize buf vs window input large =
    rw (le→ltb vs 1 (omega arith), lt→ltb bufsize vs large)

read_versions_lem :
    (buf : Slice) (vs window : ℕ) (text rest : Bytes)
    → vs ≤ buf.cap
    → length text ≡ vs
    → read_versions buf vs window (text ++ rest)
      ≡ accepted (record { window = window; version = split text }) rest
unfolding read_versions
read_versions_lem buf vs window text rest fits size =
    rw (le→leb vs buf.cap fits, read_full-append vs text rest size, read_versions)

read_versions_panics :
    (buf : Slice) (vs window : ℕ) (input : Bytes)
    → buf.cap < vs
    → read_versions buf vs window input ≡ panics
unfolding read_versions
read_versions_panics buf vs window input large = rw (lt→leb buf.cap vs large)

read_own :
    (input : Bytes) (buf : Slice)
    → 11 ≤ buf.len
    → read_client_hello input buf ≡ read_flag false buf input
unfolding read_client_hello
read_own input buf h = rw (ne→== buf.len 0 (omega arith), le→ltb buf.len 11 h)

read_new :
    (input : Bytes) (buf : Slice)
    → buf.len ≡ 0
    → read_client_hello input buf ≡ read_flag true (make_slice 128) input
unfolding read_client_hello
read_new input buf h = rw (eq→== buf.len 0 h)

-- The reader's way down to the versions, on an input that begins well.
read_down :
    (autobuf : Bool) (buf : Slice) (window vs : ℕ) (input : Bytes)
    → 0 < window
    → window < 2 ^ 32
    → vs < 2 ^ 16
    → 17 ≤ buf.len
    → buf.len ≤ buf.cap
    → read_flag autobuf buf (flag ++ (sizes window vs ++ input))
      ≡ check_versions autobuf buf.len (behind buf) vs window input
read_down autobuf buf window vs input pos wide small room le =
    read_flag_lem autobuf buf (sizes window vs ++ input)
    ∙ read_body_lem autobuf buf (sizes window vs) input (length-sizes window vs) (omega arith)
        (omega arith)
    ∙ read_sizes_lem autobuf buf.len (behind buf) window vs input pos wide small (omega arith)

-- A buffer in which versions of `vs` bytes can be read: none at all, or one that still holds them
-- behind the eleven bytes that the flag takes.
abbrev pub Holds : Slice → ℕ → Type 0
Holds buf vs =
    ((buf.len ≡ 0) × ((vs ≤ 117) ⊎ (128 < vs)))
    ⊎ ((17 ≤ buf.len) × (buf.len ≤ buf.cap) × (vs ≤ buf.len) × (vs + 11 ≤ buf.cap))

-- In such a buffer the reader accepts the message and leaves what follows it.
pub read_accepts :
    (buf : Slice) (window : ℕ) (text rest : Bytes)
    → 0 < window
    → window < 2 ^ 32
    → 0 < length text
    → length text < 2 ^ 16
    → Holds buf (length text)
    → read_client_hello (flag ++ (sizes window (length text) ++ (text ++ rest))) buf
      ≡ accepted (record { window = window; version = split text }) rest
read_accepts buf window text rest pos wide some_text small (inr (room, le, own, fits)) =
    read_own _ buf (omega arith)
    ∙ read_down false buf window (length text) (text ++ rest) pos wide small room le
    ∙ check_own false buf.len (behind buf) (length text) window (text ++ rest) some_text own
    ∙ read_versions_lem (behind buf) (length text) window text rest (omega arith) refl
read_accepts buf window text rest pos wide some_text small (inl (empty, inl short)) =
    read_new _ buf empty
    ∙ read_down true (make_slice 128) window (length text) (text ++ rest) pos wide small
        (omega arith) (omega arith)
    ∙ check_own true 128 (behind (make_slice 128)) (length text) window (text ++ rest) some_text
        (omega arith)
    ∙ read_versions_lem (behind (make_slice 128)) (length text) window text rest (omega arith) refl
read_accepts buf window text rest pos wide some_text small (inl (empty, inr long)) =
    read_new _ buf empty
    ∙ read_down true (make_slice 128) window (length text) (text ++ rest) pos wide small
        (omega arith) (omega arith)
    ∙ check_new 128 (behind (make_slice 128)) (length text) window (text ++ rest) long
    ∙ read_versions_lem (make_slice (length text)) (length text) window text rest (omega arith) refl

-- With a buffer of `n` bytes of its own the reader panics, whatever follows the sizes, when the
-- announced length of the versions is over what the flag has left of the buffer and not over the
-- whole of it.
pub read_panics :
    (n window vs : ℕ) (input : Bytes)
    → 17 ≤ n
    → 0 < window
    → window < 2 ^ 32
    → vs < 2 ^ 16
    → n < vs + 11
    → vs ≤ n
    → read_client_hello (flag ++ (sizes window vs ++ input)) (make_slice n) ≡ panics
read_panics n window vs input room pos wide small over within =
    read_own _ (make_slice n) (omega arith)
    ∙ read_down false (make_slice n) window vs input pos wide small room (omega arith)
    ∙ check_own false n (behind (make_slice n)) vs window input (omega arith) within
    ∙ read_versions_panics (behind (make_slice n)) vs window input (omega arith)

flag_differs :
    (buf : Slice) (input : Bytes)
    → 11 ≤ length input
    → take 11 input ≢ flag
    → read_flag false buf input ≡ rejected hello_invalid_protocol (take 11 input) (drop 11 input)
unfolding read_flag
flag_differs buf input long ne =
    rw (read_full_long 11 input long, read_flag, ne→bytes_eq (take 11 input) flag ne)

-- An input that does not begin with the flag is rejected, and the bytes read of it are kept.
pub read_rejects :
    (input : Bytes) (buf : Slice)
    → 11 ≤ buf.len
    → 11 ≤ length input
    → take 11 input ≢ flag
    → read_client_hello input buf ≡ rejected hello_invalid_protocol (take 11 input) (drop 11 input)
read_rejects input buf room long ne = read_own input buf room ∙ flag_differs buf input long ne
