-- ===== src/Core/Hello/ServerHello/Encode.antt =====
-- What `Marshal` and `MarshalTo` produce, and which messages they refuse.
use native.Mathlib.Decide.{dec_lt}
use httpadapter.Common.{
  ℕ, ◌+◌, ◌≤◌, ◌<◌, ◌≡◌, ◌≢◌, ◌⊎◌, inl, inr, sym, ap, ◌∙◌, ◌++◌, ◌&&◌, false, length, length-append,
  length-take, length-replicate, replicate, take, arith, if◌then◌else◌, ltb, ◌==◌, ne→==, lt→ltb,
  le→ltb,
}
use httpadapter.Common.Bytes.{Bytes, put_uint, length-put_uint, copy_into_all}
use httpadapter.Common.Io.{IoError}
use httpadapter.Core.Protocol.{flag}
use httpadapter.Core.Hello.{io, ok, err, hello_ok, max_uint16}
use httpadapter.Core.Hello.ServerHello.{ServerHello, verify, marshal_into, marshal_to, marshal}

-- The layout on the wire: the flag, the code, the window in 4 bytes, the length of the message in
-- 2, and the message.
abbrev pub wire : ServerHello → Bytes
wire m =
    flag
    ++ (put_uint 1 m.code ++ (put_uint 4 m.window ++ (put_uint 2 (length m.message) ++ m.message)))

pub length-wire : (m : ServerHello) → length (wire m) ≡ 18 + length m.message
length-wire m = omega (
  arith,
  length-append (put_uint 1 m.code)
      (put_uint 4 m.window ++ (put_uint 2 (length m.message) ++ m.message)),
  length-append (put_uint 4 m.window) (put_uint 2 (length m.message) ++ m.message),
  length-append (put_uint 2 (length m.message)) m.message,
  length-put_uint 1 m.code,
  length-put_uint 4 m.window,
  length-put_uint 2 (length m.message),
)

-- A success carries its version; any message fits 16 bits; the window is open.
pub record IsEncodable (m : ServerHello) : Type 0 where
  pub window_pos : 0 < m.window
  pub says : (m.code ≢ hello_ok) ⊎ (0 < length m.message)
  pub short : length m.message ≤ max_uint16

pub says_lem :
    (code size : ℕ) → (code ≢ hello_ok) ⊎ (0 < size) → (code == hello_ok && size == 0) ≡ false
says_lem code size (inl ne) = ground arith
says_lem code size (inr pos) = ground arith

encodable_verify : (m : ServerHello) → IsEncodable m → verify m ≡ ok (18 + length m.message)
unfolding verify
encodable_verify m h = rw (
  ne→== m.window 0 (omega (arith, h.window_pos)),
  says_lem m.code (length m.message) h.says,
  le→ltb max_uint16 (length m.message) h.short,
)

marshal_into_lem :
    (m : ServerHello) (b : Bytes) → length b ≡ 18 + length m.message → marshal_into m b ≡ wire m
unfolding marshal_into
marshal_into_lem m b size = copy_into_all b (wire m) (length-wire m ∙ sym size)

-- `Marshal` gives the layout of an encodable message.
pub marshal-wire : (m : ServerHello) → IsEncodable m → marshal m ≡ ok (wire m)
unfolding marshal
marshal-wire m h =
    rw (encodable_verify m h, marshal)
      (ap ok (
        marshal_into_lem m (replicate (18 + length m.message) 0)
          (length-replicate (18 + length m.message) 0)))

-- `MarshalTo` gives the layout of an encodable message if the buffer holds it, and reports a short
-- buffer otherwise.
pub marshal_to-wire :
    (m : ServerHello) (b : Bytes)
    → IsEncodable m
    → marshal_to m b ≡ (
        if ltb (length b) (18 + length m.message)
        then err (io IoError.short_buffer)
        else ok (wire m))
unfolding marshal_to
marshal_to-wire m b h =
    rw (encodable_verify m h, marshal_to)
      (elim (dec_lt (length b) (18 + length m.message)) [
        | yes small ↦ rw (lt→ltb (length b) (18 + length m.message) small)
        | no fits ↦ rw (le→ltb (length b) (18 + length m.message) (omega arith)) (
            ap ok (
              marshal_into_lem m (take (18 + length m.message) b)
                (length-take (18 + length m.message) b ∙ omega arith)))
      ])
