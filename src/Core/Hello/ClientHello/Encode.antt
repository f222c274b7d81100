-- ===== src/Core/Hello/ClientHello/Encode.antt =====
-- What `Marshal` and `MarshalTo` produce, and which messages they refuse.
use native.Mathlib.Decide.{dec_lt}
use httpadapter.Common.{
  ℕ, suc, ◌+◌, ◌≤◌, ◌<◌, ◌≡◌, refl, sym, ap, ◌∙◌, List, [], ◌∷◌, ◌++◌, length, length-append,
  length-take, length-replicate, replicate, take, arith, if◌then◌else◌, ltb, eq→==, ne→==, lt→ltb,
  le→ltb,
}
use httpadapter.Common.Bytes.{Bytes, put_uint, length-put_uint, copy_into_all}
use httpadapter.Common.Text.{join, length-join}
use httpadapter.Common.Io.{IoError}
use httpadapter.Core.Protocol.{flag}
use httpadapter.Core.Hello.{
  io, hello, ok, err, hello_invalid_window, hello_invalid_version, max_uint16,
}
use httpadapter.Core.Hello.ClientHello.{ClientHello, verify, marshal_into, marshal_to, marshal}

-- The layout on the wire: the flag, the window in 4 bytes, the length of the versions in 2, and
-- the versions with commas between them.
abbrev pub wire : ClientHello → Bytes
wire m = flag ++ (put_uint 4 m.window ++ (put_uint 2 (length (join m.version)) ++ join m.version))

pub length-wire : (m : ClientHello) → length (wire m) ≡ 17 + length (join m.version)
length-wire m = omega (
  arith,
  length-append (put_uint 4 m.window) (put_uint 2 (length (join m.version)) ++ join m.version),
  length-append (put_uint 2 (length (join m.version))) (join m.version),
  length-put_uint 4 m.window,
  length-put_uint 2 (length (join m.version)),
)

verify_lem :
    (w : ℕ) (v : Bytes) (vs : List Bytes)
    → 0 < w
    → let m : ClientHello = record { window = w; version = v ∷ vs } in
      verify m ≡ ok (17 + length (join (v ∷ vs)))
unfolding verify
verify_lem w v [] h = rw (ne→== w 0 (omega arith), length-join v []) (ap ok (omega arith))
verify_lem w v (u ∷ us) h =
    rw
      (
        ne→== w 0 (omega arith),
        length-join v (u ∷ us),
        ne→== (suc (suc (length us))) 0 (omega arith),
        ne→== (suc (suc (length us))) 1 (omega arith),
      )
      (ap ok (omega arith))

marshal_into_lem :
    (m : ClientHello) (b : Bytes)
    → length (join m.version) ≤ max_uint16
    → length b ≡ 17 + length (join m.version)
    → marshal_into m b ≡ ok (wire m)
unfolding marshal_into
marshal_into_lem m b small size =
    rw (le→ltb max_uint16 (length (join m.version)) small)
      (ap ok (copy_into_all b (wire m) (length-wire m ∙ sym size)))

-- What a message must satisfy to be encoded: a window, a version, and versions that fit 16 bits.
pub record IsEncodable (m : ClientHello) : Type 0 where
  pub window_pos : 0 < m.window
  pub versions : 0 < length m.version
  pub short : length (join m.version) ≤ max_uint16

encodable_verify : (m : ClientHello) → IsEncodable m → verify m ≡ ok (17 + length (join m.version))
encodable_verify m h = split_versions m.window m.version h.window_pos h.versions
  where
    split_versions :
        (w : ℕ) (vs : List Bytes)
        → 0 < w
        → 0 < length vs
        → verify (record { window = w; version = vs }) ≡ ok (17 + length (join vs))
    split_versions w [] pos some_version = absurd (omega arith)
    split_versions w (v ∷ vs) pos some_version = verify_lem w v vs pos

-- `Marshal` gives the layout of an encodable message.
pub marshal-wire : (m : ClientHello) → IsEncodable m → marshal m ≡ ok (wire m)
unfolding marshal
marshal-wire m h =
    rw (encodable_verify m h, marshal)
      (marshal_into_lem m (replicate (17 + length (join m.version)) 0) h.short
        (length-replicate (17 + length (join m.version)) 0))

-- `MarshalTo` gives the layout of an encodable message if the buffer holds it, and reports a short
-- buffer otherwise.
pub marshal_to-wire :
    (m : ClientHello) (b : Bytes)
    → IsEncodable m
    → marshal_to m b ≡ (
        if ltb (length b) (17 + length (join m.version))
        then err (io IoError.short_buffer)
        else ok (wire m))
unfolding marshal_to
marshal_to-wire m b h =
    rw (encodable_verify m h, marshal_to)
      (elim (dec_lt (length b) (17 + length (join m.version))) [
        | yes small ↦ rw (lt→ltb (length b) (17 + length (join m.version)) small)
        | no fits ↦ rw (le→ltb (length b) (17 + length (join m.version)) (omega arith)) (
            marshal_into_lem m (take (17 + length (join m.version)) b) h.short
              (length-take (17 + length (join m.version)) b ∙ omega arith))
      ])

verify_window : (m : ClientHello) → m.window ≡ 0 → verify m ≡ err (hello hello_invalid_window)
unfolding verify
verify_window m e = rw (eq→== m.window 0 e)

verify_versions :
    (m : ClientHello)
    → 0 < m.window
    → length m.version ≡ 0
    → verify m ≡ err (hello hello_invalid_version)
unfolding verify
verify_versions m pos e = rw (ne→== m.window 0 (omega arith), eq→== (length m.version) 0 e)

refuse_long :
    (w : ℕ) (v : Bytes) (vs : List Bytes)
    → 0 < w
    → max_uint16 < length (join (v ∷ vs))
    → marshal (record { window = w; version = v ∷ vs }) ≡ err (hello hello_invalid_version)
unfolding marshal marshal_into
refuse_long w v vs pos long =
    rw (verify_lem w v vs pos, marshal, lt→ltb max_uint16 (length (join (v ∷ vs))) long)

-- `Marshal` refuses every message that is not encodable: the window is tested first, then that
-- there is a version, then that the versions fit.
pub marshal_refuses :
    (w : ℕ) (vs : List Bytes)
    → let out = marshal (record { window = w; version = vs }) in
      (w ≡ 0 → out ≡ err (hello hello_invalid_window))
      × (0 < w → length vs ≡ 0 → out ≡ err (hello hello_invalid_version))
      × (0 < w → max_uint16 < length (join vs) → out ≡ err (hello hello_invalid_version))
unfolding marshal
marshal_refuses w [] = (
  λ e. rw (verify_window (record { window = w; version = [] }) e, marshal),
  λ pos e. rw (verify_versions (record { window = w; version = [] }) pos e, marshal),
  λ pos long. rw (verify_versions (record { window = w; version = [] }) pos refl, marshal),
)
marshal_refuses w (v ∷ vs) = (
  λ e. rw (verify_window (record { window = w; version = v ∷ vs }) e, marshal),
  λ pos e. absurd (omega arith),
  λ pos long. refuse_long w v vs pos long,
)
