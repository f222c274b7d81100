-- ===== src/Websocket/Frames.antt =====
-- The frames that the loop of `Write` makes.
use httpadapter.Common.{
  ℕ, zero, suc, ◌+◌, ◌-◌, ◌*◌, ◌≤◌, ◌<◌, min, ◌≡◌, refl, sym, ap, ◌∙◌, ◌≢◌, Bool, true, false, some,
  List, [], ◌∷◌, ◌++◌, append-nil, append_assoc, arith, if◌then◌else◌, eq→==, ne→==, length, take,
  drop, length-take, length-drop, take-append-drop, All, empty_of_length, flatten,
}
use httpadapter.Common.Bytes.{Bytes}
use httpadapter.Core.Hello.{max_uint16}
use httpadapter.Websocket.{Conn, put, frame_size, frame_head, write_frames}
use native.Mathlib.Decide.{ℕ_discrete}

-- The payload of a frame is neither empty nor longer than its length field counts.
abbrev pub IsPayload : Bytes → Type 0
IsPayload bs = (1 ≤ length bs) × (length bs ≤ max_uint16)

-- The frames of some payloads, one after the other.
abbrev pub framed : List Bytes → Bytes
framed [] = []
framed (p ∷ ps) = frame_head (length p) ++ (p ++ framed ps)

frame_size_lem : (b : Bytes) → frame_size b ≡ min (length b) max_uint16
unfolding frame_size
frame_size_lem b = ground arith

pub put_lem :
    (b : Bytes) (c : Conn)
    → 0 < c.takes
    → put b c ≡ (true, record { out = c.out ++ b; takes = c.takes - 1 })
unfolding put
put_lem b c h =
    ap
      (λ (x : Bool).
        if x then (false, c) else (true, record { out = c.out ++ b; takes = c.takes - 1 }))
      (ne→== c.takes 0 (omega arith))

-- The connection after the two writes of a frame with the payload `b`.
abbrev after : Bytes → Conn → Conn
after b c = record { out = (c.out ++ frame_head (length b)) ++ b; takes = c.takes - 1 - 1 }

write_frames_stop :
    (fuel n : ℕ) (b : Bytes) (c : Conn)
    → length b ≡ 0
    → write_frames (suc fuel) b n c ≡ some (n, true, c)
unfolding write_frames
write_frames_stop fuel n b c e = rw (eq→== (length b) 0 e, write_frames) refl

-- A round of the loop, with the size of its frame as `size` and the two writes as they end.
round :
    (fuel n size : ℕ) (b : Bytes) (c : Conn)
    → frame_size b ≡ size
    → length (take size b) ≡ size
    → length b ≢ 0
    → 2 ≤ c.takes
    → write_frames (suc fuel) b n c
      ≡ write_frames fuel (drop size b) (n + size) (after (take size b) c)
unfolding write_frames
round fuel n size b c e whole ne h =
    rw
      (
        ne→== (length b) 0 ne,
        e,
        whole,
        write_frames,
        put_lem (frame_head size) c (omega arith),
        put_lem (take size b) (record { out = c.out ++ frame_head size; takes = c.takes - 1 })
            (omega arith),
      )
      refl

-- With enough calls left the loop writes all of the bytes in frames.
pub write_frames_all :
    (fuel n : ℕ) (b : Bytes) (c : Conn)
    → length b < fuel
    → 2 * length b ≤ c.takes
    → (ps : List Bytes) × (c' : Conn) × (write_frames fuel b n c ≡ some (n + length b, true, c'))
      × (c'.out ≡ c.out ++ framed ps)
      × (c.takes ≤ c'.takes + 2 * length b)
      × (flatten ps ≡ b)
      × All IsPayload ps
write_frames_all zero n b c h room = absurd (omega arith)
write_frames_all (suc fuel) n b c h room = elim (ℕ_discrete (length b) 0) [
  | yes e ↦ (
    [],
    c,
    write_frames_stop fuel n b c e ∙ ap (λ (k : ℕ). some (k, true, c)) (omega (arith, e)),
    sym (append-nil c.out),
    omega arith,
    sym (empty_of_length b e),
    tt,
  )
  | no ne ↦
      let size = min (length b) max_uint16 in
      let whole : length (take size b) ≡ size = omega (arith, length-take size b) in
      let left = length-drop size b in
      let (ps, c', e, out, takes, all, good) =
        write_frames_all fuel (n + size) (drop size b) (after (take size b) c) (omega (arith, left))
          (omega (arith, left)) in
      (
        take size b ∷ ps,
        c',
        round fuel n size b c (frame_size_lem b) whole ne (omega arith)
            ∙ e
            ∙ ap (λ (k : ℕ). some (k, true, c')) (omega (arith, left)),
        out
            ∙ append_assoc (c.out ++ frame_head (length (take size b))) (take size b) (framed ps)
            ∙ append_assoc c.out (frame_head (length (take size b))) (take size b ++ framed ps),
        omega (arith, takes, left),
        ap (◌++◌ (take size b)) all ∙ take-append-drop size b,
        (omega (arith, whole), good),
      )
]
