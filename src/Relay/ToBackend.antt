-- ===== src/Relay/ToBackend.antt =====
-- Messages of the client to the backend.
use httpadapter.Common.{
  ℕ, zero, suc, ◌≤◌, ◌<◌, ◌≡◌, refl, ap, ap₂, ◌∙◌, inl, inr, Bool, true, false, List, [], ◌∷◌, ◌++◌,
  append_assoc, arith, ◌==◌, if◌then◌else◌, Bool-cases, length, take, drop, length-append,
  take-append, drop-append, All, flatten,
}
use httpadapter.Common.Bytes.{Bytes, uint, put_uint, length-put_uint, uint-put_uint}
use httpadapter.Common.Io.{read_full, read_full-append}
use httpadapter.Core.Hello.{max_uint16}
use httpadapter.Websocket.Frames.{IsPayload, framed}
use httpadapter.Websocket.Reader.Whole.{framed_rest, length-framed}
use httpadapter.Relay.{
  Writer, copies, refused, lost, Outgoing, relayed, on_frame, copy_frames, on_first, write_ws,
}

-- The end of a message.
abbrev pub stop : Bytes
stop = 1 ∷ put_uint 2 0

-- The backend takes every part of the message in its place, and its end.
abbrev pub TakesAll : Writer → ℕ → Bytes → Type 0
TakesAll w t b =
    ((acc p rest : Bytes) → IsPayload p → acc ++ (p ++ rest) ≡ b → w.takes t acc p ≡ true)
    × (w.ends t b ≡ true)

copies_taken :
    (w : Writer) (t l : ℕ) (acc p : Bytes) → w.takes t acc p ≡ true → copies w t acc l p ≡ true
copies_taken w t l acc p e = elim (Bool-cases (l == 0)) [ inl h ↦ rw h refl | inr h ↦ rw h e ]

if_copies :
    (w : Writer) (t : ℕ) (acc p : Bytes) (x y : Outgoing)
    → copies w t acc (length p) p ≡ true
    → (if copies w t acc (length p) p then x else y) ≡ x
if_copies w t acc p x y e = ap (λ (b : Bool). if b then x else y) e

frame_read :
    (w : Writer) (more : Bool → Bytes → Bytes → Outgoing) (t flag : ℕ) (acc p rest : Bytes)
    → length p ≤ max_uint16
    → copies w t acc (length p) p ≡ true
    → on_frame w more t acc (read_full 3 (flag ∷ (put_uint 2 (length p) ++ (p ++ rest))))
      ≡ more (flag == 1) (acc ++ p) rest
frame_read w more t flag acc p rest small copied =
    ap (on_frame w more t acc) (
      read_full-append 3 (flag ∷ put_uint 2 (length p)) (p ++ rest)
        (omega (arith, length-put_uint 2 (length p))))
    ∙ ap
        (λ (l : ℕ).
          if copies w t acc l (take l (p ++ rest))
          then more (flag == 1) (acc ++ take l (p ++ rest)) (drop l (p ++ rest))
          else refused t acc)
        (uint-put_uint 2 (length p) (omega arith))
    ∙ ap₂
        (λ (a b : Bytes).
          if copies w t acc (length p) a then more (flag == 1) (acc ++ a) b else refused t acc)
        (take-append (length p) p rest refl) (drop-append (length p) p rest refl)
    ∙ if_copies w t acc p (more (flag == 1) (acc ++ p) rest) (refused t acc) copied

ended :
    (fuel : ℕ) (w : Writer) (t : ℕ) (acc b tail : Bytes)
    → acc ≡ b
    → w.ends t b ≡ true
    → copy_frames fuel w t true acc tail ≡ relayed t b tail
unfolding copy_frames
ended fuel w t acc b tail e taken =
    ap (λ (a : Bytes). if w.ends t a then relayed t a tail else refused t a) e
    ∙ ap (λ (x : Bool). if x then relayed t b tail else refused t b) taken

-- The frames that remain are copied in order.
frames_copied :
    (fuel : ℕ) (w : Writer) (t : ℕ) (b acc : Bytes) (ps : List Bytes) (tail : Bytes)
    → TakesAll w t b
    → acc ++ flatten ps ≡ b
    → All IsPayload ps
    → length ps < fuel
    → copy_frames fuel w t false acc (framed ps ++ (stop ++ tail)) ≡ relayed t b tail
unfolding copy_frames
frames_copied zero w t b acc ps tail taken whole good h = absurd (omega arith)
frames_copied (suc fuel) w t b acc [] tail taken whole good h =
    frame_read w (λ last more rest. copy_frames fuel w t last more rest) t 1 acc [] tail
      (omega arith) refl
    ∙ ended fuel w t (acc ++ []) b tail whole taken.1
frames_copied (suc fuel) w t b acc (p ∷ ps) tail taken whole good h =
    ap
      (λ x.
        on_frame w (λ last more rest. copy_frames fuel w t last more rest) t acc (read_full 3 x))
      (framed_rest p ps (stop ++ tail))
    ∙ frame_read w (λ last more rest. copy_frames fuel w t last more rest) t 0 acc p
        (framed ps ++ (stop ++ tail)) good.0.1
        (copies_taken w t (length p) acc p (taken.0 acc p (flatten ps) good.0 whole))
    ∙ frames_copied fuel w t b (acc ++ p) ps tail taken (append_assoc acc p (flatten ps) ∙ whole)
        good.1 (omega arith)

length_le-framed : (ps : List Bytes) → length ps ≤ length (framed ps)
length_le-framed [] = omega arith
length_le-framed (p ∷ ps) = omega (arith, length_le-framed ps, length-framed p ps)

first_read :
    (w : Writer) (t flag : ℕ) (p rest : Bytes)
    → w.accepts t ≡ true
    → length p ≤ max_uint16
    → copies w t [] (length p) p ≡ true
    → write_ws w (t ∷ flag ∷ (put_uint 2 (length p) ++ (p ++ rest)))
      ≡ copy_frames (suc (length (p ++ rest))) w t (flag == 1) p rest
unfolding write_ws
first_read w t flag p rest known small copied =
    let fuel = suc (length (p ++ rest)) in
    ap (on_first w) (
      read_full-append 4 (t ∷ flag ∷ put_uint 2 (length p)) (p ++ rest)
        (omega (arith, length-put_uint 2 (length p))))
    ∙ ap
        (λ (x : Bool).
          if x
          then (let l = uint (put_uint 2 (length p)) in
              if copies w t [] l (take l (p ++ rest))
              then copy_frames fuel w t (flag == 1) (take l (p ++ rest)) (drop l (p ++ rest))
              else refused t [])
          else lost)
        known
    ∙ ap
        (λ (l : ℕ).
          if copies w t [] l (take l (p ++ rest))
          then copy_frames fuel w t (flag == 1) (take l (p ++ rest)) (drop l (p ++ rest))
          else refused t [])
        (uint-put_uint 2 (length p) (omega arith))
    ∙ ap₂
        (λ (a b : Bytes).
          if copies w t [] (length p) a then copy_frames fuel w t (flag == 1) a b else refused t [])
        (take-append (length p) p rest refl) (drop-append (length p) p rest refl)
    ∙ if_copies w t [] p (copy_frames fuel w t (flag == 1) p rest) (refused t []) copied

pub message_relayed :
    (w : Writer) (t : ℕ) (ps : List Bytes) (tail : Bytes)
    → w.accepts t ≡ true
    → TakesAll w t (flatten ps)
    → All IsPayload ps
    → write_ws w (t ∷ (framed ps ++ (stop ++ tail))) ≡ relayed t (flatten ps) tail
message_relayed w t [] tail known taken good =
    first_read w t 1 [] tail known (omega arith) refl
    ∙ ended (suc (length tail)) w t [] [] tail refl taken.1
message_relayed w t (p ∷ ps) tail known taken good =
    ap (λ (x : Bytes). write_ws w (t ∷ x)) (framed_rest p ps (stop ++ tail))
    ∙ first_read w t 0 p (framed ps ++ (stop ++ tail)) known good.0.1
        (copies_taken w t (length p) [] p (taken.0 [] p (flatten ps) good.0 refl))
    ∙ frames_copied (suc (length (p ++ (framed ps ++ (stop ++ tail))))) w t (flatten (p ∷ ps)) p ps
        tail taken refl good.1
        (omega (
          arith,
          length_le-framed ps,
          length-append p (framed ps ++ (stop ++ tail)),
          length-append (framed ps) (stop ++ tail),
        ))
