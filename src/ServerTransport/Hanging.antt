-- ===== src/ServerTransport/Hanging.antt =====
-- `Serve` when nobody reads from the queue of the writer any more.
use httpadapter.Common.{
  ℕ, zero, suc, ◌+◌, ◌^◌, ◌≤◌, ◌<◌, ◌≡◌, refl, ap, ◌∙◌, inl, inr, Bool, true, false, ◌||◌, Option,
  none, some, List, [], ◌∷◌, ◌++◌, append_assoc, arith, ltb, if◌then◌else◌, ltb→lt, Bool-cases,
  length, length-append, take-append, drop-append, All,
}
use httpadapter.Common.Bytes.{Bytes, put_uint, uint, length-put_uint, uint-put_uint}
use httpadapter.Common.Io.{read_full-append}
use httpadapter.Common.KeyMap.{lookup}
use httpadapter.Core.Protocol.{command_confirm}
use httpadapter.Transport.{close_frame}
use httpadapter.ServerTransport.{
  Options, Transport, closes, send, step, on_command, on_confirm, confirm_key, hangs, Served, serve,
  queue_size,
}

-- The queue of a writer that takes `taken` frames before `serveWrite` returns, where nobody but `Serve`
-- gives it any: it has room for those and as many as it holds.
abbrev pub room_after : ℕ → ℕ → Transport → Bool
room_after taken n t = ltb (length t.sent) (taken + queue_size)

-- A confirm command.
abbrev pub confirm_frame : ℕ → ℕ → Bytes
confirm_frame id val = command_confirm ∷ (put_uint 8 id ++ put_uint 2 val)

abbrev pub confirms : List ℕ → Bytes
confirms [] = []
confirms (id ∷ ids) = confirm_frame id 1 ++ confirms ids

abbrev pub IsUnknown : Transport → ℕ → Type 0
IsUnknown t id = (id < 2 ^ 64) × (lookup id t.keys ≡ none)

unknown_closes :
    (t : Transport) (id val : ℕ) (rest : Bytes)
    → lookup id t.keys ≡ none
    → confirm_key t id val rest ≡ closes id t rest
unfolding confirm_key
unknown_closes t id val rest e = rw (e, confirm_key) refl

step_confirm :
    (o : Options) (size_b : ℕ) (t : Transport) (id : ℕ) (rest : Bytes)
    → IsUnknown t id
    → step o size_b t (confirm_frame id 1 ++ rest) ≡ closes id t rest
unfolding step on_command on_confirm
step_confirm o size_b t id rest (small, unknown) =
    let wide = length-put_uint 8 id in
    let value = put_uint 2 1 in
    let short = length-put_uint 2 1 in
    rw
      (
        read_full-append 10 (put_uint 8 id ++ value) rest
            (length-append (put_uint 8 id) value ∙ omega (arith, wide, short)),
        take-append 8 (put_uint 8 id) value wide,
        drop-append 8 (put_uint 8 id) value wide,
        uint-put_uint 8 id small,
      )
      (unknown_closes t id (uint value) rest unknown)

send_open :
    (b : Bytes) (t : Transport) → t.gone ≡ false → send b t ≡ record t { sent = t.sent ++ (b ∷ []) }
unfolding send
send_open b t e = rw e refl

pick :
    (g b : Bool) (x y z : Option Served)
    → g ≡ false
    → x ≡ y
    → (if g || b then x else z) ≡ (if b then y else z)
pick true b x y z g e = cc g
pick false b x y z g e = ap (λ (w : Option Served). if b then w else z) e

-- A round with an unknown id.
round :
    (fuel : ℕ) (o : Options) (size_b taken : ℕ) (t : Transport) (id : ℕ) (rest : Bytes)
    → t.gone ≡ false
    → IsUnknown t id
    → serve (suc fuel) o size_b (room_after taken) t (confirm_frame id 1 ++ rest) ≡ (
        if ltb (length t.sent) (taken + queue_size)
        then serve fuel o size_b
            (room_after taken)
            (record t { sent = t.sent ++ (close_frame id ∷ []) })
            rest
        else some (hangs t))
unfolding serve
round fuel o size_b taken t id rest open_still unknown =
    rw (step_confirm o size_b t id rest unknown, serve)
      (pick t.gone (ltb (length t.sent) (taken + queue_size)) _ _ (some (hangs t)) open_still (
        ap (λ (u : Transport). serve fuel o size_b (room_after taken) u rest)
          (send_open (close_frame id) t open_still)))

-- When `serveWrite` has returned, for an error of the connection, and the queue is full, `Serve` waits for
-- ever in the `sendClose` for the next confirm command whose channel is not there, without the done signal
-- and with every channel as it was. So it is after more such commands, for ids of 64 bits, than there is
-- room for: the writer takes `taken` frames before it returns, the queue holds 50, and nobody else gives it
-- any.
pub confirms_hang :
    (fuel : ℕ) (o : Options) (size_b taken : ℕ) (t : Transport) (ids : List ℕ) (rest : Bytes)
    → t.gone ≡ false
    → All (IsUnknown t) ids
    → length t.sent ≤ taken + queue_size
    → taken + queue_size < length t.sent + length ids
    → length ids ≤ fuel
    → (t' : Transport) × (serve fuel o size_b (room_after taken) t (confirms ids ++ rest)
        ≡ some (hangs t'))
      × (t'.keys ≡ t.keys)
      × (t'.gone ≡ false)
confirms_hang fuel o size_b taken t [] rest g unknown fits many enough = absurd (omega arith)
confirms_hang zero o size_b taken t (id ∷ ids) rest g unknown fits many enough =
    absurd (omega arith)
confirms_hang (suc fuel) o size_b taken t (id ∷ ids) rest g (here, unknown) fits many enough =
    let next : Transport = record t { sent = t.sent ++ (close_frame id ∷ []) } in
    let run =
      ap (serve (suc fuel) o size_b (room_after taken) t)
        (append_assoc (confirm_frame id 1) (confirms ids) rest)
      ∙ round fuel o size_b taken t id (confirms ids ++ rest) g here in
    elim (Bool-cases (ltb (length t.sent) (taken + queue_size))) [
      | inl e ↦
          let more = length-append t.sent (close_frame id ∷ []) in
          let (t', eq, keys, g') =
            confirms_hang fuel o size_b taken next ids rest g unknown
              (omega (arith, ltb→lt (length t.sent) (taken + queue_size) e, more))
              (omega (arith, more, many)) (omega arith) in
          (t', run ∙ rw e eq, keys, g')
      | inr e ↦ (t, run ∙ rw e refl, refl, g)
    ]
