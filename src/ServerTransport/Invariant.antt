-- ===== src/ServerTransport/Invariant.antt =====
-- What every command keeps of the server transport's map, and the end of `Serve`.
use httpadapter.Common.{
  ℕ, zero, suc, ◌≤◌, ◌<◌, ◌≡◌, refl, inl, inr, Bool, true, false, ◌&&◌, none, ◌∷◌, arith, ltb, leb,
  ◌==◌, if◌then◌else◌, ==→eq, Bool-cases, Option-cases, length, take, drop,
}
use httpadapter.Common.Bytes.{Bytes, uint}
use httpadapter.Common.Io.{ReadFull, full, cut, read_full, ReadFull-cases, read_full-eq-full}
use httpadapter.Common.KeyMap.{
  lookup, adjust, Distinct, erase-Distinct, insert-Distinct, adjust-Distinct, length-erase,
  length-insert, length-adjust,
}
use httpadapter.Core.Protocol.{
  command_ping, command_pong, command_create, command_close, command_write, command_confirm,
}
use httpadapter.Transport.{
  new_io_channel, pipe_bytes, confirm_channel, create_frame, piece_max, arrived, short, spins,
  Pieces,
}
use httpadapter.Transport.Delivery.{piece_max_lem}
use httpadapter.Transport.Progress.{Outcome, read_pieces-Outcome}
use httpadapter.ServerTransport.{
  Options, Transport, Step, goes, closes, breaks, stuck, send, post_write, create_code, create,
  close_key, deliver, confirm_key, write_done, write_key, on_pong, on_create, on_close, on_write,
  on_confirm, on_command, step,
}

-- An id has one channel, and the limit on the number of channels holds.
abbrev pub IsValid : Options → Transport → Type 0
IsValid o t = Distinct t.keys × (0 < o.channels → length t.keys ≤ o.channels)

pub send-IsValid : (o : Options) (b : Bytes) (t : Transport) → IsValid o t → IsValid o (send b t)
unfolding send
send-IsValid o b t v = elim (Bool-cases t.gone) [ inl e ↦ rw e v | inr e ↦ rw e v ]

deliver-IsValid :
    (o : Options) (id : ℕ) (bs : Bytes) (t : Transport) → IsValid o t → IsValid o (deliver id bs t)
unfolding deliver
deliver-IsValid o id bs t v = elim (Option-cases (lookup id t.keys)) [
  | inl e ↦ rw (e, deliver) v
  | inr (c, e) ↦
      rw (e, deliver)
        (
          adjust-Distinct id (pipe_bytes c bs) t.keys v.0,
          λ h. rw (length-adjust id (pipe_bytes c bs) t.keys) (v.1 h),
        )
]

has_room : (m n : ℕ) → (if ltb 0 m && leb m n then 2 else zero) ≡ 0 → 0 < m → n < m
has_room m n h pos = ground arith

-- A create command succeeds exactly for a new id under the limit.
pub create_code_zero :
    (o : Options) (t : Transport) (id : ℕ)
    → create_code o t id ≡ 0
    → (lookup id t.keys ≡ none) × (0 < o.channels → length t.keys < o.channels)
unfolding create_code
create_code_zero o t id = elim (Option-cases (lookup id t.keys)) [
  | inr (c, e) ↦ rw (e, create_code) (λ h. absurd (omega (arith, h)))
  | inl e ↦ rw (e, create_code) (λ h. (refl, has_room o.channels (length t.keys) h))
]

create-IsValid : (o : Options) (t : Transport) (id : ℕ) → IsValid o t → IsValid o (create o t id)
unfolding create
create-IsValid o t id v = elim (Bool-cases (create_code o t id == 0)) [
  | inr e ↦ rw (e, create) v
  | inl e ↦
      let room = create_code_zero o t id (==→eq (create_code o t id) 0 e) in
      rw (e, create)
        (
          insert-Distinct id (new_io_channel id t.next o.window t.remote_window) t.keys v.0,
          λ h. omega (
            arith,
            length-insert id (new_io_channel id t.next o.window t.remote_window) t.keys,
            room.1 h,
          ),
        )
]

close_key-IsValid :
    (o : Options) (t : Transport) (id : ℕ) → IsValid o t → IsValid o (close_key t id)
unfolding close_key
close_key-IsValid o t id v = elim (Option-cases (lookup id t.keys)) [
  | inl e ↦ rw (e, close_key) v
  | inr (c, e) ↦
      rw (e, close_key)
        (erase-Distinct id t.keys v.0, λ h. omega (arith, length-erase id t.keys, v.1 h))
]

-- After a command the state is valid, and the input is no longer than before.
abbrev pub Fine : Options → ℕ → Step → Type 0
Fine o size (goes t rest) = IsValid o t × (length rest ≤ size)
Fine o size (closes id t rest) = IsValid o t × (length rest ≤ size)
Fine o size (breaks t) = IsValid o t
Fine o size stuck = ⊥

Fine-mono : (o : Options) (m n : ℕ) (r : Step) → m ≤ n → Fine o m r → Fine o n r
Fine-mono o m n (goes t rest) le h = (h.0, omega (arith, h.1))
Fine-mono o m n (closes id t rest) le h = (h.0, omega (arith, h.1))
Fine-mono o m n (breaks t) le h = h
Fine-mono o m n stuck le h = h

if-Fine :
    (o : Options) (size : ℕ) (b : Bool) (x y : Step)
    → Fine o size x
    → Fine o size y
    → Fine o size (if b then x else y)
if-Fine o size true x y h h' = h
if-Fine o size false x y h h' = h'

confirm_key-Fine :
    (o : Options) (id val : ℕ) (t : Transport) (rest : Bytes)
    → IsValid o t
    → Fine o (length rest) (confirm_key t id val rest)
unfolding confirm_key
confirm_key-Fine o id val t rest v = elim (Option-cases (lookup id t.keys)) [
  | inl e ↦ rw (e, confirm_key) (v, omega arith)
  | inr (c, e) ↦
      let c' = (confirm_channel c val).0 in
      let t' : Transport = record t { keys = adjust id c' t.keys } in
      let v' : IsValid o t' =
        (adjust-Distinct id c' t.keys v.0, λ h. rw (length-adjust id c' t.keys) (v.1 h)) in
      rw (e, confirm_key)
        (if-Fine o (length rest) (confirm_channel c val).1 (closes id t' rest) (goes t' rest)
          (v', omega arith) (v', omega arith))
]

post_write-Fine :
    (o : Options) (b : Bytes) (t : Transport) (rest : Bytes)
    → IsValid o t
    → Fine o (length rest) (post_write b t rest)
unfolding post_write
post_write-Fine o b t rest v =
    if-Fine o (length rest) t.gone (breaks t) (goes (send b t) rest) v
      (send-IsValid o b t v, omega arith)

write_done-Fine :
    (o : Options) (size : ℕ) (r : Pieces Transport)
    → Outcome (IsValid o) size r
    → Fine o size (write_done r)
unfolding write_done
write_done-Fine o size (arrived t rest) h = h
write_done-Fine o size (short t) h = h
write_done-Fine o size spins h = h

write_key-Fine :
    (o : Options) (size_b : ℕ) (t : Transport) (id size : ℕ) (input : Bytes)
    → IsValid o t
    → Fine o (length input) (write_key size_b t id size input)
unfolding write_key
write_key-Fine o size_b t id size input v = write_done-Fine o (length input) _ (
    read_pieces-Outcome (deliver id) (IsValid o) (deliver-IsValid o id) (suc size)
      (piece_max size_b size) size t input (omega arith) (λ h. (piece_max_lem size_b size h).0) v)

-- What is behind a command: a run of bytes, or an end of the input.
module _ (o : Options) (n : ℕ) (input : Bytes) (on : ReadFull → Step)
    (at_cut : (e : _) → Fine o (length input) (on (cut e)))
    (at_full : (bs rest : Bytes) → Fine o (length rest) (on (full bs rest))) where
  behind-Fine : Fine o (length input) (on (read_full n input))
  behind-Fine = elim (ReadFull-cases (read_full n input)) [
    | inl (e, f) ↦ rw f (at_cut e)
    | inr (bs, rest, f) ↦ rw f (
        Fine-mono o (length rest) (length input) (on (full bs rest))
          (omega (arith, (read_full-eq-full n input bs rest f).1)) (at_full bs rest))
  ]

on_command-Fine :
    (o : Options) (size_b : ℕ) (t : Transport) (cmd : ℕ) (input : Bytes)
    → IsValid o t
    → Fine o (length input) (on_command o size_b t cmd input)
unfolding on_command on_pong on_create on_close on_write on_confirm
on_command-Fine o size_b t cmd input v =
    if-Fine o (length input) (cmd == command_ping) _ _ (v, omega arith)
      (if-Fine o (length input) (cmd == command_pong) _ _
        (behind-Fine o 4 input (on_pong t) (λ e. v)
          (λ bs rest. (send-IsValid o (command_pong ∷ bs) t v, omega arith)))
        (if-Fine o (length input) (cmd == command_create) _ _
          (behind-Fine o 8 input (on_create o t) (λ e. v)
            (λ bs rest.
              post_write-Fine o (create_frame (uint bs) (create_code o t (uint bs)))
                (create o t (uint bs)) rest (create-IsValid o t (uint bs) v)))
          (if-Fine o (length input) (cmd == command_close) _ _
            (behind-Fine o 8 input (on_close t) (λ e. v)
              (λ bs rest. (close_key-IsValid o t (uint bs) v, omega arith)))
            (if-Fine o (length input) (cmd == command_write) _ _
              (behind-Fine o 10 input (on_write size_b t) (λ e. v)
                (λ bs rest. write_key-Fine o size_b t (uint (take 8 bs)) (uint (drop 8 bs)) rest v))
              (if-Fine o (length input) (cmd == command_confirm) _ _
                (behind-Fine o 10 input (on_confirm t) (λ e. v)
                  (λ bs rest. confirm_key-Fine o (uint (take 8 bs)) (uint (drop 8 bs)) t rest v))
                v)))))

-- A round of the loop of `Serve`.
pub step-Fine :
    (o : Options) (size_b : ℕ) (t : Transport) (cmd : ℕ) (input : Bytes)
    → IsValid o t
    → Fine o (length input) (step o size_b t (cmd ∷ input))
unfolding step
step-Fine o size_b t cmd input v = on_command-Fine o size_b t cmd input v
