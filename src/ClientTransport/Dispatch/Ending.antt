-- ===== src/ClientTransport/Dispatch/Ending.antt =====
-- The end of `Serve` of the client transport.
use httpadapter.Common.{
  ℕ, zero, suc, ◌≤◌, ◌<◌, ◌≡◌, refl, sym, ap, subst, ◌∙◌, ◌⊎◌, inl, inr, Bool, true, false, ◌||◌,
  Option, none, some, List, [], ◌∷◌, map, arith, ◌==◌, if◌then◌else◌, Bool-cases, Option-cases,
  length, take, drop,
}
use httpadapter.Common.Bytes.{Bytes, uint}
use httpadapter.Common.Io.{
  ReadFull, full, cut, read_full, ReadFull-cases, read_full-eq-full, IoError,
}
use httpadapter.Common.KeyMap.{lookup}
use httpadapter.Core.Protocol.{
  command_ping, command_pong, command_create, command_close, command_write, command_confirm,
}
use httpadapter.Transport.{
  IoChannel, close_frame, confirm_channel, close_channel, piece_max, Pieces, arrived, short, spins,
}
use httpadapter.Transport.Delivery.{piece_max_lem}
use httpadapter.Transport.Progress.{Outcome, read_pieces-Outcome}
use httpadapter.ServerTransport.End.{close_channel-closed}
use httpadapter.ClientTransport.Dispatch.{
  Transport, Entry, Request, Answer, Step, goes, closes, breaks, send, give_up, channel_at,
  confirm_key, hangs, panics, stuck, Handed, caller_gone, transport_done, received, later,
  create_result, open_key, on_entry, create_key, deliver, write_done, write_key, on_pong, on_create,
  on_close, on_write, on_confirm, on_command, step, closed_value, closed_entry, clean_up, Served,
  finished, crashed, first_case, first_act, serve,
}

-- An entry without a channel is answered whose request is not there any more, or was cancelled.
abbrev pub CanPanic : Transport → Type 0
CanPanic t =
    (id : ℕ) × (e : Entry) × (lookup id t.keys ≡ some e)
    × (e.channel ≡ none)
    × ((e.request ≡ none) ⊎ ((r : Request) × (e.request ≡ some r) × (r.ctx_done ≡ true)))

-- A command leaves no more input than there was, and its loops end.
abbrev Shrinks : Transport → ℕ → Step → Type 0
Shrinks u size (goes t rest) = length rest ≤ size
Shrinks u size (closes id t rest) = length rest ≤ size
Shrinks u size (breaks t) = Unit {0}
Shrinks u size panics = CanPanic u
Shrinks u size stuck = ⊥

Shrinks-mono : (u : Transport) (m n : ℕ) (r : Step) → m ≤ n → Shrinks u m r → Shrinks u n r
Shrinks-mono u m n (goes t rest) le h = omega (arith, h)
Shrinks-mono u m n (closes id t rest) le h = omega (arith, h)
Shrinks-mono u m n (breaks t) le h = tt
Shrinks-mono u m n panics le h = h
Shrinks-mono u m n stuck le h = h

if-Shrinks :
    (u : Transport) (size : ℕ) (b : Bool) (x y : Step)
    → Shrinks u size x
    → Shrinks u size y
    → Shrinks u size (if b then x else y)
if-Shrinks u size true x y h h' = h
if-Shrinks u size false x y h h' = h'

give_up-Shrinks :
    (u : Transport) (id : ℕ) (a : Answer) (t : Transport) (rest : Bytes)
    → Shrinks u (length rest) (give_up id a t rest)
unfolding give_up
give_up-Shrinks u id a t rest = elim (Option-cases a.value) [
  | inl e ↦ rw (e, give_up) (omega arith)
  | inr (c, e) ↦
      rw (e, give_up)
        (elim (Option-cases (lookup id t.keys)) [
          | inl f ↦ rw (f, give_up) (omega arith)
          | inr (x, f) ↦ rw (f, give_up) (omega arith)
        ])
]

create_result-Shrinks :
    (u : Transport) (h : Handed) (a : Answer) (t : Transport) (rest : Bytes)
    → Shrinks u (length rest) (create_result h a t rest)
unfolding create_result
create_result-Shrinks u caller_gone a t rest = give_up-Shrinks u a.id a t rest
create_result-Shrinks u transport_done a t rest = tt
create_result-Shrinks u received a t rest = omega arith
create_result-Shrinks u later a t rest = omega arith

cancelled-Shrinks :
    (u : Transport) (size : ℕ) (r : Request) (x : Step)
    → (r.ctx_done ≡ true → CanPanic u)
    → Shrinks u size x
    → Shrinks u size (if r.ctx_done then panics else x)
cancelled-Shrinks u size r x f h = elim (Bool-cases r.ctx_done) [
  | inl e ↦ rw e (f e)
  | inr e ↦ rw e h
]

on_entry-Shrinks :
    (h : Handed) (id code : ℕ) (t : Transport) (rest : Bytes) (e : Entry)
    → lookup id t.keys ≡ some e
    → Shrinks t (length rest) (on_entry h id code t rest e)
unfolding on_entry open_key
on_entry-Shrinks h id code t rest e there = elim (Option-cases e.channel) [
  | inr (c, f) ↦ rw (f, on_entry) (omega arith)
  | inl f ↦
      rw (f, on_entry)
        (elim (Option-cases e.request) [
          | inl g ↦ rw (g, on_entry) (id, e, there, f, inl g)
          | inr (r, g) ↦
              rw (g, on_entry)
                (cancelled-Shrinks t (length rest) r _ (λ d. (id, e, there, f, inr (r, g, d)))
                  (create_result-Shrinks t h _ _ rest))
        ])
]

create_key-Shrinks :
    (h : Handed) (id code : ℕ) (t : Transport) (rest : Bytes)
    → Shrinks t (length rest) (create_key h id code t rest)
unfolding create_key
create_key-Shrinks h id code t rest = elim (Option-cases (lookup id t.keys)) [
  | inl e ↦ rw (e, create_key) (omega arith)
  | inr (e, f) ↦ rw (f, create_key) (on_entry-Shrinks h id code t rest e f)
]

confirm_key-Shrinks :
    (t : Transport) (id val : ℕ) (rest : Bytes)
    → Shrinks t (length rest) (confirm_key t id val rest)
unfolding confirm_key
confirm_key-Shrinks t id val rest = elim (Option-cases (channel_at id t)) [
  | inl e ↦ rw (e, confirm_key) (omega arith)
  | inr ((e, c), f) ↦
      rw (f, confirm_key)
        (if-Shrinks t (length rest) (confirm_channel c val).1 _ _ (omega arith) (omega arith))
]

write_done-Shrinks :
    (u : Transport) (size : ℕ) (r : Pieces Transport)
    → Outcome (λ t. Unit {0}) size r
    → Shrinks u size (write_done r)
unfolding write_done
write_done-Shrinks u size (arrived t rest) h = h.1
write_done-Shrinks u size (short t) h = tt
write_done-Shrinks u size spins h = h

write_key-Shrinks :
    (size_b : ℕ) (t : Transport) (id size : ℕ) (input : Bytes)
    → Shrinks t (length input) (write_key size_b t id size input)
unfolding write_key
write_key-Shrinks size_b t id size input = write_done-Shrinks t (length input) _ (
    read_pieces-Outcome (deliver id) (λ t. Unit {0}) (λ bs a h. tt) (suc size)
      (piece_max size_b size) size t input (omega arith) (λ h. (piece_max_lem size_b size h).0) tt)

-- What is behind a command: a run of bytes, or an end of the input.
module _ (t : Transport) (n : ℕ) (input : Bytes) (on : ReadFull → Step)
    (at_cut : (e : IoError) → Shrinks t (length input) (on (cut e)))
    (at_full : (bs rest : Bytes) → Shrinks t (length rest) (on (full bs rest))) where
  behind-Shrinks : Shrinks t (length input) (on (read_full n input))
  behind-Shrinks = elim (ReadFull-cases (read_full n input)) [
    | inl (e, f) ↦ rw f (at_cut e)
    | inr (bs, rest, f) ↦ rw f (
        Shrinks-mono t (length rest) (length input) (on (full bs rest))
          (omega (arith, (read_full-eq-full n input bs rest f).1)) (at_full bs rest))
  ]

on_command-Shrinks :
    (h : Handed) (size_b : ℕ) (t : Transport) (cmd : ℕ) (input : Bytes)
    → Shrinks t (length input) (on_command h size_b t cmd input)
unfolding on_command on_pong on_create on_close on_write on_confirm
on_command-Shrinks h size_b t cmd input =
    if-Shrinks t (length input) (cmd == command_ping) _ _ (omega arith) (
      if-Shrinks t (length input) (cmd == command_pong) _ _
        (behind-Shrinks t 4 input (on_pong t) (λ e. tt) (λ bs rest. omega arith))
        (if-Shrinks t (length input) (cmd == command_create) _ _
          (behind-Shrinks t 9 input (on_create h t) (λ e. tt)
            (λ bs rest. create_key-Shrinks h (uint (take 8 bs)) (uint (drop 8 bs)) t rest))
          (if-Shrinks t (length input) (cmd == command_close) _ _
            (behind-Shrinks t 8 input (on_close t) (λ e. tt) (λ bs rest. omega arith))
            (if-Shrinks t (length input) (cmd == command_write) _ _
              (behind-Shrinks t 10 input (on_write size_b t) (λ e. tt)
                (λ bs rest. write_key-Shrinks size_b t (uint (take 8 bs)) (uint (drop 8 bs)) rest))
              (if-Shrinks t (length input) (cmd == command_confirm) _ _
                (behind-Shrinks t 10 input (on_confirm t) (λ e. tt)
                  (λ bs rest. confirm_key-Shrinks t (uint (take 8 bs)) (uint (drop 8 bs)) rest))
                tt)))))

-- No channel in the map is open.
abbrev pub NoneOpen : List (ℕ × Entry) → Type 0
NoneOpen [] = Unit {0}
NoneOpen ((k, e) ∷ m) = ((c : IoChannel) → e.channel ≡ some c → c.closed ≡ true) × NoneOpen m

closed_value-closed :
    (o : Option IoChannel) (c : IoChannel) → closed_value o ≡ some c → c.closed ≡ true
closed_value-closed none c e = cc
closed_value-closed (some d) c e =
    let same : close_channel d ≡ c = cc in
    ap (λ (x : IoChannel). x.closed) (sym same) ∙ close_channel-closed d

closed-NoneOpen :
    (m : List (ℕ × Entry)) → NoneOpen (map (λ (p : ℕ × Entry). (p.0, closed_entry p.1)) m)
closed-NoneOpen [] = tt
closed-NoneOpen ((k, e) ∷ m) = (closed_value-closed e.channel, closed-NoneOpen m)

-- How `Serve` may end, or wait for ever in a `sendClose`.
abbrev pub Ended : (ℕ → Transport → Bool) → Option Served → Type 0
Ended room none = ⊥
Ended room (some (finished t)) = NoneOpen t.keys × (t.gone ≡ true)
Ended room (some (crashed t)) = CanPanic t
Ended room (some (hangs t)) = (t.gone ≡ false) × (n : ℕ) × (room n t ≡ false)

serve_empty :
    (fuel : ℕ) (acts : List (Transport → Transport)) (hs : List Handed) (size_b : ℕ)
    (room : ℕ → Transport → Bool) (t : Transport)
    → serve (suc fuel) acts hs size_b room t [] ≡ some (finished (clean_up (first_act acts t)))
unfolding serve step
serve_empty fuel acts hs size_b room t = refl

Step-cases :
    (r : Step)
    → ((t : Transport) × (rest : Bytes) × (r ≡ goes t rest))
      ⊎ ((id : ℕ) × (t : Transport) × (rest : Bytes) × (r ≡ closes id t rest))
      ⊎ ((t : Transport) × (r ≡ breaks t))
      ⊎ (r ≡ panics)
      ⊎ (r ≡ stuck)
Step-cases (goes t rest) = inl (t, rest, refl)
Step-cases (closes id t rest) = inr (inl (id, t, rest, refl))
Step-cases (breaks t) = inr (inr (inl (t, refl)))
Step-cases panics = inr (inr (inr (inl refl)))
Step-cases stuck = inr (inr (inr (inr refl)))

clean_up-Ended :
    (room : ℕ → Transport → Bool) (t : Transport) → Ended room (some (finished (clean_up t)))
unfolding clean_up
clean_up-Ended room t = (closed-NoneOpen t.keys, refl)

select-Ended :
    (room : ℕ → Transport → Bool) (t : Transport) (n : ℕ) (more : Option Served) (gone ready : Bool)
    → t.gone ≡ gone
    → room n t ≡ ready
    → Ended room more
    → Ended room (if gone || ready then more else some (hangs t))
select-Ended room t n more true ready g e h = h
select-Ended room t n more false true g e h = h
select-Ended room t n more false false g e h = (g, n, e)

-- Whatever the other goroutines do between the commands, whatever becomes of the answers, however the
-- queue of the writer fares and whatever arrives: the loop of `Serve` ends, with every channel in the
-- map closed and the done signal given; or it panics, and then an entry of the map has no channel, and no
-- request or a cancelled one; or it waits for ever in a `sendClose`, without the done signal, in a state
-- in which the queue never has room again.
pub client_serve_ends :
    (fuel : ℕ) (acts : List (Transport → Transport)) (hs : List Handed) (size_b : ℕ)
    (room : ℕ → Transport → Bool) (t : Transport) (input : Bytes)
    → length input < fuel
    → Ended room (serve fuel acts hs size_b room t input)
unfolding serve step
client_serve_ends zero acts hs size_b room t input h = absurd (omega arith)
client_serve_ends (suc fuel) acts hs size_b room t [] h =
    subst (Ended room) (sym (serve_empty fuel acts hs size_b room t))
      (clean_up-Ended room (first_act acts t))
client_serve_ends (suc fuel) acts hs size_b room t (cmd ∷ input) h =
    let u = first_act acts t in
    let shrinks = on_command-Shrinks (first_case hs) size_b u cmd input in
    elim (Step-cases (on_command (first_case hs) size_b u cmd input)) [
      | inl (t', rest, e) ↦
          let le = subst (Shrinks u (length input)) e shrinks in
          rw (e, serve)
            (client_serve_ends fuel (drop 1 acts) (drop 1 hs) size_b room t' rest
              (omega (arith, le)))
      | inr (inl (id, t', rest, e)) ↦
          let le = subst (Shrinks u (length input)) e shrinks in
          rw (e, serve)
            (select-Ended room t' (length rest) _ t'.gone (room (length rest) t') refl refl (
              client_serve_ends fuel (drop 1 acts) (drop 1 hs) size_b room
                (send (close_frame id) t') rest (omega (arith, le))))
      | inr (inr (inl (t', e))) ↦ rw (e, serve) (clean_up-Ended room t')
      | inr (inr (inr (inl e))) ↦ rw (e, serve) (subst (Shrinks u (length input)) e shrinks)
      | inr (inr (inr (inr e))) ↦ absurd (subst (Shrinks u (length input)) e shrinks)
    ]
