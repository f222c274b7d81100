-- ===== src/ServerTransport/Answers.antt =====
-- What a create command does, and its answer.
use httpadapter.Common.{
  ℕ, zero, ◌+◌, ◌^◌, ◌≤◌, ◌<◌, ◌≡◌, refl, sym, ap₂, subst, ◌∙◌, ◌≢◌, ◌⊎◌, inl, inr, Bool, false,
  ◌&&◌, none, some, [], ◌∷◌, ◌++◌, arith, ltb, leb, ◌==◌, if◌then◌else◌, ne→==, Bool-cases,
  Option-cases, length,
}
use httpadapter.Common.Bytes.{Bytes, put_uint, length-put_uint, uint-put_uint}
use httpadapter.Common.Io.{read_full-append}
use httpadapter.Common.KeyMap.{lookup, insert}
use httpadapter.Core.Protocol.{command_create}
use httpadapter.Transport.{IoChannel, new_io_channel, create_frame}
use httpadapter.ServerTransport.{
  Options, Transport, goes, breaks, send, post_write, create_code, create, on_create, on_command,
  step,
}

-- The three answers, each with what it says of the map before and after.
abbrev pub Answer : Options → Transport → ℕ → Transport → Type 0
Answer o t id t' =
    ((t'.sent ≡ t.sent ++ create_frame id 0 ∷ [])
      × (lookup id t.keys ≡ none)
      × (0 < o.channels → length t.keys < o.channels)
      × (t'.keys ≡ insert id (new_io_channel id t.next o.window t.remote_window) t.keys)
      × (t'.next ≡ t.next + 1))
    ⊎ ((t'.sent ≡ t.sent ++ create_frame id 1 ∷ [])
        × ((c : IoChannel) × (lookup id t.keys ≡ some c))
        × (t'.keys ≡ t.keys))
    ⊎ ((t'.sent ≡ t.sent ++ create_frame id 2 ∷ [])
        × (lookup id t.keys ≡ none)
        × (0 < o.channels)
        × (o.channels ≤ length t.keys)
        × (t'.keys ≡ t.keys))

-- The code as a decision.
abbrev Decided : Options → Transport → ℕ → Type 0
Decided o t id =
    ((create_code o t id ≡ 0)
      × (lookup id t.keys ≡ none)
      × (0 < o.channels → length t.keys < o.channels))
    ⊎ ((create_code o t id ≡ 1) × ((c : IoChannel) × (lookup id t.keys ≡ some c)))
    ⊎ ((create_code o t id ≡ 2)
        × (lookup id t.keys ≡ none)
        × (0 < o.channels)
        × (o.channels ≤ length t.keys))

room_code :
    (m n : ℕ)
    → (((if ltb 0 m && leb m n then 2 else zero) ≡ 0) × (0 < m → n < m))
      ⊎ (((if ltb 0 m && leb m n then 2 else zero) ≡ 2) × (0 < m) × (m ≤ n))
room_code m n = ground arith

create_code-Decided : (o : Options) (t : Transport) (id : ℕ) → Decided o t id
unfolding create_code
create_code-Decided o t id = elim (Option-cases (lookup id t.keys)) [
  | inr (c, e) ↦ rw (e, create_code) (inr (inl (refl, (c, refl))))
  | inl e ↦
      rw (e, create_code)
        (elim (room_code o.channels (length t.keys)) [
          | inl (f, g) ↦ inl (f, refl, g)
          | inr (f, g, h) ↦ inr (inr (f, refl, g, h))
        ])
]

abbrev made : Options → Transport → ℕ → Transport
made o t id = record t {
  keys = insert id (new_io_channel id t.next o.window t.remote_window) t.keys;
  next = t.next + 1;
}

create-made :
    (o : Options) (t : Transport) (id : ℕ) → create_code o t id ≡ 0 → create o t id ≡ made o t id
unfolding create
create-made o t id e = rw (e, create) refl

create_same : (o : Options) (t : Transport) (id : ℕ) → create_code o t id ≢ 0 → create o t id ≡ t
unfolding create
create_same o t id ne = rw (ne→== (create_code o t id) 0 ne, create) refl

create-gone : (o : Options) (t : Transport) (id : ℕ) → (create o t id).gone ≡ t.gone
unfolding create
create-gone o t id = elim (Bool-cases (create_code o t id == 0)) [
  | inl e ↦ rw (e, create) refl
  | inr e ↦ rw (e, create) refl
]

post_write_live :
    (b : Bytes) (t : Transport) (rest : Bytes)
    → t.gone ≡ false
    → post_write b t rest ≡ goes (record t { sent = t.sent ++ b ∷ [] }) rest
unfolding post_write send
post_write_live b t rest live =
    subst
      (λ (g : Bool).
        (if g then breaks t else goes (if g then t else record t { sent = t.sent ++ b ∷ [] }) rest)
        ≡ goes (record t { sent = t.sent ++ b ∷ [] }) rest)
      (sym live) refl

abbrev answered : ℕ → Transport → ℕ → Transport
answered id t k = record t { sent = t.sent ++ create_frame id k ∷ [] }

made-Answer :
    (o : Options) (t : Transport) (id : ℕ)
    → lookup id t.keys ≡ none
    → (0 < o.channels → length t.keys < o.channels)
    → Answer o t id (record (made o t id) { sent = (made o t id).sent ++ create_frame id 0 ∷ [] })
made-Answer o t id none_there room = inl (refl, none_there, room, refl, refl)

step-create :
    (o : Options) (size_b : ℕ) (t : Transport) (id : ℕ) (rest : Bytes)
    → id < 2 ^ 64
    → step o size_b t (command_create ∷ (put_uint 8 id ++ rest))
      ≡ post_write (create_frame id (create_code o t id)) (create o t id) rest
unfolding step on_command on_create
step-create o size_b t id rest small =
    rw (read_full-append 8 (put_uint 8 id) rest (length-put_uint 8 id), uint-put_uint 8 id small)
      refl

-- Before the done signal, a create command for any 64 bit channel id takes exactly its own bytes
-- off the input and is answered with exactly one frame. The answer is true: code 0 where the id
-- was free and the limit not reached, and then a new channel is in the map; 1 where the id was in
-- use, and 2 where the limit was reached, and then the map is as before.
pub create_answers :
    (o : Options) (size_b : ℕ) (t : Transport) (id : ℕ) (rest : Bytes)
    → id < 2 ^ 64
    → t.gone ≡ false
    → (t' : Transport) × (step o size_b t (command_create ∷ (put_uint 8 id ++ rest)) ≡ goes t' rest)
      × Answer o t id t'
create_answers o size_b t id rest small live =
    let code = create_code o t id in
    let u = create o t id in
    (
      answered id u code,
      step-create o size_b t id rest small
          ∙ post_write_live (create_frame id code) u rest (create-gone o t id ∙ live),
      elim (create_code-Decided o t id) [
        | inl (e, none_there, room) ↦
            subst (Answer o t id) (ap₂ (answered id) (sym (create-made o t id e)) (sym e))
              (made-Answer o t id none_there room)
        | inr (inl (e, there)) ↦
            subst (Answer o t id)
              (ap₂ (answered id) (sym (create_same o t id (omega (arith, e)))) (sym e))
              (inr (inl (refl, there, refl)))
        | inr (inr (e, none_there, limit, full_up)) ↦
            subst (Answer o t id)
              (ap₂ (answered id) (sym (create_same o t id (omega (arith, e)))) (sym e))
              (inr (inr (refl, none_there, limit, full_up, refl)))
      ],
    )
