-- ===== src/ClientTransport/Dispatch/Opening.antt =====
-- A channel that a client asks for: `Create`, the server's answer, and what the client makes of it.
use native.Mathlib.Nat.{mod-eq_of_lt}
use httpadapter.Common.{
  ℕ, ◌+◌, ◌^◌, ◌<◌, ◌≡◌, refl, sym, ap, subst, ◌∙◌, inl, inr, false, Option, none, some, [], ◌∷◌,
  ◌++◌, arith, length, length-replicate,
}
use httpadapter.Common.Bytes.{Bytes, put_uint}
use httpadapter.Common.KeyMap.{lookup, insert, adjust, lookup-insert, lookup-adjust}
use httpadapter.Core.Protocol.{command_create}
use httpadapter.Pipe.PipeReader.{new_pipe_reader}
use httpadapter.Pipe.ReadWriter.{new_read_writer}
use httpadapter.Transport.{IoChannel, new_io_channel, create_frame}
use httpadapter.ServerTransport
use httpadapter.ServerTransport.{Options}
use httpadapter.ServerTransport.Answers.{create_answers}
use httpadapter.ClientTransport.Dispatch.{
  Transport, Entry, goes, received, create, create_request, create_result, opened, open_key, step,
}
use httpadapter.ClientTransport.Dispatch.Panics.{step_waiting}

-- The channel's ring takes as much as the other end may send without a confirmation.
abbrev pub Fits : IoChannel → IoChannel → Type 0
Fits c d = (length c.pipe.rw.buffer ≡ d.remote_window) × (length d.pipe.rw.buffer ≡ c.remote_window)

new_io_channel-Fits :
    (id id' h h' w w' : ℕ) → Fits (new_io_channel id h w w') (new_io_channel id' h' w' w)
unfolding new_io_channel new_pipe_reader new_read_writer
new_io_channel-Fits id id' h h' w w' = (length-replicate w 0, length-replicate w' 0)

-- A request of the client that no caller has given up yet.
abbrev waiting : Entry
waiting = record { channel = none; request = some (record { ctx_done = false }) }

created_entry :
    (t : Transport)
    → t.id + 1 < 2 ^ 64
    → create false t
      ≡ (some (t.id + 1), record t { id = t.id + 1; keys = insert (t.id + 1) waiting t.keys })
unfolding create
created_entry t small =
    ap (λ (id : ℕ). (some id, record t { id = id; keys = insert id waiting t.keys }))
      (mod-eq_of_lt small)

no_channel : {c : IoChannel} → ¬ (◌≡◌ {A = Option IoChannel} none (some c))
no_channel e = cc

-- The server's half: the one frame it answers with, and its new channel.
server_opens :
    (o : Options) (size_b : ℕ) (s : ServerTransport.Transport) (id : ℕ) (rest : Bytes)
    → id < 2 ^ 64
    → s.gone ≡ false
    → lookup id s.keys ≡ none
    → (0 < o.channels → length s.keys < o.channels)
    → (s' : ServerTransport.Transport) × (ServerTransport.step o size_b s
          (command_create ∷ (put_uint 8 id ++ rest))
        ≡ ServerTransport.goes s' rest)
      × (s'.sent ≡ s.sent ++ create_frame id 0 ∷ [])
      × (lookup id s'.keys ≡ some (new_io_channel id s.next o.window s.remote_window))
server_opens o size_b s id rest small live free room =
    let (s', e, a) = create_answers o size_b s id rest small live in
    let kept : (s'.sent ≡ s.sent ++ create_frame id 0 ∷ [])
        × (lookup id s'.keys ≡ some (new_io_channel id s.next o.window s.remote_window)) =
      elim a [
        | inl (sent, none_there, space, keys, next) ↦ (
          sent,
          ap (lookup id) keys
              ∙ lookup-insert id id (new_io_channel id s.next o.window s.remote_window) s.keys
              ∙ ground arith,
        )
        | inr (inl (sent, (c, there), keys)) ↦ absurd (no_channel (sym free ∙ there))
        | inr (inr (sent, none_there, limit, full_up, keys)) ↦ absurd (omega (arith, room limit))
      ] in
    (s', e, kept.0, kept.1)

-- After the handshake told each end the other's window, and with room on the server and a new id,
-- the request of a `Create` whose caller waits opens the channel at both ends: the server answers it
-- with one frame, the client gives the channel to its caller on that frame, and the ring of each end
-- is as large as the window that the other end sends by. Neither takes other bytes off its input.
pub create_opens :
    (o : Options) (size_s size_c : ℕ) (t : Transport) (s : ServerTransport.Transport)
    (rest more : Bytes)
    → t.id + 1 < 2 ^ 64
    → s.gone ≡ false
    → lookup (t.id + 1) s.keys ≡ none
    → (0 < o.channels → length s.keys < o.channels)
    → t.remote_window ≡ o.window
    → s.remote_window ≡ t.window
    → (asked : Transport) × (s' : ServerTransport.Transport) × (t' : Transport) × (c d : IoChannel)
      × (create false t ≡ (some (t.id + 1), asked))
      × (ServerTransport.step o size_s s (create_request (t.id + 1) ++ rest)
          ≡ ServerTransport.goes s' rest)
      × (s'.sent ≡ s.sent ++ create_frame (t.id + 1) 0 ∷ [])
      × (step received size_c asked (create_frame (t.id + 1) 0 ++ more) ≡ goes t' more)
      × (lookup (t.id + 1) t'.keys ≡ some (record { channel = some c; request = none }))
      × (t'.answers ≡ t.answers ++ record { id = t.id + 1; code = 0; value = some c } ∷ [])
      × (lookup (t.id + 1) s'.keys ≡ some d)
      × Fits c d
unfolding create_request open_key create_result opened
create_opens o size_s size_c t s rest more small live free room their ours =
    let id = t.id + 1 in
    let asked : Transport = record t { id = id; keys = insert id waiting t.keys } in
    let c = new_io_channel id t.next t.window t.remote_window in
    let d = new_io_channel id s.next o.window s.remote_window in
    let entry : Entry = record { channel = some c; request = none } in
    let there : lookup id asked.keys ≡ some waiting =
      lookup-insert id id waiting t.keys ∙ ground arith in
    let (s', e, sent, there') = server_opens o size_s s id rest small live free room in
    let t' : Transport = record asked {
      keys = adjust id entry asked.keys;
      next = t.next + 1;
      answers = t.answers ++ record { id = id; code = 0; value = some c } ∷ [];
    } in
    (
      asked,
      s',
      t',
      c,
      d,
      created_entry t small,
      e,
      sent,
      step_waiting received size_c asked id 0 more waiting (record { ctx_done = false }) small
          (omega arith) there refl refl refl,
      lookup-adjust id id entry waiting asked.keys there ∙ ground arith,
      refl,
      there',
      subst (λ w. Fits (new_io_channel id t.next t.window w) d) (sym their)
          (subst
            (λ w.
              Fits (new_io_channel id t.next t.window o.window)
                (new_io_channel id s.next o.window w))
            (sym ours) (new_io_channel-Fits id id t.next s.next t.window o.window)),
    )
