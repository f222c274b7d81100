-- ===== src/ServerTransport/Data.antt =====
-- What a write command does.
use httpadapter.Common.{
  ℕ, suc, ◌^◌, ◌<◌, ◌≡◌, refl, ap, ◌∙◌, ◌≢◌, none, some, List, [], ◌∷◌, ◌++◌, append_assoc, arith,
  length, length-append, take-append, drop-append, flatten,
}
use httpadapter.Common.Bytes.{Bytes, put_uint, length-put_uint, uint-put_uint}
use httpadapter.Common.Io.{read_full-append}
use httpadapter.Common.KeyMap.{lookup, lookup-adjust}
use httpadapter.Core.Protocol.{command_write}
use httpadapter.Transport.{IoChannel, pipe_bytes, piece_max}
use httpadapter.Transport.Delivery.{fold_pieces, piece_max_lem, read_pieces_arrive}
use httpadapter.ServerTransport.{
  Options, Transport, goes, deliver, write_done, write_key, on_write, on_command, step,
}

-- The bytes of a write command.
abbrev pub write_command : ℕ → Bytes → Bytes
write_command id bs = command_write ∷ (put_uint 8 id ++ put_uint 2 (length bs)) ++ bs

-- The pieces of data given to a channel one after the other.
abbrev pub pipe_pieces : List Bytes → IoChannel → IoChannel
pipe_pieces = fold_pieces (λ p c. pipe_bytes c p)

deliver_missing :
    (id : ℕ) (p : Bytes) (t : Transport) → lookup id t.keys ≡ none → deliver id p t ≡ t
unfolding deliver
deliver_missing id p t e = rw (e, deliver) refl

pieces_none :
    (id : ℕ) (ps : List Bytes) (t : Transport)
    → lookup id t.keys ≡ none
    → fold_pieces (deliver id) ps t ≡ t
pieces_none id [] t e = refl
pieces_none id (p ∷ ps) t e =
    ap (fold_pieces (deliver id) ps) (deliver_missing id p t e) ∙ pieces_none id ps t e

-- The state after data for a channel that is there.
abbrev pub Given : ℕ → Transport → IoChannel → Transport → Type 0
Given id t c t' =
    (lookup id t'.keys ≡ some c)
    × ((j : ℕ) → j ≢ id → lookup j t'.keys ≡ lookup j t.keys)
    × (t'.sent ≡ t.sent)
    × (t'.gone ≡ t.gone)

deliver_there :
    (id : ℕ) (p : Bytes) (t : Transport) (c : IoChannel)
    → lookup id t.keys ≡ some c
    → Given id t (pipe_bytes c p) (deliver id p t)
unfolding deliver
deliver_there id p t c e =
    rw (e, deliver)
      (
        lookup-adjust id id (pipe_bytes c p) c t.keys e ∙ ground arith,
        λ j ne. lookup-adjust id j (pipe_bytes c p) c t.keys e ∙ ground arith,
        refl,
        refl,
      )

pieces_there :
    (id : ℕ) (ps : List Bytes) (t : Transport) (c : IoChannel)
    → lookup id t.keys ≡ some c
    → Given id t (pipe_pieces ps c) (fold_pieces (deliver id) ps t)
pieces_there id [] t c e = (e, λ j ne. refl, refl, refl)
pieces_there id (p ∷ ps) t c e =
    let (here, others, sent, gone) = deliver_there id p t c e in
    let (here', others', sent', gone') =
      pieces_there id ps (deliver id p t) (pipe_bytes c p) here in
    (here', λ j ne. others' j ne ∙ others j ne, sent' ∙ sent, gone' ∙ gone)

step_head :
    (o : Options) (size_b : ℕ) (t : Transport) (id size : ℕ) (rest : Bytes)
    → id < 2 ^ 64
    → size < 2 ^ 16
    → step o size_b t (command_write ∷ ((put_uint 8 id ++ put_uint 2 size) ++ rest))
      ≡ write_key size_b t id size rest
unfolding step on_command on_write
step_head o size_b t id size rest small few =
    let wide = length-put_uint 8 id in
    let size_wide =
      length-append (put_uint 8 id) (put_uint 2 size)
      ∙ omega (arith, wide, length-put_uint 2 size) in
    rw
      (
        read_full-append 10 (put_uint 8 id ++ put_uint 2 size) rest size_wide,
        take-append 8 (put_uint 8 id) (put_uint 2 size) wide,
        drop-append 8 (put_uint 8 id) (put_uint 2 size) wide,
        uint-put_uint 8 id small,
        uint-put_uint 2 size few,
      )
      refl

step_write :
    (o : Options) (size_b : ℕ) (t : Transport) (id : ℕ) (bs rest : Bytes)
    → id < 2 ^ 64
    → length bs < 2 ^ 16
    → step o size_b t (write_command id bs ++ rest) ≡ write_key size_b t id (length bs) (bs ++ rest)
step_write o size_b t id bs rest small few =
    let head = put_uint 8 id ++ put_uint 2 (length bs) in
    ap (λ (x : Bytes). step o size_b t (command_write ∷ x)) (append_assoc head bs rest)
    ∙ step_head o size_b t id (length bs) (bs ++ rest) small few

write_key_arrives :
    (size_b : ℕ) (t : Transport) (id : ℕ) (bs rest : Bytes)
    → 0 < length bs
    → (pieces : List Bytes) × (write_key size_b t id (length bs) (bs ++ rest)
        ≡ goes (fold_pieces (deliver id) pieces t) rest)
      × (flatten pieces ≡ bs)
unfolding write_key write_done
write_key_arrives size_b t id bs rest more =
    let (pieces, e, all, ok) =
      read_pieces_arrive (deliver id) (suc (length bs)) (piece_max size_b (length bs)) t bs rest
        (omega arith) (piece_max_lem size_b (length bs) more).0 in
    (pieces, ap write_done e, all)

-- A write command with 1 to 65535 bytes for a channel in the map takes exactly its own bytes off
-- the input. All of its data, cut into pieces, goes in order to that channel's pipe; the other
-- channels, the writer and the done signal are as before.
pub write_reaches_channel :
    (o : Options) (size_b : ℕ) (t : Transport) (id : ℕ) (c : IoChannel) (bs rest : Bytes)
    → id < 2 ^ 64
    → 0 < length bs
    → length bs < 2 ^ 16
    → lookup id t.keys ≡ some c
    → (t' : Transport) × (pieces : List Bytes) × (step o size_b t (write_command id bs ++ rest)
        ≡ goes t' rest)
      × (flatten pieces ≡ bs)
      × Given id t (pipe_pieces pieces c) t'
write_reaches_channel o size_b t id c bs rest small more few there =
    let (pieces, e, all) = write_key_arrives size_b t id bs rest more in
    (
      fold_pieces (deliver id) pieces t,
      pieces,
      step_write o size_b t id bs rest small few ∙ e,
      all,
      pieces_there id pieces t c there,
    )

-- A write command with 1 to 65535 bytes for a channel that is not in the map takes exactly its own
-- bytes off the input and changes nothing: in particular the client is not told to close the
-- channel.
pub write_without_channel :
    (o : Options) (size_b : ℕ) (t : Transport) (id : ℕ) (bs rest : Bytes)
    → id < 2 ^ 64
    → 0 < length bs
    → length bs < 2 ^ 16
    → lookup id t.keys ≡ none
    → step o size_b t (write_command id bs ++ rest) ≡ goes t rest
write_without_channel o size_b t id bs rest small more few missing =
    let (pieces, e, all) = write_key_arrives size_b t id bs rest more in
    step_write o size_b t id bs rest small few
    ∙ e
    ∙ ap (λ (u : Transport). goes u rest) (pieces_none id pieces t missing)
