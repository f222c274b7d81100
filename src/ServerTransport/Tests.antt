-- ===== src/ServerTransport/Tests.antt =====
-- Runs of the server transport on small inputs.
use httpadapter.Common.{
  ℕ, zero, suc, Bool, false, ltb, length, All, replicate, ◌≡◌, refl, some, List, [], ◌∷◌, ◌++◌,
  arith, flatten,
}
use httpadapter.Common.Bytes.{Bytes, put_uint}
use httpadapter.Common.KeyMap.{lookup}
use httpadapter.Core.Protocol.{command_ping, command_create}
use httpadapter.Transport.{IoChannel, new_io_channel}
use httpadapter.ServerTransport.{Options, Transport, new_server_transport, goes, hangs, step, serve}
use httpadapter.ServerTransport.End.{Ends, serve_ends}
use httpadapter.ServerTransport.Hanging.{IsUnknown, confirms, room_after, confirms_hang}
use httpadapter.ServerTransport.Answers.{Answer, create_answers}
use httpadapter.ServerTransport.Data.{write_command, pipe_pieces, Given, write_reaches_channel}

abbrev options : Options
options = record { window = 8; channels = 2 }

abbrev channel : IoChannel
channel = new_io_channel 5 0 8 100

abbrev one_channel : Transport
one_channel = record (new_server_transport 100) { keys = (5, channel) ∷ []; next = 1 }

write_reaches_channel_example :
    (t' : Transport) × (pieces : List Bytes) × (step options 128 one_channel
        (write_command 5 (1 ∷ 2 ∷ []) ++ 9 ∷ [])
      ≡ goes t' (9 ∷ []))
    × (flatten pieces ≡ 1 ∷ 2 ∷ [])
    × Given 5 one_channel (pipe_pieces pieces channel) t'
unfolding lookup
write_reaches_channel_example =
    write_reaches_channel options 128 one_channel 5 channel (1 ∷ 2 ∷ []) (9 ∷ []) (omega arith)
      (omega arith) (omega arith) refl

create_answers_example :
    (t' : Transport) × (step options 128 one_channel (command_create ∷ (put_uint 8 6 ++ 9 ∷ []))
      ≡ goes t' (9 ∷ []))
    × Answer options one_channel 6 t'
create_answers_example = create_answers options 128 one_channel 6 (9 ∷ []) (omega arith) refl

abbrev session : Bytes
session = command_ping ∷ command_create ∷ (put_uint 8 6 ++ write_command 6 (1 ∷ []))

-- The queue has room as long as less than two frames were sent.
abbrev room : ℕ → Transport → Bool
room n t = ltb (length t.sent) 2

serve_ends_example : Ends room (serve 40 options 128 room one_channel session)
unfolding put_uint
serve_ends_example =
    serve_ends 40 options 128 room one_channel session (omega arith) ((tt, tt), λ h. omega arith)

-- 51 confirm commands for the channel 6, which is not there.
replicate-IsUnknown : (n : ℕ) → All (IsUnknown one_channel) (replicate n 6)
unfolding lookup
replicate-IsUnknown zero = tt
replicate-IsUnknown (suc n) = ((omega arith, refl), replicate-IsUnknown n)

fifty_one : length (replicate {A = ℕ} 51 6) ≡ 51
fifty_one = refl

confirms_hang_example :
    (t' : Transport) × (serve 60 options 128
        (room_after 0)
        one_channel
        (confirms (replicate 51 6) ++ [])
      ≡ some (hangs t'))
    × (t'.keys ≡ one_channel.keys)
    × (t'.gone ≡ false)
confirms_hang_example =
    confirms_hang 60 options 128 0 one_channel (replicate 51 6) [] refl (replicate-IsUnknown 51)
      (omega arith) (omega (arith, fifty_one)) (omega (arith, fifty_one))
