-- ===== src/ClientTransport/Dispatch/Tests.antt =====
-- Runs of the client transport on small inputs.
use httpadapter.Common.{ℕ, Bool, ◌+◌, ◌≡◌, refl, true, false, none, some, [], ◌∷◌, ◌++◌, arith}
use httpadapter.Common.KeyMap.{lookup}
use httpadapter.Core.Protocol.{command_ping}
use httpadapter.Transport.{IoChannel, create_frame}
use httpadapter.ServerTransport
use httpadapter.ServerTransport.{Options, new_server_transport}
use httpadapter.ClientTransport.Dispatch.{
  Transport, Entry, Request, new_transport, goes, received, later, create, create_request, step,
  serve,
}
use httpadapter.ClientTransport.Dispatch.Opening.{Fits, create_opens}
use httpadapter.ClientTransport.Dispatch.Ending.{Ended, client_serve_ends}

abbrev waiting_request : Request
waiting_request = record { ctx_done = false }

abbrev waiting_entry : Entry
waiting_entry = record { channel = none; request = some waiting_request }

abbrev one_waiting : Transport
one_waiting = record (new_transport 8 100) { keys = (1, waiting_entry) ∷ []; id = 1 }

abbrev options : Options
options = record { window = 100; channels = 1 }

create_opens_example :
    let t = new_transport 8 100 in
    let s = new_server_transport 8 in
    (asked : Transport) × (s' : ServerTransport.Transport) × (t' : Transport) × (c : IoChannel)
    × (d : IoChannel) × (create false t ≡ (some (t.id + 1), asked))
    × (ServerTransport.step options 256 s (create_request (t.id + 1) ++ [])
        ≡ ServerTransport.goes s' [])
    × (s'.sent ≡ s.sent ++ create_frame (t.id + 1) 0 ∷ [])
    × (step received 128 asked (create_frame (t.id + 1) 0 ++ 9 ∷ []) ≡ goes t' (9 ∷ []))
    × (lookup (t.id + 1) t'.keys ≡ some (record { channel = some c; request = none }))
    × (t'.answers ≡ t.answers ++ record { id = t.id + 1; code = 0; value = some c } ∷ [])
    × (lookup (t.id + 1) s'.keys ≡ some d)
    × Fits c d
unfolding lookup
create_opens_example =
    create_opens options 256 128 (new_transport 8 100) (new_server_transport 8) [] (9 ∷ [])
      (omega arith) refl refl (λ h. omega arith) refl refl

abbrev always : ℕ → Transport → Bool
always n t = true

client_serve_ends_example :
    Ended always (serve 4 [] (later ∷ []) 128 always one_waiting (command_ping ∷ 9 ∷ []))
client_serve_ends_example =
    client_serve_ends 4 [] (later ∷ []) 128 always one_waiting (command_ping ∷ 9 ∷ []) (omega arith)
