-- ===== src/ClientTransport/Dispatch/Panics.antt =====
-- Answers to a create command that make the client panic.
use httpadapter.Common.{
  ℕ, ◌+◌, ◌^◌, ◌<◌, ◌≡◌, refl, ◌∙◌, ◌≢◌, true, false, none, some, [], ◌∷◌, ◌++◌, arith, ne→==,
  length-append, take-append, drop-append,
}
use httpadapter.Common.Bytes.{Bytes, put_uint, uint, uint_single, length-put_uint, uint-put_uint}
use httpadapter.Common.Io.{read_full-append}
use httpadapter.Common.KeyMap.{lookup, adjust, lookup-adjust}
use httpadapter.Transport.{create_frame}
use httpadapter.ClientTransport.Dispatch.{
  Transport, Entry, Request, goes, panics, Handed, received, create_result, opened, open_key,
  on_entry, create_key, on_create, on_command, step,
}

-- An answer is taken whole off the input.
pub step_answer :
    (h : Handed) (size_b : ℕ) (t : Transport) (id code : ℕ) (rest : Bytes)
    → id < 2 ^ 64
    → code < 256
    → step h size_b t (create_frame id code ++ rest) ≡ create_key h id code t rest
unfolding step on_command on_create create_frame
step_answer h size_b t id code rest small byte =
    let wide = length-put_uint 8 id in
    let code_byte : uint (code ∷ []) ≡ code = uint_single code in
    rw
      (
        read_full-append 9 (put_uint 8 id ++ code ∷ []) rest
            (length-append (put_uint 8 id) (code ∷ []) ∙ omega (arith, wide)),
        take-append 8 (put_uint 8 id) (code ∷ []) wide,
        drop-append 8 (put_uint 8 id) (code ∷ []) wide,
        uint-put_uint 8 id small,
        code_byte,
      )
      refl

key_there :
    (h : Handed) (id code : ℕ) (t : Transport) (rest : Bytes) (e : Entry)
    → lookup id t.keys ≡ some e
    → create_key h id code t rest ≡ on_entry h id code t rest e
unfolding create_key
key_there h id code t rest e f = rw (f, create_key) refl

-- The answer to a request that waits.
pub step_waiting :
    (h : Handed) (size_b : ℕ) (t : Transport) (id code : ℕ) (rest : Bytes) (e : Entry) (r : Request)
    → id < 2 ^ 64
    → code < 256
    → lookup id t.keys ≡ some e
    → e.channel ≡ none
    → e.request ≡ some r
    → r.ctx_done ≡ false
    → step h size_b t (create_frame id code ++ rest) ≡ open_key h id code t rest
unfolding on_entry
step_waiting h size_b t id code rest e r small byte there no_channel asked waiting =
    step_answer h size_b t id code rest small byte
    ∙ key_there h id code t rest e there
    ∙ rw (no_channel, on_entry) (rw (asked, on_entry) (rw waiting refl))

-- The answer to a request whose caller has given up panics, whatever its code: the client closes a
-- channel that was never made.
pub cancelled_answer_panics :
    (h : Handed) (size_b : ℕ) (t : Transport) (id code : ℕ) (rest : Bytes) (e : Entry) (r : Request)
    → id < 2 ^ 64
    → code < 256
    → lookup id t.keys ≡ some e
    → e.channel ≡ none
    → e.request ≡ some r
    → r.ctx_done ≡ true
    → step h size_b t (create_frame id code ++ rest) ≡ panics
unfolding on_entry
cancelled_answer_panics h size_b t id code rest e r small byte there no_channel asked given_up =
    step_answer h size_b t id code rest small byte
    ∙ key_there h id code t rest e there
    ∙ rw (no_channel, on_entry) (rw (asked, on_entry) (rw given_up refl))

-- A request that the server refused stays in the map, without a channel and without a request; a
-- second answer with its id then panics, whatever its code.
pub refused_again_panics :
    (h : Handed) (size_b : ℕ) (t : Transport) (id code code' : ℕ) (rest more : Bytes) (e : Entry)
    (r : Request)
    → id < 2 ^ 64
    → code < 256
    → code ≢ 0
    → code' < 256
    → lookup id t.keys ≡ some e
    → e.channel ≡ none
    → e.request ≡ some r
    → r.ctx_done ≡ false
    → (t' : Transport) × (step received size_b t (create_frame id code ++ rest) ≡ goes t' rest)
      × (lookup id t'.keys ≡ some (record { channel = none; request = none }))
      × (step h size_b t' (create_frame id code' ++ more) ≡ panics)
unfolding open_key create_result opened on_entry
refused_again_panics h size_b t id code code' rest more e r small byte ne byte' there no_channel
      asked waiting =
    let left : Entry = record { channel = none; request = none } in
    let u : Transport = record t { keys = adjust id left t.keys; next = t.next + 1 } in
    let t' : Transport = record u {
      answers = t.answers ++ record { id = id; code = code; value = none } ∷ [];
    } in
    let stays : lookup id t'.keys ≡ some left =
      lookup-adjust id id left e t.keys there ∙ ground arith in
    (
      t',
      step_waiting received size_b t id code rest e r small byte there no_channel asked waiting
          ∙ rw (ne→== code 0 ne, open_key) refl,
      stays,
      step_answer h size_b t' id code' more small byte' ∙ key_there h id code' t' more left stays,
    )
