-- ===== src/Calls/Reply.antt =====
-- The reading of an answer: with metadata that fit, and with metadata that do not.
use httpadapter.Common.{
  ℕ, ◌+◌, ◌%◌, ◌≤◌, ◌<◌, ◌≡◌, refl, sym, ap, ◌∙◌, Option, none, some, [], ◌++◌, append_assoc, arith,
  ne→==, le→ltb, length, take, drop, length-take, take-append-drop,
}
use httpadapter.Common.Bytes.{Bytes}
use native.Mathlib.Decide.{ℕ_discrete}
use httpadapter.Common.Io.{read_full, read_full-append}
use httpadapter.Calls.{ServerMetadata, max_int64}
use httpadapter.Calls.Client.{
  CallError, answered, failed, metalen_invalid, metadata_invalid, canonical_header, body_of,
  on_server_metadata, on_lengths, on_metadata_bytes, read_response,
}
use httpadapter.Calls.Handler.{message}
use httpadapter.Calls.Layout.{response_head}

lengths_pass :
    (decode : Bytes → Option ServerMetadata) (canonical : Bytes → Bytes) (k n : ℕ) (rest : Bytes)
    → 0 < k
    → n ≤ max_int64
    → on_lengths decode canonical k n rest ≡ on_metadata_bytes decode canonical n (read_full k rest)
lengths_pass decode canonical k n rest pos small =
    rw (ne→== k 0 (omega arith), le→ltb max_int64 n small) refl

-- The client reads a message of the server.
module _ (decode : Bytes → Option ServerMetadata) (canonical : Bytes → Bytes)
    (encode : ServerMetadata → Bytes) where
  pub reply_read :
      (md : ServerMetadata) (n : ℕ) (body : Bytes)
      → 0 < length (encode md)
      → length (encode md) ≤ 65535
      → n ≤ max_int64
      → decode (encode md) ≡ some md
      → read_response decode canonical (message encode md n body)
        ≡ answered
            (record {
              status = md.status;
              header = canonical_header canonical md.header [];
              body = body_of n;
              body_len = n;
            })
            body
  reply_read md n body pos fits small known =
      let same : length (encode md) % 65536 ≡ length (encode md) = omega arith in
      response_head decode canonical (length (encode md)) n (encode md ++ body) small
      ∙ ap (λ (k : ℕ). on_lengths decode canonical k n (encode md ++ body)) same
      ∙ lengths_pass decode canonical (length (encode md)) n (encode md ++ body) pos small
      ∙ ap (on_metadata_bytes decode canonical n)
          (read_full-append (length (encode md)) (encode md) body refl)
      ∙ ap (on_server_metadata decode canonical n body) known

  cut_read :
      (md : ServerMetadata) (n : ℕ) (body : Bytes) (k : ℕ)
      → 0 < k
      → k + 1 < length (encode md)
      → n ≤ max_int64
      → ((k : ℕ) → k + 1 < length (encode md) → decode (take k (encode md)) ≡ none)
      → on_lengths decode canonical k n (encode md ++ body) ≡ failed metadata_invalid
  cut_read md n body k pos less small cuts =
      let m = encode md in
      lengths_pass decode canonical k n (m ++ body) pos small
      ∙ ap (on_metadata_bytes decode canonical n) (
          ap (λ (t : Bytes). read_full k (t ++ body)) (sym (take-append-drop k m))
          ∙ ap (read_full k) (append_assoc (take k m) (drop k m) body)
          ∙ read_full-append k (take k m) (drop k m ++ body) (omega (arith, length-take k m)))
      ∙ ap (on_server_metadata decode canonical n (drop k m ++ body)) (cuts k less)

  -- A metadata of more than 65535 bytes is announced with its length modulo 2^16, so the client
  -- takes a part of it for the whole. If nothing that lacks more than its last byte can be decoded, as
  -- is so for a JSON object and a newline, then the client gets an error in place of the response.
  pub long_metadata_fails :
      (md : ServerMetadata) (n : ℕ) (body : Bytes)
      → 65535 < length (encode md)
      → n ≤ max_int64
      → ((k : ℕ) → k + 1 < length (encode md) → decode (take k (encode md)) ≡ none)
      → (e : CallError) × (read_response decode canonical (message encode md n body) ≡ failed e)
  long_metadata_fails md n body long small cuts =
      let k = length (encode md) % 65536 in
      let start = response_head decode canonical (length (encode md)) n (encode md ++ body) small in
      elim (ℕ_discrete k 0) [
        | yes e ↦ (metalen_invalid, start ∙ rw e refl)
        | no ne ↦
            (metadata_invalid, start ∙ cut_read md n body k (omega arith) (omega arith) small cuts)
      ]
