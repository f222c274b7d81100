-- ===== src/Calls/NilBody.antt =====
-- A call with a length and without a body.
use httpadapter.Common.{
  ℕ, ◌≤◌, ◌<◌, ◌≡◌, refl, ap, ap₂, ◌∙◌, true, Option, none, some, arith, ne→==, le→ltb, length,
}
use httpadapter.Common.Bytes.{Bytes}
use httpadapter.Common.Io.{panics}
use httpadapter.Calls.{ClientMetadata, ServerMetadata, Uri, max_int64}
use httpadapter.Calls.Client.{
  Fate, MessageRequest, copy_body, check, metadata_of, on_request, checked, unary, call,
}
use httpadapter.Calls.Trip.{request_fits}

copy_panics : (n : ℕ) → 0 < n → n ≤ max_int64 → copy_body none n ≡ panics
unfolding copy_body
copy_panics n pos small = rw (ne→== n 0 (omega arith), le→ltb max_int64 n small) refl

unary_panics :
    (decode : Bytes → Option ServerMetadata) (canonical : Bytes → Bytes) (md : Bytes) (n : ℕ)
    (f : Fate)
    → 0 < n
    → n ≤ max_int64
    → length md ≤ 65535
    → f.connects ≡ true
    → f.writes ≡ true
    → unary decode canonical none n (some md) f ≡ panics
unfolding unary
unary_panics decode canonical md n f pos small fits connects writes =
    ap (on_request decode canonical none n f) (request_fits md n fits)
    ∙ rw (connects, writes, copy_panics n pos small) refl

-- A call whose body is nil and whose length is not zero, which `Unary` does not refuse, panics once
-- the channel has taken its metadata: the length that `Unary` checks is not the one it passes on.
pub nil_body_panics :
    (decode : Bytes → Option ServerMetadata) (canonical : Bytes → Bytes)
    (parse : Bytes → Option Uri) (encode : ClientMetadata → Option Bytes) (req : MessageRequest)
    (md : Bytes) (f : Fate)
    → check parse req ≡ none
    → req.body ≡ none
    → 0 < req.body_len
    → req.body_len ≤ max_int64
    → encode (metadata_of req) ≡ some md
    → length md ≤ 65535
    → f.connects ≡ true
    → f.writes ≡ true
    → call decode canonical parse encode req f ≡ panics
unfolding call
nil_body_panics decode canonical parse encode req md f passes no_body pos small encodes fits
      connects writes =
    ap (checked decode canonical req (encode (metadata_of req)) f) passes
    ∙ ap₂ (λ (b md' : Option Bytes). unary decode canonical b req.body_len md' f) no_body encodes
    ∙ unary_panics decode canonical md req.body_len f pos small fits connects writes
