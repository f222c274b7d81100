-- ===== src/Calls/Passing.antt =====
-- Calls that pass the checks of the client and of the server.
use httpadapter.Common.{
  ℕ, ◌≤◌, ◌<◌, ◌≡◌, refl, sym, ap, subst, ◌∙◌, ◌⊎◌, inl, inr, Bool, true, false, not, ◌&&◌, ◌||◌,
  Option, none, some, [], ◌∷◌, arith, if◌then◌else◌, ne→==, le→ltb, Bool-cases, length, take,
  length-take,
}
use httpadapter.Common.Bytes.{Bytes, codes, bytes_eq, bytes_eq→eq}
use httpadapter.Calls.{ClientMetadata, Uri, max_int64, is_one_of, get_header}
use httpadapter.Calls.Client.{
  CallError, MessageRequest, check, check_url, check_call, with_body, without_body,
}
use httpadapter.Calls.Handler.{
  to_unary, BackendResponse, ok, methods, dispatch, content_length, max_unsized, forward,
  send_unsized, metadata_of,
}
use httpadapter.Calls.Guards.{http_schemes}

second_test : (a b : Bool) → a ≡ false → (a || (b || false)) ≡ true → b ≡ true
second_test a b h e = ground arith

abbrev NoTunnel : Bytes → Type 0
NoTunnel s =
    (is_one_of s (codes "tcp" ∷ codes "tls" ∷ []) ≡ false)
    × (is_one_of s (codes "ws" ∷ codes "wss" ∷ []) ≡ false)

no_tunnel : (s : Bytes) → is_one_of s http_schemes ≡ true → NoTunnel s
unfolding bytes_eq
no_tunnel s e = elim (Bool-cases (bytes_eq s (codes "http"))) [
  | inl h ↦ subst NoTunnel (sym (bytes_eq→eq s (codes "http") h)) (refl, refl)
  | inr h ↦
      let is_https : bytes_eq s (codes "https") ≡ true = second_test _ _ h e in
      subst NoTunnel (sym (bytes_eq→eq s (codes "https") is_https)) (refl, refl)
]

either_method :
    (m : Bytes)
    → (is_one_of m with_body || is_one_of m without_body) ≡ true
    → is_one_of m methods ≡ true
either_method m e = ground arith

passed :
    (b : Bool) (x : Option CallError) (e : CallError)
    → (if b then x else some e) ≡ none
    → (b ≡ true) × (x ≡ none)
passed b x e h = ground arith

check_call_pass :
    (req : MessageRequest) → check_call req ≡ none → is_one_of req.method methods ≡ true
check_call_pass req e =
    either_method req.method
      (passed (is_one_of req.method with_body || is_one_of req.method without_body) _ _ e).0

pub first_of_both : (a b : Bool) → (a && b) ≡ true → a ≡ true
first_of_both a b e = ground arith

-- A call that `Unary` does not refuse.
pub check_pass :
    (parse : Bytes → Option Uri) (req : MessageRequest) (uri : Uri)
    → check parse req ≡ none
    → parse req.url ≡ some uri
    → (is_one_of uri.scheme http_schemes ≡ true) × (is_one_of req.method methods ≡ true)
unfolding check
check_pass parse req uri e p =
    let f = sym (ap (check_url req) p) ∙ e in
    let g = passed (is_one_of uri.scheme http_schemes && not (bytes_eq uri.host [])) _ _ f in
    (first_of_both _ _ g.0, check_call_pass req g.1)

-- The handler serves it.
pub dispatch_http :
    (md : ClientMetadata) (n : ℕ) (rest : Bytes) (uri : Uri)
    → is_one_of uri.scheme http_schemes ≡ true
    → is_one_of md.method methods ≡ true
    → dispatch md n rest uri ≡ to_unary md n rest
dispatch_http md n rest uri scheme method =
    let (no_tcp, no_ws) = no_tunnel uri.scheme scheme in rw (no_tcp, no_ws, scheme, method) refl

-- A response whose length is known to the server: by its header, or since it is short.
abbrev pub IsSized : (Bytes → Option ℕ) → BackendResponse → Type 0
IsSized parse_uint r =
    ((bytes_eq (get_header content_length r.header) [] ≡ false)
      × (parse_uint (get_header content_length r.header) ≡ some (length r.body))
      × (length r.body ≤ max_int64))
    ⊎ ((bytes_eq (get_header content_length r.header) [] ≡ true)
        × (r.readable ≡ true)
        × (length r.body < max_unsized))

pub forward_sized :
    (parse_uint : Bytes → Option ℕ) (r : BackendResponse)
    → IsSized parse_uint r
    → (forward parse_uint r ≡ ok (metadata_of r) (length r.body) r.body)
      × (length r.body ≤ max_int64)
unfolding forward send_unsized
forward_sized parse_uint r (inl (set, known, small)) =
    (rw (set, known, le→ltb max_int64 (length r.body) small) refl, small)
forward_sized parse_uint r (inr (unset, readable, short)) = (
  rw
      (
        unset,
        readable,
        ne→== (length (take max_unsized r.body)) max_unsized
            (omega (arith, length-take max_unsized r.body)),
      )
      refl,
  omega arith,
)
