-- ===== src/Calls/Guards.antt =====
-- What must hold of a call before the server makes a request to a backend.
use httpadapter.Common.{
  ℕ, ◌≤◌, ◌≡◌, refl, sym, ap, ◌∙◌, inl, inr, Bool, true, false, Option, some, List, [], ◌∷◌, ◌++◌,
  arith, ltb, if◌then◌else◌, ltb→le, Bool-cases, Option-cases, length, take, drop,
}
use httpadapter.Common.Bytes.{Bytes, codes, uint}
use httpadapter.Common.Io.{ReadFull, full, cut, read_full, read_full-eq-full, read_full_whole}
use httpadapter.Calls.{ClientMetadata, Uri, max_int64, is_one_of, unmarshal}
use httpadapter.Calls.Handler.{
  Served, Reason, to_unary, to_tcp, to_websocket, says, quits, method_not_supported,
  scheme_not_supported, methods, dispatch, on_hooked, on_uri, on_metadata, on_metadata_bytes,
  on_head, serve,
}

abbrev pub http_schemes : List Bytes
http_schemes = codes "http" ∷ codes "https" ∷ []

-- What the handler hands to `unary`.
abbrev GoesOn : ClientMetadata → ℕ → Bytes → ClientMetadata → ℕ → Bytes → Uri → Type 0
GoesOn md n rest md' n' rest' uri =
    (md ≡ md')
    × (n ≡ n')
    × (rest ≡ rest')
    × (is_one_of uri.scheme http_schemes ≡ true)
    × (is_one_of md.method methods ≡ true)

by_tests :
    (a b c d : Bool) (x y : Served) (md md' : ClientMetadata) (n n' : ℕ) (rest rest' : Bytes)
    → ¬ (x ≡ to_unary md' n' rest')
    → ¬ (y ≡ to_unary md' n' rest')
    → (if a
        then x
        else if b
        then y
        else if c
        then if d then to_unary md n rest else says 400 method_not_supported
        else says 400 scheme_not_supported)
      ≡ to_unary md' n' rest'
    → (md ≡ md') × (n ≡ n') × (rest ≡ rest') × (c ≡ true) × (d ≡ true)
by_tests a b c d x y md md' n n' rest rest' no_x no_y e = ground arith

says_not :
    (status : ℕ) (why : Reason) (md : ClientMetadata) (n : ℕ) (rest : Bytes)
    → ¬ (says status why ≡ to_unary md n rest)
says_not status why md n rest e = cc

dispatch-unary :
    (md md' : ClientMetadata) (n n' : ℕ) (rest rest' : Bytes) (uri : Uri)
    → dispatch md n rest uri ≡ to_unary md' n' rest'
    → GoesOn md n rest md' n' rest' uri
dispatch-unary md md' n n' rest rest' uri e =
    by_tests _ _ _ _ (to_tcp uri md n rest) (to_websocket md n rest) md md' n n' rest rest'
      (λ h. cc) (λ h. cc) e

quits_not : (md : ClientMetadata) (n : ℕ) (rest : Bytes) → ¬ (quits ≡ to_unary md n rest)
quits_not md n rest e = cc

if_true : {b : Bool} (x y : Served) → b ≡ true → (if b then x else y) ≡ x
if_true x y e = rw e refl

if_false : {b : Bool} (x y : Served) → b ≡ false → (if b then x else y) ≡ y
if_false x y e = rw e refl

-- What a message that arrived is made of: the head `h`, which has the length of the metadata and that of
-- the body, the metadata `b`, and the rest.
abbrev pub IsMessage : Bytes → Bytes → Bytes → ℕ → Bytes → Type 0
IsMessage input h b n rest =
    (input ≡ h ++ (b ++ rest))
    × (length h ≡ 10)
    × (length b ≡ uint (take 2 h))
    × (n ≡ uint (drop 2 h))

module _ (decode : Bytes → Option ClientMetadata) (canonical : Bytes → Bytes)
    (parse : Bytes → Option Uri) (print : Uri → Bytes) (hook : Uri → Option Uri) where
  -- The metadata that came, its url as it was parsed, and as the hook returned it.
  abbrev pub HookedUrl : ClientMetadata → ClientMetadata → Uri → Uri → Type 0
  HookedUrl sent md asked allowed =
      (parse sent.url ≡ some asked)
      × (hook asked ≡ some allowed)
      × (md.url ≡ print allowed)
      × (md.method ≡ sent.method)
      × (md.header ≡ sent.header)
      × (is_one_of allowed.scheme http_schemes ≡ true)
      × (is_one_of md.method methods ≡ true)

  hooked :
      (sent md : ClientMetadata) (n n' : ℕ) (rest rest' : Bytes) (asked : Uri)
      → parse sent.url ≡ some asked
      → on_hooked print sent n rest (hook asked) ≡ to_unary md n' rest'
      → (allowed : Uri) × HookedUrl sent md asked allowed × (n ≡ n') × (rest ≡ rest')
  hooked sent md n n' rest rest' asked p e = elim (Option-cases (hook asked)) [
    | inl h ↦ absurd (says_not _ _ _ _ _ (sym (ap (on_hooked print sent n rest) h) ∙ e))
    | inr (allowed, h) ↦
        let (same, lens, rests, scheme, method) =
          dispatch-unary (record sent { url = print allowed }) md n n' rest rest' allowed
            (sym (ap (on_hooked print sent n rest) h) ∙ e) in
        (
          allowed,
          (
            p,
            h,
            sym (ap (λ (m : ClientMetadata). m.url) same),
            sym (ap (λ (m : ClientMetadata). m.method) same),
            sym (ap (λ (m : ClientMetadata). m.header) same),
            scheme,
            ap (λ (m : ClientMetadata). is_one_of m.method methods) (sym same) ∙ method,
          ),
          lens,
          rests,
        )
  ]

  parsed :
      (sent md : ClientMetadata) (n n' : ℕ) (rest rest' : Bytes)
      → on_uri (some hook) print sent n rest (parse sent.url) ≡ to_unary md n' rest'
      → (asked : Uri) × (allowed : Uri) × HookedUrl sent md asked allowed
        × (n ≡ n')
        × (rest ≡ rest')
  parsed sent md n n' rest rest' e = elim (Option-cases (parse sent.url)) [
    | inl h ↦ absurd (says_not _ _ _ _ _ (sym (ap (on_uri (some hook) print sent n rest) h) ∙ e))
    | inr (asked, h) ↦
        let (allowed, good, lens, rests) =
          hooked sent md n n' rest rest' asked h
            (sym (ap (on_uri (some hook) print sent n rest) h) ∙ e) in
        (asked, allowed, good, lens, rests)
  ]

  bounded :
      (sent md : ClientMetadata) (n n' : ℕ) (rest rest' : Bytes)
      → on_metadata decode canonical parse print (some hook) n rest (some sent)
        ≡ to_unary md n' rest'
      → (n ≤ max_int64)
        × (on_uri (some hook) print sent n rest (parse sent.url) ≡ to_unary md n' rest')
  bounded sent md n n' rest rest' e = elim (Bool-cases (ltb max_int64 n)) [
    | inl h ↦ absurd (says_not _ _ _ _ _ (sym (if_true _ _ h) ∙ e))
    | inr h ↦ (ltb→le max_int64 n h, sym (if_false _ _ h) ∙ e)
  ]

  on_bytes :
      (n n' : ℕ) (b rest rest' : Bytes) (md : ClientMetadata)
      → on_metadata decode canonical parse print (some hook) n rest (unmarshal canonical (decode b))
        ≡ to_unary md n' rest'
      → (sent : ClientMetadata) × (unmarshal canonical (decode b) ≡ some sent)
        × (on_metadata decode canonical parse print (some hook) n rest (some sent)
            ≡ to_unary md n' rest')
  on_bytes n n' b rest rest' md e = elim (Option-cases (unmarshal canonical (decode b))) [
    | inl h ↦ absurd (
        says_not _ _ _ _ _
          (sym (ap (on_metadata decode canonical parse print (some hook) n rest) h) ∙ e))
    | inr (sent, h) ↦
        (sent, h, sym (ap (on_metadata decode canonical parse print (some hook) n rest) h) ∙ e)
  ]

  on_full :
      (n n' : ℕ) (r : ReadFull) (rest' : Bytes) (md : ClientMetadata)
      → on_metadata_bytes decode canonical parse print (some hook) n r ≡ to_unary md n' rest'
      → (b : Bytes) × (rest : Bytes) × (r ≡ full b rest)
        × (on_metadata decode canonical parse print
              (some hook)
              n
              rest
              (unmarshal canonical (decode b))
            ≡ to_unary md n' rest')
  on_full n n' (cut x) rest' md e = absurd (quits_not _ _ _ e)
  on_full n n' (full b rest) rest' md e = (b, rest, refl, e)

  on_first :
      (n' : ℕ) (r : ReadFull) (rest' : Bytes) (md : ClientMetadata)
      → on_head decode canonical parse print (some hook) r ≡ to_unary md n' rest'
      → (b : Bytes) × (rest : Bytes) × (r ≡ full b rest)
        × (on_metadata_bytes decode canonical parse print
              (some hook)
              (uint (drop 2 b))
              (read_full (uint (take 2 b)) rest)
            ≡ to_unary md n' rest')
  on_first n' (cut x) rest' md e = absurd (quits_not _ _ _ e)
  on_first n' (full b rest) rest' md e = (b, rest, refl, e)

  -- A server with a hook hands a call on to `unary` only for what the hook allowed. Whatever arrives on
  -- the channel: if it is handed on, then it begins with a head of ten bytes and as many bytes of metadata
  -- as the head says, and the rest is left for the body; the url of the call is one that the hook returned
  -- for the url of just this metadata, with the scheme http or https; its method and its header are those
  -- of the metadata, and the method is among the six; the length of the body is that of the head, and
  -- below 2^63. What the http client does with the request, a redirect included, is not part of this.
  pub only_allowed_requests :
      (input rest : Bytes) (md : ClientMetadata) (n : ℕ)
      → serve decode canonical parse print (some hook) input ≡ to_unary md n rest
      → (h : Bytes) × (b : Bytes) × (sent : ClientMetadata) × (asked : Uri) × (allowed : Uri)
        × IsMessage input h b n rest
        × (unmarshal canonical (decode b) ≡ some sent)
        × HookedUrl sent md asked allowed
        × (n ≤ max_int64)
  unfolding serve
  only_allowed_requests input rest md n e =
      let (h, more, e1, e2) = on_first n (read_full 10 input) rest md e in
      let (b, after, e3, e4) = on_full _ n (read_full (uint (take 2 h)) more) rest md e2 in
      let (sent, known, e5) = on_bytes _ n b after rest md e4 in
      let (small, e6) = bounded sent md _ n after rest e5 in
      let (asked, allowed, good, lens, rests) = parsed sent md _ n after rest e6 in
      let whole =
        read_full_whole 10 input h more e1
        ∙ ap (◌++◌ h) (read_full_whole (uint (take 2 h)) more b after e3 ∙ ap (◌++◌ b) rests) in
      (
        h,
        b,
        sent,
        asked,
        allowed,
        (
          whole,
          (read_full-eq-full 10 input h more e1).0,
          (read_full-eq-full (uint (take 2 h)) more b after e3).0,
          sym lens,
        ),
        known,
        good,
        omega (arith, small, lens),
      )
