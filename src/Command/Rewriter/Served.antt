-- ===== src/Command/Rewriter/Served.antt =====
-- A server that runs with the rules of its configuration.
use httpadapter.Common.{
  ℕ, ◌≤◌, ◌≡◌, refl, ap, ◌∙◌, Bool, true, Option, none, some, List, ◌++◌, le→ltb, length,
}
use httpadapter.Common.Bytes.{Bytes}
use httpadapter.Calls.{ClientMetadata, Uri, max_int64, head, is_one_of, unmarshal}
use httpadapter.Calls.Handler.{to_unary, says, url_refused, serve, on_metadata, on_uri, on_hooked}
use httpadapter.Calls.Layout.{request_read}
use httpadapter.Calls.Guards.{http_schemes, IsMessage, only_allowed_requests}
use httpadapter.Command.Rewriter.{UnaryRewriter, rewrite}
use httpadapter.Command.Rewriter.Rules.{FirstRule, rewrite_iff}

module _ (decode : Bytes → Option ClientMetadata) (canonical : Bytes → Bytes)
    (parse : Bytes → Option Uri) (print : Uri → Bytes) (matches_regexp : Bytes → Bytes → Bool)
    (hostname port : Bytes → Bytes) (rules : List UnaryRewriter) where
  abbrev pub hook : Uri → Option Uri
  hook u = rewrite matches_regexp hostname port rules u

  -- Whatever arrives on a channel of a server with rules: a call is handed on to `unary` only for a url
  -- that the rules let through, the url of the metadata behind the head that arrived; it is handed on with
  -- the url that they make of it, and that has the scheme http or https also where a rule names another.
  pub only_rewritten_requests :
      (input rest : Bytes) (md : ClientMetadata) (n : ℕ)
      → serve decode canonical parse print (some hook) input ≡ to_unary md n rest
      → (h : Bytes) × (b : Bytes) × (sent : ClientMetadata) × (asked : Uri) × (allowed : Uri)
        × IsMessage input h b n rest
        × (unmarshal canonical (decode b) ≡ some sent)
        × (parse sent.url ≡ some asked)
        × FirstRule matches_regexp hostname port rules asked (some allowed)
        × (md.url ≡ print allowed)
        × (is_one_of allowed.scheme http_schemes ≡ true)
  only_rewritten_requests input rest md n e =
      let (h, b, sent, asked, allowed, parts, known, good, small) =
        only_allowed_requests decode canonical parse print hook input rest md n e in
      (
        h,
        b,
        sent,
        asked,
        allowed,
        parts,
        known,
        good.0,
        (rewrite_iff matches_regexp hostname port rules asked (some allowed)).0 good.1,
        good.2,
        good.5,
      )

  -- A call whose url the rules reject is answered with status 400 and nothing is dialled or
  -- requested, whatever its scheme and method, if it has metadata that the server can decode and a
  -- length below 2^63.
  pub rejected_refused :
      (md rest : Bytes) (n : ℕ) (sent : ClientMetadata) (asked : Uri)
      → length md ≤ 65535
      → n ≤ max_int64
      → unmarshal canonical (decode md) ≡ some sent
      → parse sent.url ≡ some asked
      → FirstRule matches_regexp hostname port rules asked none
      → serve decode canonical parse print (some hook) (head (length md) n ++ (md ++ rest))
        ≡ says 400 url_refused
  rejected_refused md rest n sent asked fits small known parsed rejects =
      request_read decode canonical parse print (some hook) md n rest fits small
      ∙ ap (on_metadata decode canonical parse print (some hook) n rest) known
      ∙ rw (le→ltb max_int64 n small) refl
      ∙ ap (on_uri (some hook) print sent n rest) parsed
      ∙ ap (on_hooked print sent n rest)
          ((rewrite_iff matches_regexp hostname port rules asked none).1 rejects)
