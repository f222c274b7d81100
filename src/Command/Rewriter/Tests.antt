-- ===== src/Command/Rewriter/Tests.antt =====
-- Rules on small urls.
use httpadapter.Common.{
  ◌≡◌, refl, ◌↔◌, inl, inr, Bool, true, false, Option, none, some, List, [], ◌∷◌, ◌++◌, arith, ◌==◌,
  if◌then◌else◌, length,
}
use httpadapter.Common.Bytes.{Bytes, codes, bytes_eq, uint}
use httpadapter.Common.Io.{read_full}
use httpadapter.Calls.{ClientMetadata, Uri, head, is_one_of, unmarshal, canonical_keys}
use httpadapter.Calls.Handler.{says, to_unary, url_refused, serve}
use httpadapter.Calls.Guards.{IsMessage, http_schemes}
use httpadapter.Command.Rewriter.{
  matcher_prefix, matcher_suffix, has_prefix, has_suffix, UnaryRewriter, matches, match_any,
  match_uri, apply_rule, rewrite,
}
use httpadapter.Command.Rewriter.Rules.{FirstRule, rejected, rewrite_iff}
use httpadapter.Command.Rewriter.Served.{hook, only_rewritten_requests, rejected_refused}

abbrev no_regexp : Bytes → Bytes → Bool
no_regexp r s = false

abbrev same : Bytes → Bytes
same b = b

abbrev no_local : UnaryRewriter
no_local = record {
  reject = true;
  scheme = [];
  host = [];
  schemes = [];
  hosts = matcher_prefix (codes "local") ∷ [];
  hostnames = [];
}

abbrev to_http : UnaryRewriter
to_http = record {
  reject = false;
  scheme = codes "http";
  host = [];
  schemes = matcher_suffix (codes "s") ∷ [];
  hosts = [];
  hostnames = [];
}

abbrev rules : List UnaryRewriter
rules = no_local ∷ to_http ∷ []

abbrev local : Uri
local = record { scheme = codes "https"; host = codes "localhost"; port = [] }

abbrev far : Uri
far = record { scheme = codes "https"; host = codes "a"; port = [] }

abbrev far_http : Uri
far_http = record { scheme = codes "http"; host = codes "a"; port = [] }

rewrite_iff_example :
    (rewrite no_regexp same same rules far ≡ some far_http)
    ↔ FirstRule no_regexp same same rules far (some far_http)
rewrite_iff_example = rewrite_iff no_regexp same same rules far (some far_http)

rejects_local : FirstRule no_regexp same same rules local none
rejects_local =
    rejected [] (to_http ∷ []) no_local refl tt (inl refl, inr (inl (codes "host", refl)), inl refl)
      refl refl

abbrev parse : Bytes → Option Uri
parse b = if bytes_eq b (codes "l") then some local else some far

abbrev print : Uri → Bytes
print u = u.scheme

abbrev to_local : ClientMetadata
to_local = record { url = codes "l"; method = codes "GET"; header = [] }

abbrev to_far : ClientMetadata
to_far = record { url = codes "f"; method = codes "GET"; header = [] }

abbrev decode : Bytes → Option ClientMetadata
decode b = if length b == 1 then some to_local else some to_far

parse-local : parse (codes "l") ≡ some local
unfolding bytes_eq
parse-local = refl

local_known : unmarshal same (decode (1 ∷ [])) ≡ some to_local
unfolding unmarshal canonical_keys
local_known = refl

rejected_refused_example :
    serve decode same parse print
      (some (hook decode same parse print no_regexp same same rules))
      (head 1 0 ++ ((1 ∷ []) ++ []))
    ≡ says 400 url_refused
rejected_refused_example =
    rejected_refused decode same parse print no_regexp same same rules (1 ∷ []) [] 0 to_local local
      (omega arith) (omega arith) local_known parse-local rejects_local

-- A head for two bytes of metadata.
abbrev arrived : Bytes
arrived = 0 ∷ 2 ∷ 0 ∷ 0 ∷ 0 ∷ 0 ∷ 0 ∷ 0 ∷ 0 ∷ 0 ∷ 1 ∷ 2 ∷ []

abbrev passed_on : ClientMetadata
passed_on = record to_far { url = codes "http" }

arrived_serves :
    serve decode same parse print
      (some (hook decode same parse print no_regexp same same rules))
      arrived
    ≡ to_unary passed_on 0 []
unfolding serve read_full uint unmarshal canonical_keys bytes_eq rewrite match_uri match_any matches
    apply_rule has_prefix has_suffix
arrived_serves = refl

only_rewritten_requests_example :
    (h : Bytes) × (b : Bytes) × (before : ClientMetadata) × (asked : Uri) × (allowed : Uri)
    × IsMessage arrived h b 0 []
    × (unmarshal same (decode b) ≡ some before)
    × (parse before.url ≡ some asked)
    × FirstRule no_regexp same same rules asked (some allowed)
    × (codes "http" ≡ print allowed)
    × (is_one_of allowed.scheme http_schemes ≡ true)
only_rewritten_requests_example =
    only_rewritten_requests decode same parse print no_regexp same same rules arrived [] passed_on 0
      arrived_serves
