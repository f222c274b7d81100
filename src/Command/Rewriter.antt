-- ===== src/Command/Rewriter.antt =====
-- cmd/httpadapter/server.go: the rules that rewrite or reject a url, and which hosts get h2c.
pub mod Dollar
pub mod Meaning
pub mod Rules
pub mod Served
mod Tests
use httpadapter.Common.{
  ◌-◌, Bool, true, false, not, ◌&&◌, ◌||◌, Option, none, some, List, [], ◌∷◌, leb, if◌then◌else◌,
  length, take, drop,
}
use httpadapter.Common.Bytes.{Bytes, codes, bytes_eq}
use httpadapter.Calls.{Uri}

-- `strings.HasPrefix(s, p)`
unfoldable pub has_prefix : Bytes → Bytes → Bool
has_prefix p s = leb (length p) (length s) && bytes_eq (take (length p) s) p

-- `strings.HasSuffix(s, p)`
unfoldable pub has_suffix : Bytes → Bytes → Bool
has_suffix p s = leb (length p) (length s) && bytes_eq (drop (length s - length p) s) p

-- The types that implement `Matcher`.
pub data Matcher : Type 0 where
  matcher_any : Matcher
  matcher_prefix matcher_suffix matcher_equal matcher_regexp : Bytes → Matcher

abbrev pub add_matcher : Option Matcher → Option (List Matcher) → Option (List Matcher)
add_matcher none ms = none
add_matcher (some m) none = none
add_matcher (some m) (some ms) = some (m ∷ ms)

-- `compiles` is what `regexp.Compile` accepts.
module _ (compiles : Bytes → Bool) where
  -- `newMatcher`; on a regular expression that is refused the program ends.
  unfoldable pub new_matcher : Bytes → Option Matcher
  new_matcher s =
      if bytes_eq s (codes "*")
      then some matcher_any
      else if has_prefix (codes "^") s
      then some (matcher_prefix (drop 1 s))
      else if has_suffix (codes "$") s
      then some (matcher_suffix (take (length s - 1) s))
      else if has_prefix (codes "@") s
      then if compiles (drop 1 s) then some (matcher_regexp (drop 1 s)) else none
      else some (matcher_equal s)

  unfoldable pub new_matchers : List Bytes → Option (List Matcher)
  new_matchers [] = some []
  new_matchers (s ∷ ss) = add_matcher (new_matcher s) (new_matchers ss)

-- `UnaryRewriter`
pub record UnaryRewriter : Type 0 where
  pub reject : Bool
  pub scheme : Bytes
  pub host : Bytes
  pub schemes : List Matcher
  pub hosts : List Matcher
  pub hostnames : List Matcher

-- `Rewriter` of the configuration.
pub record Rule : Type 0 where
  pub schemes : List Bytes
  pub hosts : List Bytes
  pub hostnames : List Bytes
  pub reject : Bool
  pub scheme : Bytes
  pub host : Bytes

abbrev pub with_matchers :
    Rule
    → Option (List Matcher)
    → Option (List Matcher)
    → Option (List Matcher)
    → Option UnaryRewriter
with_matchers o (some schemes) (some hosts) (some hostnames) = some (record {
  reject = o.reject;
  scheme = o.scheme;
  host = o.host;
  schemes = schemes;
  hosts = hosts;
  hostnames = hostnames;
})
with_matchers o schemes hosts hostnames = none

-- `newUnaryRewriter`
unfoldable pub new_unary_rewriter : (Bytes → Bool) → Rule → Option UnaryRewriter
new_unary_rewriter compiles o =
    with_matchers o (new_matchers compiles o.schemes) (new_matchers compiles o.hosts)
      (new_matchers compiles o.hostnames)

abbrev pub is_empty {ℓ} : {A : Type ℓ} → List A → Bool
is_empty [] = true
is_empty (x ∷ xs) = false

-- What a rule that matches does to the url; `port` is what `Port` of a url makes of its host.
abbrev pub with_scheme : Bytes → Uri → Uri
with_scheme scheme u = if bytes_eq scheme [] then u else record u { scheme = scheme }

abbrev pub with_host : (Bytes → Bytes) → Bytes → Uri → Uri
with_host port host u = if bytes_eq host [] then u else record u { host = host; port = port host }

-- `matches_regexp r s` is `MatchString(s)` of the compiled `r`; `hostname` and `port` are what
-- `Hostname` and `Port` make of a host.
module _ (matches_regexp : Bytes → Bytes → Bool) (hostname port : Bytes → Bytes) where
  -- `Match` of each matcher.
  unfoldable pub matches : Matcher → Bytes → Bool
  matches matcher_any s = true
  matches (matcher_prefix p) s = has_prefix p s
  matches (matcher_suffix p) s = has_suffix p s
  matches (matcher_equal p) s = bytes_eq s p
  matches (matcher_regexp r) s = matches_regexp r s

  -- `match` of a rewriter.
  unfoldable pub match_any : List Matcher → Bytes → Bool
  match_any [] s = false
  match_any (m ∷ ms) s = matches m s || match_any ms s

  -- `Match` of a rewriter.
  unfoldable pub match_uri : UnaryRewriter → Uri → Bool
  match_uri r u =
      if not (is_empty r.schemes) && not (match_any r.schemes u.scheme)
      then false
      else if not (is_empty r.hosts) && not (match_any r.hosts u.host)
      then false
      else if not (is_empty r.hostnames)
      then match_any r.hostnames (hostname u.host)
      else true

  unfoldable pub apply_rule : UnaryRewriter → Uri → Option Uri
  apply_rule r u = if r.reject then none else some (with_host port r.host (with_scheme r.scheme u))

  -- The hook: the first rule that matches.
  unfoldable pub rewrite : List UnaryRewriter → Uri → Option Uri
  rewrite [] u = some u
  rewrite (r ∷ rs) u = let later = rewrite rs u in if match_uri r u then apply_rule r u else later

  -- If a request goes over h2c; without hosts and hostnames there is no such client.
  unfoldable pub use_h2c : List Matcher → List Matcher → Bytes → Bool
  use_h2c hosts hostnames host = match_any hosts host || match_any hostnames (hostname host)
