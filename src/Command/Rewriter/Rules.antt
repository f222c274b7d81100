-- ===== src/Command/Rewriter/Rules.antt =====
-- The rules of the hook: the first that is for a url decides.
use httpadapter.Common.{
  ℕ, ◌≡◌, refl, sym, ap, subst, ◌∙◌, ◌≢◌, ◌↔◌, ◌⊎◌, inl, inr, Bool, true, false, Option, none, some,
  List, [], ◌∷◌, ◌++◌, append-nil, arith, if◌then◌else◌, Bool-cases, All,
}
use httpadapter.Common.Bytes.{Bytes, bytes_eq}
use httpadapter.Calls.{Uri}
use httpadapter.Command.Rewriter.{
  UnaryRewriter, match_uri, with_scheme, with_host, apply_rule, rewrite,
}
use httpadapter.Command.Rewriter.Meaning.{Selects, match_uri-Selects}

-- A part of the url after a rule that may name a new one: the old one, or the new one in its place.
abbrev pub Replaced : Bytes → Bytes → Bytes → Bytes → Type 0
Replaced new old other now = ((new ≡ []) × (now ≡ old)) ⊎ ((new ≢ []) × (now ≡ other))

cons_not_nil : {x : ℕ} {xs : Bytes} → ¬ (x ∷ xs ≡ [])
cons_not_nil e = cc

true_not_false : ¬ (true ≡ false)
true_not_false e = cc

Replaced-iff :
    (new old other now : Bytes)
    → Replaced new old other now ↔ (now ≡ (if bytes_eq new [] then old else other))
unfolding bytes_eq
Replaced-iff [] old other now =
    (λ h. elim h [ inl (e, f) ↦ f | inr (e, f) ↦ absurd (e refl) ], λ e. inl (refl, e))
Replaced-iff (x ∷ new) old other now = (
  λ h. elim h [ inl (e, f) ↦ absurd (cons_not_nil e) | inr (e, f) ↦ f ],
  λ e. inr (cons_not_nil, e),
)

uri_ext : (u v : Uri) → u.scheme ≡ v.scheme → u.host ≡ v.host → u.port ≡ v.port → u ≡ v
uri_ext u v s h p = λ i. record { scheme = s i; host = h i; port = p i }

-- The url after a rule that changes it.
abbrev pub Changed : (Bytes → Bytes) → UnaryRewriter → Uri → Uri → Type 0
Changed port r u v =
    Replaced r.scheme u.scheme r.scheme v.scheme
    × Replaced r.host u.host r.host v.host
    × Replaced r.host u.port (port r.host) v.port

abbrev result : (Bytes → Bytes) → UnaryRewriter → Uri → Uri
result port r u = with_host port r.host (with_scheme r.scheme u)

by_parts :
    (port : Bytes → Bytes) (r : UnaryRewriter) (u : Uri)
    → ((result port r u).scheme ≡ (if bytes_eq r.scheme [] then u.scheme else r.scheme))
      × ((result port r u).host ≡ (if bytes_eq r.host [] then u.host else r.host))
      × ((result port r u).port ≡ (if bytes_eq r.host [] then u.port else port r.host))
by_parts port r u = ground arith

Changed-iff :
    (port : Bytes → Bytes) (r : UnaryRewriter) (u v : Uri)
    → Changed port r u v ↔ (v ≡ result port r u)
Changed-iff port r u v =
    let (s, h, p) = by_parts port r u in
    let scheme = Replaced-iff r.scheme u.scheme r.scheme v.scheme in
    let host = Replaced-iff r.host u.host r.host v.host in
    let its_port = Replaced-iff r.host u.port (port r.host) v.port in
    (
      λ (a, b, c).
          uri_ext v (result port r u) (scheme.0 a ∙ sym s) (host.0 b ∙ sym h)
            (its_port.0 c ∙ sym p),
      λ e. (
        scheme.1 (ap (λ (w : Uri). w.scheme) e ∙ s),
        host.1 (ap (λ (w : Uri). w.host) e ∙ h),
        its_port.1 (ap (λ (w : Uri). w.port) e ∙ p),
      ),
    )

module _ (matches_regexp : Bytes → Bytes → Bool) (hostname port : Bytes → Bytes) where
  abbrev pub Passed : Uri → List UnaryRewriter → Type 0
  Passed u rs = All (λ r. ¬ Selects matches_regexp hostname port r u) rs

  -- What becomes of a url, described by what the matchers stand for: `none` is the error.
  pub data FirstRule (rs : List UnaryRewriter) (u : Uri) (out : Option Uri) : Type 0 where
    kept : Passed u rs → out ≡ some u → FirstRule rs u out
    rejected :
        (before after : List UnaryRewriter) (r : UnaryRewriter)
        → rs ≡ before ++ (r ∷ after)
        → Passed u before
        → Selects matches_regexp hostname port r u
        → r.reject ≡ true
        → out ≡ none
        → FirstRule rs u out
    changed :
        (before after : List UnaryRewriter) (r : UnaryRewriter) (v : Uri)
        → rs ≡ before ++ (r ∷ after)
        → Passed u before
        → Selects matches_regexp hostname port r u
        → r.reject ≡ false
        → Changed port r u v
        → out ≡ some v
        → FirstRule rs u out

  test :
      (r : UnaryRewriter) (u : Uri)
      → (match_uri matches_regexp hostname port r u ≡ true)
        ↔ Selects matches_regexp hostname port r u
  test r u = match_uri-Selects matches_regexp hostname port r u

  later :
      (q : UnaryRewriter) (rs : List UnaryRewriter) (u : Uri) (out : Option Uri)
      → ¬ Selects matches_regexp hostname port q u
      → FirstRule rs u out
      → FirstRule (q ∷ rs) u out
  later q rs u out n (kept p e) = kept (n, p) e
  later q rs u out n (rejected b a r e p s j f) = rejected (q ∷ b) a r (ap (◌∷◌ q) e) (n, p) s j f
  later q rs u out n (changed b a r v e p s j c f) =
      changed (q ∷ b) a r v (ap (◌∷◌ q) e) (n, p) s j c f

  chosen :
      (r : UnaryRewriter) (rs : List UnaryRewriter) (u : Uri)
      → Selects matches_regexp hostname port r u
      → FirstRule (r ∷ rs) u (apply_rule matches_regexp hostname port r u)
  unfolding apply_rule
  chosen r rs u s = elim (Bool-cases r.reject) [
    | inl e ↦ rejected [] rs r refl tt s e (rw e refl)
    | inr e ↦
        changed [] rs r (result port r u) refl tt s e
          ((Changed-iff port r u (result port r u)).1 refl) (rw e refl)
  ]

  rewrite-FirstRule :
      (rs : List UnaryRewriter) (u : Uri)
      → FirstRule rs u (rewrite matches_regexp hostname port rs u)
  unfolding rewrite
  rewrite-FirstRule [] u = kept tt refl
  rewrite-FirstRule (r ∷ rs) u = elim (Bool-cases (match_uri matches_regexp hostname port r u)) [
    | inl e ↦ rw e (chosen r rs u ((test r u).0 e))
    | inr e ↦
        rw e
          (later r rs u _ (λ s. true_not_false (sym ((test r u).1 s) ∙ e)) (rewrite-FirstRule rs u))
  ]

  skipped :
      (before rest : List UnaryRewriter) (u : Uri)
      → Passed u before
      → rewrite matches_regexp hostname port (before ++ rest) u
        ≡ rewrite matches_regexp hostname port rest u
  unfolding rewrite
  skipped [] rest u p = refl
  skipped (r ∷ before) rest u p = elim (Bool-cases (match_uri matches_regexp hostname port r u)) [
    | inl e ↦ absurd (p.0 ((test r u).0 e))
    | inr e ↦ rw e (skipped before rest u p.1)
  ]

  reached :
      (before after : List UnaryRewriter) (r : UnaryRewriter) (u : Uri)
      → Passed u before
      → Selects matches_regexp hostname port r u
      → rewrite matches_regexp hostname port (before ++ (r ∷ after)) u
        ≡ apply_rule matches_regexp hostname port r u
  unfolding rewrite
  reached before after r u p s = skipped before (r ∷ after) u p ∙ rw ((test r u).1 s) refl

  FirstRule-rewrite :
      (rs : List UnaryRewriter) (u : Uri) (out : Option Uri)
      → FirstRule rs u out
      → rewrite matches_regexp hostname port rs u ≡ out
  unfolding rewrite apply_rule
  FirstRule-rewrite rs u out (kept p e) =
      ap (λ x. rewrite matches_regexp hostname port x u) (sym (append-nil rs))
      ∙ skipped rs [] u p
      ∙ sym e
  FirstRule-rewrite rs u out (rejected b a r e p s j f) =
      ap (λ x. rewrite matches_regexp hostname port x u) e ∙ reached b a r u p s ∙ rw j (sym f)
  FirstRule-rewrite rs u out (changed b a r v e p s j c f) =
      ap (λ x. rewrite matches_regexp hostname port x u) e
      ∙ reached b a r u p s
      ∙ rw j (ap some (sym ((Changed-iff port r u v).0 c)) ∙ sym f)

  -- The hook does what its rules stand for, and nothing else: the outcome of a url is `out` exactly
  -- when no rule is for the url and it is kept; or the first rule that is for the url rejects it, and
  -- `out` is the error; or the first does not, and `out` is the url with the scheme and the host that
  -- the rule names. A rule is for a url when its scheme, its host and its hostname each fit one of
  -- the matchers for it, where there are any.
  pub rewrite_iff :
      (rs : List UnaryRewriter) (u : Uri) (out : Option Uri)
      → (rewrite matches_regexp hostname port rs u ≡ out) ↔ FirstRule rs u out
  rewrite_iff rs u out =
      (λ e. subst (FirstRule rs u) e (rewrite-FirstRule rs u), FirstRule-rewrite rs u out)
