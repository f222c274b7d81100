-- ===== src/Command/Rewriter/Meaning.antt =====
-- What the matchers and the rules mean.
use httpadapter.Common.{
  ◌-◌, ◌≡◌, refl, sym, ap, ◌∙◌, ◌↔◌, ◌⊎◌, inl, inr, Bool, true, false, not, ◌&&◌, ◌||◌, List, [],
  ◌∷◌, ◌++◌, arith, if◌then◌else◌, le→leb, length, take, drop, length-append, take-append-drop,
  take-append, drop-append,
}
use httpadapter.Common.Bytes.{Bytes, bytes_eq_self, bytes_eq→eq}
use httpadapter.Calls.{Uri}
use httpadapter.Command.Rewriter.{
  has_prefix, has_suffix, Matcher, matcher_any, matcher_prefix, matcher_suffix, matcher_equal,
  matcher_regexp, UnaryRewriter, is_empty, matches, match_any, match_uri,
}

both : (a b : Bool) → (a && b) ≡ true → (a ≡ true) × (b ≡ true)
both a b e = ground arith

cut_before : (p s rest : Bytes) → s ≡ p ++ rest → has_prefix p s ≡ true
unfolding has_prefix
cut_before p s rest e =
    rw
      (
        e,
        le→leb (length p) (length (p ++ rest)) (omega (arith, length-append p rest)),
        take-append (length p) p rest refl,
        bytes_eq_self p,
      )
      refl

pub cut_after : (p s front : Bytes) → s ≡ front ++ p → has_suffix p s ≡ true
unfolding has_suffix
cut_after p s front e =
    let size = length-append front p in
    let at_end : drop (length (front ++ p) - length p) (front ++ p) ≡ p =
      drop-append (length (front ++ p) - length p) front p (omega (arith, size)) in
    rw (e, le→leb (length p) (length (front ++ p)) (omega (arith, size)), at_end, bytes_eq_self p)
      refl

has_prefix_iff : (p s : Bytes) → (has_prefix p s ≡ true) ↔ ((rest : Bytes) × (s ≡ p ++ rest))
unfolding has_prefix
has_prefix_iff p s = (
  λ e.
      let eq = bytes_eq→eq (take (length p) s) p (both _ _ e).1 in
      (
        drop (length p) s,
        sym (take-append-drop (length p) s) ∙ ap (λ (t : Bytes). t ++ drop (length p) s) eq,
      ),
  λ (rest, e). cut_before p s rest e,
)

has_suffix_iff : (p s : Bytes) → (has_suffix p s ≡ true) ↔ ((front : Bytes) × (s ≡ front ++ p))
unfolding has_suffix
has_suffix_iff p s = (
  λ e.
      let n = length s - length p in
      let eq = bytes_eq→eq (drop n s) p (both _ _ e).1 in
      (take n s, sym (take-append-drop n s) ∙ ap (λ (t : Bytes). take n s ++ t) eq),
  λ (front, e). cut_after p s front e,
)

-- One of the items.
abbrev pub Some {ℓ} : {A : Type ℓ} → (A → Type 0) → List A → Type 0
Some P [] = ⊥
Some P (x ∷ xs) = P x ⊎ Some P xs

true-false : ¬ (false ≡ true)
true-false e = cc

either : {P Q : Type 0} (a b : Bool) → (a ≡ true) ↔ P → (b ≡ true) ↔ Q → ((a || b) ≡ true) ↔ (P ⊎ Q)
either true b p q = (λ e. inl (p.0 refl), λ h. refl)
either false b p q =
    (λ e. inr (q.0 e), λ h. elim h [ inl x ↦ absurd (true-false (p.1 x)) | inr y ↦ q.1 y ])

cons_not_nil : {A : Type 0} {x : A} {xs : List A} → ¬ (x ∷ xs ≡ [])
cons_not_nil e = cc

all_three :
    {P Q R : Type 0} (a b c : Bool)
    → (a ≡ false) ↔ P
    → (b ≡ false) ↔ Q
    → (c ≡ true) ↔ R
    → ((if a then false else if b then false else c) ≡ true) ↔ (P × Q × R)
all_three true b c p q r = (λ e. absurd (true-false e), λ h. sym (p.1 h.0))
all_three false true c p q r = (λ e. absurd (true-false e), λ h. sym (q.1 h.1))
all_three false false c p q r = (λ e. (p.0 refl, q.0 refl, r.0 e), λ h. r.1 h.2)

not-false : (b : Bool) → not b ≡ false → b ≡ true
not-false b e = ground arith

module _ (matches_regexp : Bytes → Bytes → Bool) (hostname port : Bytes → Bytes) where
  -- What a matcher stands for.
  abbrev pub Fits : Matcher → Bytes → Type 0
  Fits matcher_any s = Unit {0}
  Fits (matcher_prefix p) s = (rest : Bytes) × (s ≡ p ++ rest)
  Fits (matcher_suffix p) s = (front : Bytes) × (s ≡ front ++ p)
  Fits (matcher_equal p) s = s ≡ p
  Fits (matcher_regexp r) s = matches_regexp r s ≡ true

  pub matches-Fits :
      (m : Matcher) (s : Bytes) → (matches matches_regexp hostname port m s ≡ true) ↔ Fits m s
  unfolding matches
  matches-Fits matcher_any s = (λ e. tt, λ h. refl)
  matches-Fits (matcher_prefix p) s = has_prefix_iff p s
  matches-Fits (matcher_suffix p) s = has_suffix_iff p s
  matches-Fits (matcher_equal p) s = (λ e. bytes_eq→eq s p e, λ e. rw (e, bytes_eq_self p) refl)
  matches-Fits (matcher_regexp r) s = (λ e. e, λ e. e)

  match_any-Fits :
      (ms : List Matcher) (s : Bytes)
      → (match_any matches_regexp hostname port ms s ≡ true) ↔ Some (λ m. Fits m s) ms
  unfolding match_any
  match_any-Fits [] s = (λ e. cc, λ h. absurd h)
  match_any-Fits (m ∷ ms) s =
      either (matches matches_regexp hostname port m s)
        (match_any matches_regexp hostname port ms s) (matches-Fits m s) (match_any-Fits ms s)

  asks_iff :
      (ms : List Matcher) (s : Bytes)
      → (not (is_empty ms) && not (match_any matches_regexp hostname port ms s) ≡ false)
        ↔ ((ms ≡ []) ⊎ Some (λ m. Fits m s) ms)
  asks_iff [] s = (λ e. inl refl, λ h. refl)
  asks_iff (m ∷ ms) s =
      let f = match_any-Fits (m ∷ ms) s in
      (
        λ e. inr (f.0 (not-false _ e)),
        λ h. elim h [ inl e ↦ absurd (cons_not_nil e) | inr g ↦ rw (f.1 g) refl ],
      )

  asks_last_iff :
      (ms : List Matcher) (s : Bytes)
      → ((if not (is_empty ms) then match_any matches_regexp hostname port ms s else true) ≡ true)
        ↔ ((ms ≡ []) ⊎ Some (λ m. Fits m s) ms)
  asks_last_iff [] s = (λ e. inl refl, λ h. refl)
  asks_last_iff (m ∷ ms) s =
      let f = match_any-Fits (m ∷ ms) s in
      (λ e. inr (f.0 e), λ h. elim h [ inl e ↦ absurd (cons_not_nil e) | inr g ↦ f.1 g ])

  -- A list of matchers that the rule does not have asks for nothing.
  abbrev pub Asks : List Matcher → Bytes → Type 0
  Asks ms s = (ms ≡ []) ⊎ Some (λ m. Fits m s) ms

  -- The rule is for this url.
  abbrev pub Selects : UnaryRewriter → Uri → Type 0
  Selects r u = Asks r.schemes u.scheme × Asks r.hosts u.host × Asks r.hostnames (hostname u.host)

  pub match_uri-Selects :
      (r : UnaryRewriter) (u : Uri)
      → (match_uri matches_regexp hostname port r u ≡ true) ↔ Selects r u
  unfolding match_uri
  match_uri-Selects r u =
      all_three _ _ _ (asks_iff r.schemes u.scheme) (asks_iff r.hosts u.host)
        (asks_last_iff r.hostnames (hostname u.host))
