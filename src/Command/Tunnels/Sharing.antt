-- ===== src/Command/Tunnels/Sharing.antt =====
-- Which tunnels share a client.
use httpadapter.Common.{
  ◌<◌, ◌≡◌, refl, sym, ap, subst, ◌∙◌, ◌↔◌, ◌⊎◌, inl, inr, Bool, true, false, ◌||◌, Option, none,
  some, List, [], ◌∷◌, arith, if◌then◌else◌, Bool-cases, Option-cases, length, All,
}
use httpadapter.Common.Bytes.{Bytes, bytes_eq, bytes_eq_self, bytes_eq→eq}
use httpadapter.Command.Tunnels.{
  Tunnel, Client, client_key, find, client_for, new_tunnel_server, and_then, with_first,
  new_tunnel_servers,
}
use httpadapter.Command.Rewriter.Meaning.{Some}
use httpadapter.Command.Tunnels.Keys.{SameEnd, key_iff}

none_not_some : {B : Type 0} {b : B} → ¬ (none ≡ some b)
none_not_some e = cc e

branch :
    {B : Type 0} {c : B} (b : Bool) (x y : Option B)
    → (if b then x else y) ≡ some c
    → ((b ≡ true) × (x ≡ some c)) ⊎ ((b ≡ false) × (y ≡ some c))
branch true x y e = inl (refl, e)
branch false x y e = inr (refl, e)

some_inj : {B : Type 0} {x y : B} → some x ≡ some y → x ≡ y
some_inj e = cc e

all_some :
    {B : Type 0} (P : B → Type 0) (b : B) (xs : List B) → All P xs → Some (λ x. x ≡ b) xs → P b
all_some P b [] a h = absurd h
all_some P b (x ∷ xs) a h = elim h [ inl e ↦ subst P e a.0 | inr t ↦ all_some P b xs a.1 t ]

module _ {A : Type 0} (dialer : Bool → A) (quote : Bytes → Bytes) (listens : Bytes → Bool) where
  -- The clients are numbered in the order in which they were made.
  abbrev IsNumbered : List (Bytes × Client A) → Type 0
  IsNumbered [] = Unit {0}
  IsNumbered ((k, c) ∷ keys) = (c.number ≡ length keys) × IsNumbered keys

  find_cons :
      (k j : Bytes) (d c : Client A) (keys : List (Bytes × Client A))
      → find dialer quote listens k ((j, d) ∷ keys) ≡ some c
      → ((k ≡ j) × (d ≡ c)) ⊎ (find dialer quote listens k keys ≡ some c)
  unfolding find
  find_cons k j d c keys e = elim (branch (bytes_eq k j) _ _ e) [
    | inl (b, f) ↦ inl (bytes_eq→eq k j b, cc f)
    | inr (b, f) ↦ inr f
  ]

  number-lt :
      (k : Bytes) (keys : List (Bytes × Client A)) (c : Client A)
      → IsNumbered keys
      → find dialer quote listens k keys ≡ some c
      → c.number < length keys
  unfolding find
  number-lt k [] c n e = absurd (none_not_some e)
  number-lt k ((j, d) ∷ keys) c n e = elim (find_cons k j d c keys e) [
    | inl (b, f) ↦ omega (arith, n.0, ap (λ (x : Client A). x.number) f)
    | inr f ↦ omega (arith, number-lt k keys c n.1 f)
  ]

  -- Clients of different keys have different numbers.
  number_inj :
      (k k' : Bytes) (keys : List (Bytes × Client A)) (c c' : Client A)
      → IsNumbered keys
      → find dialer quote listens k keys ≡ some c
      → find dialer quote listens k' keys ≡ some c'
      → c.number ≡ c'.number
      → k ≡ k'
  unfolding find
  number_inj k k' [] c c' n e e' h = absurd (none_not_some e)
  number_inj k k' ((j, d) ∷ keys) c c' n e e' h = elim (find_cons k j d c keys e) [
    | inl (b, f) ↦ (elim (find_cons k' j d c' keys e') [
      | inl (b', f') ↦ b ∙ sym b'
      | inr f' ↦
          absurd
            (omega (arith, h, n.0, ap (λ (x : Client A). x.number) f, number-lt k' keys c' n.1 f'))
    ])
    | inr f ↦ (elim (find_cons k' j d c' keys e') [
      | inl (b', f') ↦
          absurd
            (omega (arith, h, n.0, ap (λ (x : Client A). x.number) f', number-lt k keys c n.1 f))
      | inr f' ↦ number_inj k k' keys c c' n.1 f f' h
    ])
  ]

  -- What is found stays found.
  abbrev Extends : List (Bytes × Client A) → List (Bytes × Client A) → Type 0
  Extends keys keys' =
      (k : Bytes) (c : Client A)
      → find dialer quote listens k keys ≡ some c
      → find dialer quote listens k keys' ≡ some c

  found_self :
      (k : Bytes) (c : Client A) (keys : List (Bytes × Client A))
      → find dialer quote listens k ((k, c) ∷ keys) ≡ some c
  unfolding find
  found_self k c keys = rw (bytes_eq_self k) refl

  grown :
      (j : Bytes) (d : Client A) (keys : List (Bytes × Client A))
      → find dialer quote listens j keys ≡ none
      → Extends keys ((j, d) ∷ keys)
  unfolding find
  grown j d keys absent k c e = elim (Bool-cases (bytes_eq k j)) [
    | inl h ↦ absurd (
        none_not_some
          (sym absent ∙ ap (λ x. find dialer quote listens x keys) (sym (bytes_eq→eq k j h)) ∙ e))
    | inr h ↦ rw h e
  ]

  -- The client that a tunnel gets is found under its key.
  client_for_lem :
      (t : Tunnel) (keys : List (Bytes × Client A))
      → IsNumbered keys
      → let (c, keys') = client_for dialer quote listens t keys in
        (find dialer quote listens (client_key dialer quote listens t) keys' ≡ some c)
        × IsNumbered keys'
        × Extends keys keys'
  unfolding client_for
  client_for_lem t keys n =
      elim (Option-cases (find dialer quote listens (client_key dialer quote listens t) keys)) [
        | inl e ↦ rw e (found_self _ _ keys, (refl, n), grown _ _ keys e)
        | inr (c, e) ↦ rw e (e, n, λ k c e. e)
      ]

  and_then-some :
      {B : Type 0} (x : Option B) (f : B → Option (List (Tunnel × Client A)))
      (out : List (Tunnel × Client A))
      → and_then dialer quote listens x f ≡ some out
      → (b : B) × (x ≡ some b) × (f b ≡ some out)
  and_then-some none f out e = absurd (none_not_some e)
  and_then-some (some b) f out e = (b, refl, e)

  with_first-some :
      (r : Tunnel × Client A) (x : Option (List (Tunnel × Client A)))
      (out : List (Tunnel × Client A))
      → with_first dialer quote listens r x ≡ some out
      → (xs : List (Tunnel × Client A)) × (x ≡ some xs) × (out ≡ r ∷ xs)
  with_first-some r none out e = absurd (none_not_some e)
  with_first-some r (some xs) out e = (xs, refl, cc e)

  made_lem :
      (t : Tunnel) (keys : List (Bytes × Client A)) (made : Client A × List (Bytes × Client A))
      → new_tunnel_server dialer quote listens t keys ≡ some made
      → client_for dialer quote listens t keys ≡ made
  unfolding new_tunnel_server
  made_lem t keys made e = elim (branch (bytes_eq t.server [] || bytes_eq t.backend []) _ _ e) [
    | inl (b, f) ↦ absurd (none_not_some f)
    | inr (b, f) ↦ (elim (branch (listens t.listen) _ _ f) [
      | inl (l, g) ↦ cc g
      | inr (l, g) ↦ absurd (none_not_some g)
    ])
  ]

  -- Each tunnel's client is found under its key at the end.
  abbrev Found : List (Bytes × Client A) → Tunnel × Client A → Type 0
  Found keys r = find dialer quote listens (client_key dialer quote listens r.0) keys ≡ some r.1

  abbrev Runs : List (Bytes × Client A) → List (Tunnel × Client A) → Type 0
  Runs keys out =
      (keys' : List (Bytes × Client A)) × IsNumbered keys'
      × Extends keys keys'
      × All (Found keys') out

  all_run :
      (ts : List Tunnel) (keys : List (Bytes × Client A)) (out : List (Tunnel × Client A))
      → IsNumbered keys
      → new_tunnel_servers dialer quote listens ts keys ≡ some out
      → Runs keys out
  unfolding new_tunnel_servers
  all_run [] keys out n e =
      let nothing : [] ≡ out = cc e in (keys, n, λ k c f. f, subst (All (Found keys)) nothing tt)
  all_run (t ∷ ts) keys out n e =
      let (made, is_made, rest) = and_then-some _ _ out e in
      let (xs, is_run, is_out) = with_first-some (t, made.0) _ out rest in
      let here =
        subst
          (λ (m : Client A × List (Bytes × Client A)).
            Found m.1 (t, m.0) × IsNumbered m.1 × Extends keys m.1)
          (made_lem t keys made is_made) (client_for_lem t keys n) in
      let (keys', n', grows, all) = all_run ts made.1 xs here.1 is_run in
      (
        keys',
        n',
        λ k c f. grows k c (here.2 k c f),
        subst (All (Found keys')) (sym is_out) (grows _ _ here.0, all),
      )

  -- Of the tunnels that a program starts, two share a client exactly when they go to the same server,
  -- both with TLS or both without, and, with TLS, both or neither without a check of the certificate;
  -- if the names of their servers are texts, such as the valid UTF-8 that `json.Unmarshal` gives, and texts
  -- are told apart by their JSON. Nothing else in their configuration counts.
  pub shares_client_iff :
      (IsText : Bytes → Type 0) (ts : List Tunnel) (out : List (Tunnel × Client A)) (t u : Tunnel)
      (c d : Client A)
      → ((a b : Bytes) → IsText a → IsText b → quote a ≡ quote b → a ≡ b)
      → IsText t.server
      → IsText u.server
      → new_tunnel_servers dialer quote listens ts [] ≡ some out
      → Some (λ r. r ≡ (t, c)) out
      → Some (λ r. r ≡ (u, d)) out
      → (c.number ≡ d.number) ↔ SameEnd t u
  shares_client_iff IsText ts out t u c d quotes text_t text_u e is_t is_u =
      let (keys, n, grows, all) = all_run ts [] out tt e in
      let at_t = all_some (Found keys) (t, c) out all is_t in
      let at_u = all_some (Found keys) (u, d) out all is_u in
      let keys_iff = key_iff dialer quote listens IsText t u quotes text_t text_u in
      (
        λ h. keys_iff.0 (number_inj _ _ keys c d n at_t at_u h),
        λ h.
            ap (λ (x : Client A). x.number)
              (some_inj
                (sym at_t ∙ ap (λ k. find dialer quote listens k keys) (keys_iff.1 h) ∙ at_u)),
      )
