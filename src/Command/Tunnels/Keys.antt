-- ===== src/Command/Tunnels/Keys.antt =====
-- The keys under which the clients stand.
use httpadapter.Common.{
  ◌≡◌, refl, sym, ap, ap₂, ◌∙◌, ◌↔◌, Bool, true, false, [], ◌∷◌, ◌++◌, arith, length, get_or,
  length-append,
}
use httpadapter.Common.Bytes.{Bytes, codes}
use httpadapter.Command.Tunnels.{Tunnel, key_end, client_key}

-- The same server, reached in the same way.
abbrev pub SameEnd : Tunnel → Tunnel → Type 0
SameEnd t u = (t.server ≡ u.server) × (t.tls ≡ u.tls) × (t.tls ≡ true → t.insecure ≡ u.insecure)

-- Two texts whose ends are equally long.
append_inj : (a b c d : Bytes) → length c ≡ length d → a ++ c ≡ b ++ d → (a ≡ b) × (c ≡ d)
append_inj [] [] c d h e = (refl, e)
append_inj [] (x ∷ b) c d h e = absurd (omega (arith, ap length e, length-append b d))
append_inj (x ∷ a) [] c d h e = absurd (omega (arith, ap length e, length-append a c))
append_inj (x ∷ a) (y ∷ b) c d h e =
    let heads : x ≡ y = cc e in
    let tails : a ++ c ≡ b ++ d = cc e in
    let (p, q) = append_inj a b c d h tails in (ap₂ ◌∷◌ heads p, q)

false_not_true : ¬ (false ≡ true)
false_not_true e = cc e

differ : ¬ (codes "-1-1" ≡ codes "-1-0")
differ e = absurd (omega (arith, ap (λ (b : Bytes). get_or b 3 0) e))

no_tls : {t : Bytes} → ¬ (45 ∷ 49 ∷ t ≡ codes "-0-0")
no_tls e = absurd (omega (arith, ap (λ (b : Bytes). get_or b 1 0) e))

module _ {A : Type 0} (dialer : Bool → A) (quote : Bytes → Bytes) (listens : Bytes → Bool) where
  length-key_end : (tls insecure : Bool) → length (key_end dialer quote listens tls insecure) ≡ 4
  length-key_end true true = refl
  length-key_end true false = refl
  length-key_end false insecure = refl

  key_end_inj :
      (a b c d : Bool)
      → key_end dialer quote listens a b ≡ key_end dialer quote listens c d
      → (a ≡ c) × (a ≡ true → b ≡ d)
  key_end_inj true true true true e = (refl, λ h. refl)
  key_end_inj true true true false e = absurd (differ e)
  key_end_inj true false true true e = absurd (differ (sym e))
  key_end_inj true false true false e = (refl, λ h. refl)
  key_end_inj true true false d e = absurd (no_tls e)
  key_end_inj true false false d e = absurd (no_tls e)
  key_end_inj false b true true e = absurd (no_tls (sym e))
  key_end_inj false b true false e = absurd (no_tls (sym e))
  key_end_inj false b false d e = (refl, λ h. cc)

  same_end :
      (a b c d : Bool)
      → a ≡ c
      → (a ≡ true → b ≡ d)
      → key_end dialer quote listens a b ≡ key_end dialer quote listens c d
  same_end true b c d e f = ap₂ (key_end dialer quote listens) e (f refl)
  same_end false b true d e f = absurd (false_not_true e)
  same_end false b false d e f = refl

  pub key_iff :
      (IsText : Bytes → Type 0) (t u : Tunnel)
      → ((a b : Bytes) → IsText a → IsText b → quote a ≡ quote b → a ≡ b)
      → IsText t.server
      → IsText u.server
      → (client_key dialer quote listens t ≡ client_key dialer quote listens u) ↔ SameEnd t u
  unfolding client_key
  key_iff IsText t u quotes text_t text_u = (
    λ e.
        let (p, q) =
          append_inj (quote t.server) (quote u.server)
            (key_end dialer quote listens t.tls t.insecure)
            (key_end dialer quote listens u.tls u.insecure)
            (length-key_end t.tls t.insecure ∙ sym (length-key_end u.tls u.insecure)) e in
        let (r, s) = key_end_inj t.tls t.insecure u.tls u.insecure q in
        (quotes t.server u.server text_t text_u p, r, s),
    λ (p, q, r). ap₂ ◌++◌ (ap quote p) (same_end t.tls t.insecure u.tls u.insecure q r),
  )
