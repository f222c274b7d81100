-- ===== src/Command/Tunnels/Tests.antt =====
-- Two tunnels to one server.
use httpadapter.Common.{
  ℕ, ◌≡◌, refl, sym, ap, ap₂, ◌∙◌, ◌↔◌, inl, inr, Bool, true, false, ◌&&◌, some, [], ◌∷◌, ◌++◌,
  arith, leb, if◌then◌else◌, length, drop, length-append,
}
use httpadapter.Common.Bytes.{Bytes, codes, bytes_eq}
use httpadapter.Options.{pos}
use httpadapter.Command.Tunnels.{
  Tunnel, Client, client_key, find, client_for, client_options, new_tunnel_server,
  new_tunnel_servers,
}
use httpadapter.Command.Tunnels.Keys.{SameEnd}
use httpadapter.Command.Tunnels.Sharing.{shares_client_iff}

abbrev one : Tunnel
one = record {
  listen = codes "1";
  server = codes "s";
  tls = false;
  insecure = true;
  backend = codes "b";
  window = 5;
  read_buffer = pos 0;
  write_buffer = pos 0;
  ping = pos 0;
}

abbrev two : Tunnel
two = record one { insecure = false; window = 9 }

abbrev no_dialer : Bool → ℕ
no_dialer b = 0

before_quote : (a b : Bytes) → a ++ 34 ∷ [] ≡ b ++ 34 ∷ [] → a ≡ b
before_quote [] [] e = refl
before_quote [] (y ∷ b) e = absurd (omega (arith, ap length e, length-append b (34 ∷ [])))
before_quote (x ∷ a) [] e = absurd (omega (arith, ap length e, length-append a (34 ∷ [])))
before_quote (x ∷ a) (y ∷ b) e =
    let heads : x ≡ y = cc e in
    let tails : a ++ 34 ∷ [] ≡ b ++ 34 ∷ [] = cc e in ap₂ ◌∷◌ heads (before_quote a b tails)

-- Letters, which JSON puts between quotes and leaves as they are. `json.Marshal` of other texts is not
-- needed here; what is no letter is dropped.
abbrev is_letter : ℕ → Bool
is_letter c = leb 97 c && leb c 122

abbrev letters : Bytes → Bytes
letters [] = []
letters (c ∷ b) = let rest = letters b in if is_letter c then c ∷ rest else rest

abbrev quote : Bytes → Bytes
quote b = 34 ∷ (letters b ++ 34 ∷ [])

abbrev IsLetters : Bytes → Type 0
IsLetters b = letters b ≡ b

quotes_apart : (a b : Bytes) → IsLetters a → IsLetters b → quote a ≡ quote b → a ≡ b
quotes_apart a b text text' e =
    sym text ∙ before_quote (letters a) (letters b) (ap (drop 1) e) ∙ text'

abbrev always : Bytes → Bool
always b = true

abbrev first_client : Client ℕ
first_client = record {
  number = 0;
  address = codes "s";
  options = client_options no_dialer quote always one;
}

both_start :
    new_tunnel_servers no_dialer quote always (one ∷ two ∷ []) []
    ≡ some ((one, first_client) ∷ (two, first_client) ∷ [])
unfolding new_tunnel_servers new_tunnel_server client_for client_key find bytes_eq
both_start = refl

shares_client_iff_example : (first_client.number ≡ first_client.number) ↔ SameEnd one two
shares_client_iff_example =
    shares_client_iff no_dialer quote always IsLetters (one ∷ two ∷ [])
      ((one, first_client) ∷ (two, first_client) ∷ []) one two first_client first_client
      quotes_apart refl refl both_start (inl refl) (inr (inl refl))
