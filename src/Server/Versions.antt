-- ===== src/Server/Versions.antt =====
-- Which version `hello` chooses.
use mathlib.Core.Bool.{false≢true}
use httpadapter.Common.{
  ℕ, ◌^◌, ◌≤◌, ◌<◌, ◌≡◌, ◌⊎◌, inl, inr, refl, sym, ap, ◌∙◌, List, [], ◌∷◌, ◌++◌, none, length,
  arith, Bool-cases,
}
use httpadapter.Common.Bytes.{Bytes, bytes_eq, bytes_eq_self, ne→bytes_eq}
use httpadapter.Common.Io.{returns, panics, make_slice}
use httpadapter.Common.Text.{AllNoComma, join}
use httpadapter.Core.Protocol.{flag, protocol_version}
use httpadapter.Core.Hello.{hello_ok, hello_invalid_version}
use httpadapter.Core.Hello.ClientHello.{accepted, read_client_hello}
use httpadapter.Core.Hello.ClientHello.Encode.{wire}
use httpadapter.Core.Hello.ClientHello.Decode.{sizes, read_panics}
use httpadapter.Core.Hello.ClientHello.RoundTrip.{read_wire}
use httpadapter.Server.{
  Greeting, greeting_code, choose_version, greet, read_greeting, Surroundings, serve,
}

-- The version of this protocol is among those of the client.
abbrev pub Offers : List Bytes → Type 0
Offers [] = ⊥
Offers (v ∷ vs) = (v ≡ protocol_version) ⊎ Offers vs

abbrev pub chosen : ℕ → Bytes → Greeting
chosen window input = record {
  backend = none;
  code = hello_ok;
  version = protocol_version;
  window = window;
  error = none;
  rest = input;
}

choose_offered :
    (vs : List Bytes) (window : ℕ) (input : Bytes)
    → Offers vs
    → choose_version vs window input ≡ chosen window input
unfolding choose_version
choose_offered [] window input h = absurd h
choose_offered (v ∷ vs) window input h = elim (Bool-cases (bytes_eq v protocol_version)) [
  | inl same ↦ rw same
  | inr other ↦ rw other (elim h [
    | inl e ↦ absurd (
        false≢true (
          sym other
          ∙ ap (λ (t : Bytes). bytes_eq t protocol_version) e
          ∙ bytes_eq_self protocol_version))
    | inr later ↦ choose_offered vs window input later
  ])
]

choose_none :
    (vs : List Bytes) (window : ℕ) (input : Bytes)
    → ¬ (Offers vs)
    → choose_version vs window input ≡ greeting_code hello_invalid_version none input
unfolding choose_version
choose_none [] window input h = refl
choose_none (v ∷ vs) window input h =
    rw (ne→bytes_eq v protocol_version (λ e. h (inl e)))
      (choose_none vs window input (λ later. h (inr later)))

-- What the buffer of `serve` can take: the versions of a message that is read without fault.
pub record IsReadable (w : ℕ) (v : Bytes) (vs : List Bytes) : Type 0 where
  pub window_pos : 0 < w
  pub window_word : w < 2 ^ 32
  pub clean : AllNoComma (v ∷ vs)
  pub some_text : 0 < length (join (v ∷ vs))
  pub fits : length (join (v ∷ vs)) ≤ 245

module _ (w : ℕ) (v : Bytes) (vs : List Bytes) (rest : Bytes) (h : IsReadable w v vs) where
  read_message :
      read_client_hello (wire (record { window = w; version = v ∷ vs }) ++ rest) (make_slice 256)
      ≡ accepted (record { window = w; version = v ∷ vs }) rest
  read_message =
      read_wire w v vs rest (make_slice 256) h.window_pos h.window_word h.clean h.some_text
        (omega (arith, h.fits)) (inr (omega (arith, h.fits)))

  -- A client that offers the version of this protocol gets it, with its own window.
  pub read_greeting_offered :
      Offers (v ∷ vs)
      → read_greeting (wire (record { window = w; version = v ∷ vs }) ++ rest)
        ≡ returns (chosen w rest)
  unfolding read_greeting greet
  read_greeting_offered offered =
      rw read_message (ap returns (choose_offered (v ∷ vs) w rest offered))

  -- Any other client is told that its versions are not supported.
  pub read_greeting_refused :
      ¬ (Offers (v ∷ vs))
      → read_greeting (wire (record { window = w; version = v ∷ vs }) ++ rest)
        ≡ returns (greeting_code hello_invalid_version none rest)
  unfolding read_greeting greet
  read_greeting_refused missing = rw read_message (ap returns (choose_none (v ∷ vs) w rest missing))

-- A client that announces a window from 1 to 2^32 - 1 and versions of 246 to 256 bytes makes the
-- server panic, whatever it sends after that.
pub serve_panics :
    (s : Surroundings) (w vs : ℕ) (input : Bytes)
    → 0 < w
    → w < 2 ^ 32
    → 245 < vs
    → vs ≤ 256
    → serve s (flag ++ (sizes w vs ++ input)) ≡ panics
unfolding serve read_greeting
serve_panics s w vs input pos wide over within =
    rw (read_panics 256 w vs input (omega arith) pos wide (omega arith) (omega arith) within)
