-- ===== src/Common/Text.antt =====
-- What the program uses of Go's strings and strconv packages, on texts as byte lists.
use Prim.Native.Nat.{ℕ, zero, suc, ◌+◌, ◌/◌, ◌%◌}
use mathlib.Core.Path.{◌≡◌, refl, ap, ◌∙◌}
use mathlib.Core.Logic.{◌≢◌}
use mathlib.Core.List.{List, [], ◌∷◌, ◌++◌}
use native.Mathlib.Omega.{arith}
use httpadapter.Common.Tests.{if◌then◌else◌, ltb, ◌==◌, ne→==}
use httpadapter.Common.Lists.{length, length-append}
use httpadapter.Common.Bytes.{Bytes}

abbrev pub comma : ℕ
comma = b','

-- `strings.Join(vs, ",")`
unfoldable pub join : List Bytes → Bytes
join [] = []
join (v ∷ []) = v
join (v ∷ w ∷ ws) = v ++ (comma ∷ join (w ∷ ws))

-- Puts a byte in front of the first text.
abbrev extend : ℕ → List Bytes → List Bytes
extend c [] = (c ∷ []) ∷ []
extend c (v ∷ vs) = (c ∷ v) ∷ vs

-- `strings.Split(s, ",")`
unfoldable pub split : Bytes → List Bytes
split [] = [] ∷ []
split (c ∷ cs) = if c == comma then [] ∷ split cs else extend c (split cs)

abbrev pub NoComma : Bytes → Type 0
NoComma [] = Unit {0}
NoComma (c ∷ cs) = (c ≢ comma) × NoComma cs

abbrev pub AllNoComma : List Bytes → Type 0
AllNoComma [] = Unit {0}
AllNoComma (v ∷ vs) = NoComma v × AllNoComma vs

split_last : (v : Bytes) → NoComma v → split v ≡ v ∷ []
unfolding split
split_last [] h = refl
split_last (c ∷ cs) h = rw (ne→== c comma h.0, split_last cs h.1)

split-append : (v r : Bytes) → NoComma v → split (v ++ (comma ∷ r)) ≡ v ∷ split r
unfolding split
split-append [] r h = refl
split-append (c ∷ cs) r h = rw (ne→== c comma h.0, split-append cs r h.1)

-- Texts that hold no comma are found again between the commas.
pub split-join :
    (v : Bytes) (vs : List Bytes) → AllNoComma (v ∷ vs) → split (join (v ∷ vs)) ≡ v ∷ vs
unfolding join
split-join v [] h = split_last v h.0
split-join v (w ∷ ws) h = split-append v (join (w ∷ ws)) h.0 ∙ ap (◌∷◌ v) (split-join w ws h.1)

-- The lengths of the texts together.
unfoldable pub total : List Bytes → ℕ
total [] = 0
total (v ∷ vs) = length v + total vs

pub length-join :
    (v : Bytes) (vs : List Bytes) → length (join (v ∷ vs)) ≡ length vs + total (v ∷ vs)
unfolding join total
length-join v [] = omega arith
length-join v (w ∷ ws) = omega (arith, length-append v (comma ∷ join (w ∷ ws)), length-join w ws)

-- `strconv.Itoa` on a number below 10 to the fuel.
digits_from : ℕ → ℕ → Bytes → Bytes
digits_from zero n acc = acc
digits_from (suc f) n acc =
    let d : ℕ = b'0' + n % 10 in
    let rest = digits_from f (n / 10) (d ∷ acc) in if ltb n 10 then d ∷ acc else rest

unfoldable pub itoa : ℕ → Bytes
unfolding digits_from
itoa n = digits_from (suc n) n []
