-- ===== src/ServerTransport/Reuse.antt =====
-- A channel id after its channel was closed.
use httpadapter.Common.{
  ℕ, zero, ◌<◌, ◌≡◌, ap, ◌∙◌, ◌&&◌, Option, none, some, ◌∷◌, arith, ltb, leb, if◌then◌else◌, length,
}
use httpadapter.Common.KeyMap.{lookup, erase, lookup-erase, length-erase_present}
use httpadapter.Transport.{IoChannel, close_channel}
use httpadapter.ServerTransport.{Options, Transport, create_code, close_key}
use httpadapter.ServerTransport.Invariant.{IsValid}

has_room : (m n : ℕ) → (0 < m → n < m) → (if ltb 0 m && leb m n then 2 else zero) ≡ zero
has_room m n h = ground arith

close_key_there :
    (t : Transport) (id : ℕ) (c : IoChannel)
    → lookup id t.keys ≡ some c
    → close_key t id ≡ record t { keys = erase id t.keys; dropped = close_channel c ∷ t.dropped }
unfolding close_key
close_key_there t id c e =
    ap
      (λ (o : Option IoChannel). elim o [
        | some d ↦ record t { keys = erase id t.keys; dropped = close_channel d ∷ t.dropped }
        | none ↦ t
      ])
      e

code_without :
    (o : Options) (t : Transport) (id : ℕ)
    → lookup id t.keys ≡ none
    → create_code o t id ≡ (if ltb 0 o.channels && leb o.channels (length t.keys) then 2 else 0)
unfolding create_code
code_without o t id e =
    ap
      (λ (x : Option IoChannel). elim x [
        | some c ↦ 1
        | none ↦ if ltb 0 o.channels && leb o.channels (length t.keys) then 2 else 0
      ])
      e

-- In a map that keeps its limit and has no id twice, a close command for a channel in the map
-- frees its id and its place: the code for a create command with the same id right after it is
-- success, also where the map was full.
pub close_makes_room :
    (o : Options) (t : Transport) (id : ℕ) (c : IoChannel)
    → IsValid o t
    → lookup id t.keys ≡ some c
    → create_code o (close_key t id) id ≡ 0
close_makes_room o t id c v there =
    ap (λ (u : Transport). create_code o u id) (close_key_there t id c there)
    ∙ code_without o _ id (lookup-erase id id t.keys ∙ ground arith)
    ∙ has_room o.channels (length (erase id t.keys))
        (λ h. omega (arith, length-erase_present id c t.keys there, v.1 h))
