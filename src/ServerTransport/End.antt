-- ===== src/ServerTransport/End.antt =====
-- The end of `Serve` of the server transport.
use httpadapter.Common.{
  ℕ, zero, suc, ◌<◌, ◌≡◌, refl, sym, subst, ◌⊎◌, inl, inr, Bool, true, false, ◌||◌, Option, none,
  some, List, [], ◌∷◌, map, arith, if◌then◌else◌, length,
}
use httpadapter.Common.Bytes.{Bytes}
use httpadapter.Transport.{IoChannel, close_channel, close_frame}
use httpadapter.ServerTransport.{
  Options, Transport, Step, goes, closes, breaks, stuck, send, step, clean_up, Served, finished,
  hangs, serve,
}
use httpadapter.ServerTransport.Invariant.{IsValid, send-IsValid, Fine, step-Fine}

-- Every channel in a map is closed.
abbrev pub AllClosed : List (ℕ × IoChannel) → Type 0
AllClosed [] = Unit {0}
AllClosed ((k, c) ∷ m) = (c.closed ≡ true) × AllClosed m

closed_either :
    (b : Bool) (c d : IoChannel)
    → c.closed ≡ b
    → d.closed ≡ true
    → (if b then c else d).closed ≡ true
closed_either true c d h h' = h
closed_either false c d h h' = h'

pub close_channel-closed : (c : IoChannel) → (close_channel c).closed ≡ true
unfolding close_channel
close_channel-closed c = closed_either c.closed c _ refl refl

closed-AllClosed :
    (m : List (ℕ × IoChannel)) → AllClosed (map (λ (p : ℕ × IoChannel). (p.0, close_channel p.1)) m)
closed-AllClosed [] = tt
closed-AllClosed ((k, c) ∷ m) = (close_channel-closed c, closed-AllClosed m)

pub Step-cases :
    (r : Step)
    → ((t : Transport) × (rest : Bytes) × (r ≡ goes t rest))
      ⊎ ((id : ℕ) × (t : Transport) × (rest : Bytes) × (r ≡ closes id t rest))
      ⊎ ((t : Transport) × (r ≡ breaks t))
      ⊎ (r ≡ stuck)
Step-cases (goes t rest) = inl (t, rest, refl)
Step-cases (closes id t rest) = inr (inl (id, t, rest, refl))
Step-cases (breaks t) = inr (inr (inl (t, refl)))
Step-cases stuck = inr (inr (inr refl))

-- Where `Serve` ends every channel is closed and the done signal is given. It waits for ever only where
-- the queue never has room and the done signal was not given.
abbrev pub Ends : (ℕ → Transport → Bool) → Option Served → Type 0
Ends room none = ⊥
Ends room (some (finished t)) = AllClosed t.keys × (t.gone ≡ true)
Ends room (some (hangs t)) = (t.gone ≡ false) × (n : ℕ) × (room n t ≡ false)

clean_up-Ends :
    (room : ℕ → Transport → Bool) (t : Transport) → Ends room (some (finished (clean_up t)))
unfolding clean_up
clean_up-Ends room t = (closed-AllClosed t.keys, refl)

serve_empty :
    (fuel : ℕ) (o : Options) (size_b : ℕ) (room : ℕ → Transport → Bool) (t : Transport)
    → serve (suc fuel) o size_b room t [] ≡ some (finished (clean_up t))
unfolding serve step
serve_empty fuel o size_b room t = refl

select-Ends :
    (room : ℕ → Transport → Bool) (t : Transport) (n : ℕ) (more : Option Served) (gone ready : Bool)
    → t.gone ≡ gone
    → room n t ≡ ready
    → Ends room more
    → Ends room (if gone || ready then more else some (hangs t))
select-Ends room t n more true ready g e h = h
select-Ends room t n more false true g e h = h
select-Ends room t n more false false g e h = (g, n, e)

-- `Serve` on a map that keeps its limit and has no id twice, on any input and however the queue of the
-- writer fares: with as much fuel as there are bytes, and one more, either it ends, with all channels that
-- are left closed and the done signal given, or it waits for ever in a `sendClose`, without the done
-- signal, in a state in which the queue never has room again. So it always ends if the queue always has
-- room sooner or later.
pub serve_ends :
    (fuel : ℕ) (o : Options) (size_b : ℕ) (room : ℕ → Transport → Bool) (t : Transport)
    (input : Bytes)
    → length input < fuel
    → IsValid o t
    → Ends room (serve fuel o size_b room t input)
unfolding serve
serve_ends zero o size_b room t input h v = absurd (omega arith)
serve_ends (suc fuel) o size_b room t [] h v =
    subst (Ends room) (sym (serve_empty fuel o size_b room t)) (clean_up-Ends room t)
serve_ends (suc fuel) o size_b room t (cmd ∷ input) h v =
    let fine = step-Fine o size_b t cmd input v in
    elim (Step-cases (step o size_b t (cmd ∷ input))) [
      | inl (t', rest, e) ↦
          let (v', le) = subst (Fine o (length input)) e fine in
          rw (e, serve) (serve_ends fuel o size_b room t' rest (omega (arith, le)) v')
      | inr (inl (id, t', rest, e)) ↦
          let (v', le) = subst (Fine o (length input)) e fine in
          rw (e, serve)
            (select-Ends room t' (length rest) _ t'.gone (room (length rest) t') refl refl (
              serve_ends fuel o size_b room (send (close_frame id) t') rest (omega (arith, le))
                (send-IsValid o (close_frame id) t' v')))
      | inr (inr (inl (t', e))) ↦ rw (e, serve) (clean_up-Ends room t')
      | inr (inr (inr e)) ↦ absurd (subst (Fine o (length input)) e fine)
    ]
