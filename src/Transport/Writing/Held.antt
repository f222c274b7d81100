-- ===== src/Transport/Writing/Held.antt =====
-- What a `Write` and a `Flush` leave on the connection and in the buffer.
use httpadapter.Common.{
  ℕ, ◌-◌, ◌≤◌, ◌≡◌, refl, sym, ap, subst, ◌∙◌, ◌⊎◌, inl, inr, Bool, true, false, Option, none, some,
  List, [], ◌∷◌, ◌++◌, append-nil, append_assoc, arith, leb, ◌==◌, if◌then◌else◌, ==→eq, Bool-cases,
  length, take, drop, length-append, take-append-drop, empty_of_length,
}
use httpadapter.Common.Bytes.{Bytes}
use httpadapter.Transport.Writing.{
  write_as, emptied, flush_bytes, Output, write_conn, flush, buffer, write_rest, write_buffered,
  write,
}

-- What a write leaves: all the bytes in order on the connection and in the buffer; or an error, and
-- the first of them on the connection.
pub data Holds (taken : Bytes) (o : Output) : Type 0 where
  holds :
      o.broken ≡ false → o.out ++ o.buffered ≡ taken → length o.buffered ≤ o.size → Holds taken o
  stops : o.broken ≡ true → (rest : Bytes) → o.out ++ rest ≡ taken → Holds taken o

-- The bytes `b` went to the connection, or the first of them and an error.
abbrev Went : Bytes → Output → Output → Type 0
Went b o r =
    ((r.broken ≡ false) × (r.out ≡ o.out ++ b) × (r.size ≡ o.size))
    ⊎ ((n : ℕ) × (r.broken ≡ true) × (r.out ≡ o.out ++ take n b))

leb→le : (a b : ℕ) → leb a b ≡ true → a ≤ b
leb→le a b h = ground arith

true_not_false : ¬ (true ≡ false)
true_not_false e = cc e

not_both : (b : Bool) → b ≡ true → b ≡ false → ⊥
not_both true e f = true_not_false f
not_both false e f = true_not_false (sym e)

if_broken : (r : Output) → r.broken ≡ true → emptied r ≡ r
if_broken r e = ground arith

if_whole : (r : Output) → r.broken ≡ false → emptied r ≡ record r { buffered = [] }
if_whole r e = ground arith

was_emptied : (r : Output) → (emptied r).broken ≡ false → (emptied r).buffered ≡ []
was_emptied r h = elim (Bool-cases r.broken) [
  | inl e ↦ absurd (not_both r.broken e (sym (ap (λ (x : Output). x.broken) (if_broken r e)) ∙ h))
  | inr e ↦ ap (λ (x : Output). x.buffered) (if_whole r e)
]

write_as-Went :
    (ts : List (Option ℕ)) (b : Bytes) (o : Output) → o.broken ≡ false → Went b o (write_as ts b o)
write_as-Went (none ∷ more) b o fine = inl (fine, refl, refl)
write_as-Went (some n ∷ more) b o fine = inr (n, refl, refl)
write_as-Went [] b o fine = inr (0, refl, sym (append-nil o.out))

write_conn-Went : (b : Bytes) (o : Output) → o.broken ≡ false → Went b o (write_conn b o)
unfolding write_conn
write_conn-Went b o fine = write_as-Went o.takes b o fine

emptied-Went : (b : Bytes) (o r : Output) → Went b o r → Went b o (emptied r)
emptied-Went b o r (inl (fine, out, size)) =
    subst (Went b o) (sym (if_whole r fine)) (inl (fine, out, size))
emptied-Went b o r (inr (n, error, out)) =
    subst (Went b o) (sym (if_broken r error)) (inr (n, error, out))

flush_bytes-Went :
    (b : Bytes) (o : Output) → o.broken ≡ false → o.buffered ≡ b → Went b o (flush_bytes b o)
flush_bytes-Went [] o fine e = inl (fine, sym (append-nil o.out), refl)
flush_bytes-Went (x ∷ b) o fine e = emptied-Went (x ∷ b) o _ (write_conn-Went (x ∷ b) o fine)

flush_bytes_empties :
    (b : Bytes) (o : Output)
    → o.buffered ≡ b
    → (flush_bytes b o).broken ≡ false
    → (flush_bytes b o).buffered ≡ []
flush_bytes_empties [] o e h = e
flush_bytes_empties (x ∷ b) o e h = was_emptied (write_conn (x ∷ b) o) h

flush-Went : (o : Output) → o.broken ≡ false → Went o.buffered o (flush o)
unfolding flush
flush-Went o fine = flush_bytes-Went o.buffered o fine refl

pub flush_empties : (o : Output) → (flush o).broken ≡ false → (flush o).buffered ≡ []
unfolding flush
flush_empties o h = flush_bytes_empties o.buffered o refl h

write_as_keeps :
    (ts : List (Option ℕ)) (b : Bytes) (o : Output) → (write_as ts b o).buffered ≡ o.buffered
write_as_keeps (none ∷ more) b o = refl
write_as_keeps (some n ∷ more) b o = refl
write_as_keeps [] b o = refl

write_conn_keeps : (b : Bytes) (o : Output) → (write_conn b o).buffered ≡ o.buffered
unfolding write_conn
write_conn_keeps b o = write_as_keeps o.takes b o

Went-Holds :
    (b taken : Bytes) (o r : Output)
    → o.out ++ b ≡ taken
    → (r.broken ≡ false → r.buffered ≡ [])
    → Went b o r
    → Holds taken r
Went-Holds b taken o r all empty (inl (fine, out, size)) =
    holds fine (ap (◌++◌ r.out) (empty fine) ∙ append-nil r.out ∙ out ∙ all)
      (subst (λ (t : Bytes). length t ≤ r.size) (sym (empty fine)) (omega arith))
Went-Holds b taken o r all empty (inr (n, error, out)) = stops error (drop n b) (
    ap (λ (t : Bytes). t ++ drop n b) out
    ∙ append_assoc o.out (take n b) (drop n b)
    ∙ ap (◌++◌ o.out) (take-append-drop n b)
    ∙ all)

-- A write on the connection while nothing is in the buffer.
direct-Holds :
    (b taken : Bytes) (o : Output)
    → o.broken ≡ false
    → o.buffered ≡ []
    → o.out ≡ taken
    → Holds (taken ++ b) (write_conn b o)
direct-Holds b taken o fine empty all =
    Went-Holds b (taken ++ b) o (write_conn b o) (ap (λ (t : Bytes). t ++ b) all)
      (λ ok. write_conn_keeps b o ∙ empty) (write_conn-Went b o fine)

pub flush-Holds :
    (taken : Bytes) (o : Output)
    → o.broken ≡ false
    → o.out ++ o.buffered ≡ taken
    → Holds taken (flush o)
flush-Holds taken o fine all =
    Went-Holds o.buffered taken o (flush o) all (flush_empties o) (flush-Went o fine)

-- After a flush without an error everything is on the connection.
pub flushed :
    (taken : Bytes) (o : Output)
    → (flush o).broken ≡ false
    → Holds taken (flush o)
    → (flush o).out ≡ taken
flushed taken o fine (holds ok all fits) =
    sym (append-nil (flush o).out) ∙ ap (◌++◌ (flush o).out) (sym (flush_empties o fine)) ∙ all
flushed taken o fine (stops error rest all) = absurd (not_both (flush o).broken error fine)

-- What comes after an error is not written.
more_rest :
    (taken after : Bytes) (o : Output) → o.broken ≡ true → Holds taken o → Holds (taken ++ after) o
more_rest taken after o error (holds ok all fits) = absurd (not_both o.broken error ok)
more_rest taken after o error (stops e rest all) =
    stops e (rest ++ after)
      (sym (append_assoc o.out rest after) ∙ ap (λ (t : Bytes). t ++ after) all)

buffer-Holds :
    (b taken : Bytes) (o : Output)
    → o.broken ≡ false
    → o.out ++ o.buffered ≡ taken
    → length b ≤ o.size - length o.buffered
    → length o.buffered ≤ o.size
    → Holds (taken ++ b) (buffer b o)
buffer-Holds b taken o fine all room fits =
    holds fine (sym (append_assoc o.out o.buffered b) ∙ ap (λ (t : Bytes). t ++ b) all)
      (subst (λ (n : ℕ). n ≤ o.size) (sym (length-append o.buffered b)) (omega arith))

room_left : (a b n : ℕ) → n ≡ 0 → a ≤ b → a ≤ b - n
room_left a b n z h = omega arith

rest-Holds :
    (b taken : Bytes) (o : Output)
    → o.broken ≡ false
    → o.buffered ≡ []
    → o.out ≡ taken
    → Holds (taken ++ b) (write_rest b o)
rest-Holds b taken o fine empty all = elim (Bool-cases (leb (length b) o.size)) [
  | inl e ↦
      let l = ap (λ (t : Bytes). length t) empty in
      let fit = leb→le (length b) o.size e in
      rw e (
        buffer-Holds b taken o fine (ap (◌++◌ o.out) empty ∙ append-nil o.out ∙ all)
          (room_left (length b) o.size (length o.buffered) l fit)
          (subst (λ (n : ℕ). n ≤ o.size) (sym l) (omega arith)))
  | inr e ↦ rw e (direct-Holds b taken o fine empty all)
]

if-Holds :
    (c : Bool) (taken : Bytes) (x y : Output)
    → (c ≡ true → Holds taken x)
    → (c ≡ false → Holds taken y)
    → Holds taken (if c then x else y)
if-Holds true taken x y f g = f refl
if-Holds false taken x y f g = g refl

-- The filled buffer was flushed; `b` is left.
filled-Holds :
    (b taken : Bytes) (o : Output)
    → Holds taken (flush o)
    → Holds (taken ++ b) (if (flush o).broken then flush o else write_rest b (flush o))
filled-Holds b taken o h =
    if-Holds (flush o).broken (taken ++ b) (flush o) (write_rest b (flush o))
      (λ e. more_rest taken b (flush o) e h)
      (λ e. rest-Holds b taken (flush o) e (flush_empties o e) (flushed taken o e h))

full-Holds :
    (room : ℕ) (b taken : Bytes) (o : Output)
    → o.broken ≡ false
    → o.out ++ o.buffered ≡ taken
    → let filled = flush (buffer (take room b) o) in
      Holds (taken ++ b) (if filled.broken then filled else write_rest (drop room b) filled)
full-Holds room b taken o fine all =
    let filled = buffer (take room b) o in
    let more =
      sym (append_assoc o.out o.buffered (take room b))
      ∙ ap (λ (t : Bytes). t ++ take room b) all in
    subst
      (λ (t : Bytes).
        Holds t
          (if (flush filled).broken then flush filled else write_rest (drop room b) (flush filled)))
      (append_assoc taken (take room b) (drop room b) ∙ ap (◌++◌ taken) (take-append-drop room b))
      (filled-Holds (drop room b) (taken ++ take room b) filled
        (flush-Holds (taken ++ take room b) filled fine more))

write_buffered-Holds :
    (b taken : Bytes) (o : Output)
    → o.broken ≡ false
    → o.out ++ o.buffered ≡ taken
    → length o.buffered ≤ o.size
    → Holds (taken ++ b) (write_buffered b o)
unfolding write_buffered
write_buffered-Holds b taken o fine all fits =
    let room = o.size - length o.buffered in
    elim (Bool-cases (leb (length b) room)) [
      | inl e ↦ rw e (buffer-Holds b taken o fine all (leb→le (length b) room e) fits)
      | inr e ↦ rw e (elim (Bool-cases (length o.buffered == 0)) [
        | inl z ↦
            let empty = empty_of_length o.buffered (==→eq (length o.buffered) 0 z) in
            rw z (
              direct-Holds b taken o fine empty
                (sym (append-nil o.out) ∙ ap (◌++◌ o.out) (sym empty) ∙ all))
        | inr z ↦ rw z (full-Holds room b taken o fine all)
      ])
    ]

pub write-Holds :
    (b taken : Bytes) (o : Output)
    → o.broken ≡ false
    → o.out ++ o.buffered ≡ taken
    → length o.buffered ≤ o.size
    → Holds (taken ++ b) (write b o)
unfolding write
write-Holds b taken o fine all fits = elim (Bool-cases (o.size == 0)) [
  | inl e ↦
      let z = ==→eq o.size 0 e in
      let empty = empty_of_length o.buffered (omega arith) in
      rw e (
        direct-Holds b taken o fine empty
          (sym (append-nil o.out) ∙ ap (◌++◌ o.out) (sym empty) ∙ all))
  | inr e ↦ rw e (write_buffered-Holds b taken o fine all fits)
]
