-- ===== src/Pipe/Copying/InOrder.antt =====
-- What arrives at the destination, and which ends are closed.
use httpadapter.Common.{
  ℕ, ◌≡◌, refl, sym, ap, ◌∙◌, Option, none, some, List, [], ◌∷◌, ◌++◌, append-nil, append_assoc,
  take, drop, take-append-drop,
}
use httpadapter.Common.Bytes.{Bytes}
use httpadapter.Pipe.Copying.{
  Read, gives, fails, End, source, destination, Ends, Copied, waits, read_error, write_error,
  write_then, copy,
}

-- What the reads return before the first error.
abbrev pub arriving : List Read → Bytes
arriving [] = []
arriving (gives b ∷ rs) = b ++ arriving rs
arriving (fails b ∷ rs) = []

-- While `Copy` waits, it has written `all` and closed nothing; after the error of a read it has written
-- `all` and closed the source, then the destination; after the error of a write it has written a first
-- part of `all` and closed the destination, then the source.
abbrev pub StandsAt : Bytes → Bytes → Ends → Copied → Type 0
StandsAt before all r waits = (r.out ≡ before ++ all) × (r.closed ≡ [])
StandsAt before all r read_error = (r.out ≡ before ++ all) × (r.closed ≡ source ∷ destination ∷ [])
StandsAt before all r write_error =
    (rest : Bytes) × (r.out ++ rest ≡ before ++ all) × (r.closed ≡ destination ∷ source ∷ [])

more_before :
    (before b all : Bytes) (r : Ends) (e : Copied)
    → StandsAt (before ++ b) all r e
    → StandsAt before (b ++ all) r e
more_before before b all r waits (out, closed) = (out ∙ append_assoc before b all, closed)
more_before before b all r read_error (out, closed) = (out ∙ append_assoc before b all, closed)
more_before before b all r write_error (rest, out, closed) =
    (rest, out ∙ append_assoc before b all, closed)

closed_both : (a b : End) (s : Ends) → s.closed ≡ [] → s.closed ++ (a ∷ b ∷ []) ≡ a ∷ b ∷ []
closed_both a b s none_closed = ap (λ (c : List End). c ++ (a ∷ b ∷ [])) none_closed

written :
    (next : Ends → Copied × Ends) (b all : Bytes) (ts : List (Option ℕ)) (s : Ends)
    → ((q : Ends) → q.closed ≡ [] → let (e, r) = next q in StandsAt q.out all r e)
    → s.closed ≡ []
    → let (e, r) = write_then next b ts s in StandsAt s.out (b ++ all) r e
written next b all (none ∷ more) s later none_closed =
    let q : Ends = record s { out = s.out ++ b; takes = more } in
    more_before s.out b all (next q).1 (next q).0 (later q none_closed)
written next b all (some n ∷ more) s later none_closed = (
  drop n b ++ all,
  append_assoc s.out (take n b) (drop n b ++ all)
      ∙ ap (◌++◌ s.out) (
          sym (append_assoc (take n b) (drop n b) all)
          ∙ ap (λ (t : Bytes). t ++ all) (take-append-drop n b)),
  closed_both destination source s none_closed,
)
written next b all [] s later none_closed =
    (b ++ all, refl, closed_both destination source s none_closed)

-- From two open connections, whatever the reads return and however the writes end: what `Copy` has
-- written is, in order, what the reads returned without an error before the first error, all of it as
-- long as no write fails, and a first part of it after a write that failed; and it closes nothing
-- before it returns, and both ends when it does, first the one that failed.
pub copies_in_order :
    (rs : List Read) (s : Ends)
    → s.closed ≡ []
    → let (e, r) = copy rs s in StandsAt s.out (arriving rs) r e
unfolding copy
copies_in_order [] s none_closed = (sym (append-nil s.out), none_closed)
copies_in_order (fails b ∷ rs) s none_closed =
    (sym (append-nil s.out), closed_both source destination s none_closed)
copies_in_order (gives b ∷ rs) s none_closed =
    written (λ q. copy rs q) b (arriving rs) s.takes s (λ q h. copies_in_order rs q h) none_closed
