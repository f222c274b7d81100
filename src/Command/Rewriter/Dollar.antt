-- ===== src/Command/Rewriter/Dollar.antt =====
-- A regular expression that ends with a dollar sign.
use httpadapter.Common.{
  ◌-◌, ◌≡◌, refl, ap, Bool, false, some, ◌∷◌, ◌++◌, arith, length, take, length-append, take-append,
}
use httpadapter.Common.Bytes.{Bytes, codes, bytes_eq}
use httpadapter.Command.Rewriter.{has_prefix, matcher_suffix, new_matcher}
use httpadapter.Command.Rewriter.Meaning.{cut_after}

not_star : (t : Bytes) → bytes_eq (64 ∷ t) (codes "*") ≡ false
unfolding bytes_eq
not_star t = refl

not_caret : (t : Bytes) → has_prefix (codes "^") (64 ∷ t) ≡ false
unfolding has_prefix bytes_eq
not_caret t = ground arith

before_end : (p : Bytes) → take (length (p ++ codes "$") - 1) (p ++ codes "$") ≡ p
before_end p =
    take-append (length (p ++ codes "$") - 1) p (codes "$")
      (omega (arith, length-append p (codes "$")))

-- A regular expression that ends with `$`, as one that is to match a whole text does, makes no
-- regular expression: it is taken for the suffix that stands before the `$`, `@` included.
pub regexp_with_end :
    (compiles : Bytes → Bool) (r : Bytes)
    → new_matcher compiles (codes "@" ++ (r ++ codes "$")) ≡ some (matcher_suffix (codes "@" ++ r))
unfolding new_matcher
regexp_with_end compiles r =
    rw
      (
        not_star (r ++ codes "$"),
        not_caret (r ++ codes "$"),
        cut_after (codes "$") (codes "@" ++ (r ++ codes "$")) (codes "@" ++ r) refl,
      )
      (ap (λ (t : Bytes). some (matcher_suffix t)) (before_end (codes "@" ++ r)))
