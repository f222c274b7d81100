-- ===== src/Pool/Rounds.antt =====
-- A round of the loop, which does nothing once the loop has ended.
use httpadapter.Common.{◌≡◌, refl, Bool, true, false, if◌then◌else◌}
use httpadapter.Pool.{Pool, Answer}

pub round_cases :
    (P : Pool → Type 0) (b : Bool) (x y : Pool × Answer)
    → (b ≡ true → P x.0)
    → (b ≡ false → P y.0)
    → P (let r : Pool × Answer = if b then x else y in r.0)
round_cases P true x y f g = f refl
round_cases P false x y f g = g refl
