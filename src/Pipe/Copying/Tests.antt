-- ===== src/Pipe/Copying/Tests.antt =====
-- pipe/io.go on examples.
use httpadapter.Common.{◌≡◌, refl, none, some, List, [], ◌∷◌}
use httpadapter.Pipe.Copying.{Read, gives, fails, Ends, copy}
use httpadapter.Pipe.Copying.InOrder.{StandsAt, arriving, copies_in_order}

-- The second write fails after a byte.
abbrev ends : Ends
ends = record { out = []; takes = none ∷ some 1 ∷ []; closed = [] }

abbrev reads : List Read
reads = gives (1 ∷ 2 ∷ []) ∷ gives (3 ∷ 4 ∷ []) ∷ fails [] ∷ []

copy-out : (copy reads ends).1.out ≡ 1 ∷ 2 ∷ 3 ∷ []
unfolding copy
copy-out = refl

copies_in_order_example : let (e, r) = copy reads ends in StandsAt [] (arriving reads) r e
copies_in_order_example = copies_in_order reads ends refl
