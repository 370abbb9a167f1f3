-- ===== src/Util/Examples.antt =====
-- The theorems on the array at concrete inputs.
use gputop.Base.{[], ◌∷◌, arith, refl}
use gputop.Util.{Array}
use gputop.Util.Elements.{IsValid}

-- Three elements of two bytes in a full block.
abbrev three : Array
three = record { elem_size = 2; len = 3; size = 6; bytes = 1 ∷ 2 ∷ 3 ∷ 4 ∷ 5 ∷ 6 ∷ [] }

three-IsValid : IsValid three
three-IsValid = record { block = refl; fits = omega arith }
