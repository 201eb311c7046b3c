-- ===== src/Util/Sort/Tests.antt =====
-- `ksort` on four numbers, and its theorems there.
use mathlib.Core.List.{Perm}
use flopnix.Base.{ℕ, ◌≡◌, refl, List, [], ◌∷◌, ltb, arith}
use flopnix.Util.Sort.{ksort, Ascending, ksort-Ascending}

abbrev numbers : List ℕ
numbers = 3 ∷ 1 ∷ 2 ∷ 1 ∷ []

sorts : ksort (λ a b. ltb b a) 4 numbers ≡ 1 ∷ 1 ∷ 2 ∷ 3 ∷ []
unfolding ksort
sorts = refl

ksort-Ascending_example :
    Ascending (λ a b. ltb b a) (ksort (λ a b. ltb b a) 4 numbers)
    × Perm (ksort (λ a b. ltb b a) 4 numbers) numbers
ksort-Ascending_example =
    ksort-Ascending (λ a b. ltb b a) (λ a b h. ground arith) (λ a b c h g. ground arith) 4 numbers
      (omega arith)
