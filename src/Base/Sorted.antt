-- ===== src/Base/Sorted.antt =====
-- Strictly increasing lists of numbers.
use Prim.Native.Nat.{ℕ, ◌≤◌, ◌<◌}
use mathlib.Core.List.{List, [], ◌∷◌}
use native.Mathlib.Omega.{arith}

-- Every number of the list is above `lo`, and each is below the next.
abbrev pub Above : ℕ → List ℕ → Type 0
Above lo [] = Unit {0}
Above lo (x ∷ xs) = (lo < x) × Above x xs

-- Strictly increasing.
abbrev pub IsIncreasing : List ℕ → Type 0
IsIncreasing [] = Unit {0}
IsIncreasing (x ∷ xs) = Above x xs

pub Above-mono : {a b : ℕ} (xs : List ℕ) → a ≤ b → Above b xs → Above a xs
Above-mono [] h s = tt
Above-mono (x ∷ xs) h s = (omega arith, s.1)

pub Above-IsIncreasing : (lo : ℕ) (xs : List ℕ) → Above lo xs → IsIncreasing xs
Above-IsIncreasing lo [] s = tt
Above-IsIncreasing lo (x ∷ xs) s = s.1
