-- ===== src/Calc/Tests.antt =====
-- Runs of the calculator, and its theorems at an input.
use flopnix.Base.{ℕ, ◌≡◌, refl, arith, true, false, List, [], ◌∷◌, if◌then◌else◌}
use flopnix.Calc.Word.{magnitude, signs_differ, negate, divll}
use flopnix.Calc.Divide.{Divides, divll-Divides}
use flopnix.Calc.{Calc, press}
use flopnix.Calc.Laws.{IsCalc, press-IsCalc}

abbrev start : Calc
start = record { acc = 0; entry = []; pend = 0; err = false }

-- The keys, one after the other.
abbrev keys : Calc → List ℕ → Calc
keys s [] = s
keys s (k ∷ ks) = keys (press k s) ks

-- 1.5 * 12 = 18, and 7 / 0 is an error.
product : (keys start (b'1' ∷ b'.' ∷ b'5' ∷ b'*' ∷ b'1' ∷ b'2' ∷ b'=' ∷ [])).acc ≡ 180000
unfolding press
product = refl

by_zero : (keys start (b'7' ∷ b'/' ∷ b'0' ∷ b'=' ∷ [])).err ≡ true
unfolding press
by_zero = refl

quotient : divll (negate 7) 2 ≡ negate 3
unfolding divll
quotient = refl

divll-Divides_example :
    (q : ℕ) × Divides (magnitude (negate 7)) (magnitude 2) q
    × (divll (negate 7) 2 ≡ (if signs_differ (negate 7) 2 then negate q else q))
divll-Divides_example =
    divll-Divides (negate 7) 2 (omega arith) (omega arith) (λ e. omega (arith, e))

press-IsCalc_example : IsCalc (press b'5' start)
press-IsCalc_example = press-IsCalc b'5' start (omega arith, omega arith, omega arith)
