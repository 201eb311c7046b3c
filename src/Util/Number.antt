-- ===== src/Util/Number.antt =====
-- `numstr` and `k_atoi` of src/util.c. The `int` of `k_atoi` is its 32 bits, a number below 2^32; a
-- sum that is too large, which C leaves undefined, wraps around there.
pub mod Laws
mod Tests
use flopnix.Base.{
  ℕ, zero, suc, ◌+◌, ◌-◌, ◌*◌, ◌/◌, ◌%◌, ◌^◌, Bool, true, false, ◌&&◌, ◌||◌, List, [], ◌∷◌, ltb,
  leb, ◌==◌, if◌then◌else◌,
}
use flopnix.Base.Int.{ℤ, pos, negsuc}

-- `d < 10 ? '0' + d : 'a' + d - 10`.
abbrev pub digit : ℕ → ℕ
digit d = if ltb d 10 then 48 + d else 97 + d - 10

-- The first loop of `numstr`, with the digits so far; `v + 1` rounds are enough.
unfoldable pub digits_loop : ℕ → ℕ → ℕ → List ℕ → List ℕ
digits_loop base v zero out = out
digits_loop base v (suc fuel) out = elim (v / base == 0) [
  | true ↦ digit (v % base) ∷ out
  | false ↦ digits_loop base (v / base) fuel (digit (v % base) ∷ out)
]

-- `numstr`.
unfoldable pub numstr : ℕ → ℕ → Bool → List ℕ
unfolding digits_loop
numstr v base neg = let ds = digits_loop base v (suc v) [] in if neg then 45 ∷ ds else ds

-- A decimal digit.
abbrev is_digit : ℕ → Bool
is_digit c = leb 48 c && leb c 57

-- An `int` by its 32 bits.
abbrev pub signed32 : ℕ → ℤ
signed32 w = if ltb w (2 ^ 31) then pos w else negsuc (2 ^ 32 - w - 1)

-- `-v`.
abbrev minus32 : ℕ → ℕ
minus32 w = (2 ^ 32 - w) % 2 ^ 32

-- The loop of `k_atoi` over the digits.
atoi_digits : ℕ → List ℕ → ℕ
atoi_digits v [] = v
atoi_digits v (c ∷ cs) = if is_digit c then atoi_digits ((v * 10 + (c - 48)) % 2 ^ 32) cs else v

-- The sign, and then the digits.
atoi_sign : List ℕ → ℤ
unfolding atoi_digits
atoi_sign [] = signed32 0
atoi_sign (c ∷ cs) =
    if c == 45
    then signed32 (minus32 (atoi_digits 0 cs))
    else if c == 43
    then signed32 (atoi_digits 0 cs)
    else signed32 (atoi_digits 0 (c ∷ cs))

-- `k_atoi`: spaces and tabs, a sign, digits.
pub atoi : List ℕ → ℤ
unfolding atoi_sign
atoi [] = signed32 0
atoi (c ∷ cs) = if (c == 32) || (c == 9) then atoi cs else atoi_sign (c ∷ cs)
