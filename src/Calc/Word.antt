-- ===== src/Calc/Word.antt =====
-- The arithmetic of the calculator, kexts/calc.c: a `long long` is its 64-bit word of two's
-- complement. Sums and products wrap around.
use flopnix.Base.{
  ℕ, zero, suc, ◌+◌, ◌-◌, ◌*◌, ◌/◌, ◌%◌, ◌^◌, Bool, true, false, ◌&&◌, not, Option, none, some, ltb,
  leb, ◌==◌, if◌then◌else◌,
}

-- `n < 0`.
abbrev pub is_negative : ℕ → Bool
is_negative n = leb (2 ^ 63) n

-- `-n`.
abbrev pub negate : ℕ → ℕ
negate n = (2 ^ 64 - n) % 2 ^ 64

-- `n < 0 ? -n : n`.
abbrev pub magnitude : ℕ → ℕ
magnitude n = if is_negative n then negate n else n

-- The loop of `divll`, its rounds to go counted down.
unfoldable pub div_loop : (rounds ud un q rem : ℕ) → ℕ
div_loop zero ud un q rem = q
div_loop (suc k) ud un q rem =
    let next = rem * 2 % 2 ^ 64 + un / 2 ^ 63 in
    elim (leb ud next) [
      | true ↦ div_loop k ud (un * 2 % 2 ^ 64) (q * 2 % 2 ^ 64 + 1) (next - ud)
      | false ↦ div_loop k ud (un * 2 % 2 ^ 64) (q * 2 % 2 ^ 64) next
    ]

-- `(n < 0) ^ (d < 0)`.
abbrev pub signs_differ : ℕ → ℕ → Bool
signs_differ n d = if is_negative n then not (is_negative d) else is_negative d

unfoldable pub divll : ℕ → ℕ → ℕ
unfolding div_loop
divll n d =
    if d == 0
    then 0
    else let q = div_loop 64 (magnitude d) (magnitude n) 0 0 in
      if signs_differ n d then negate q else q

-- `a < b` of signed words.
abbrev pub less : ℕ → ℕ → Bool
less a b = ltb ((a + 2 ^ 63) % 2 ^ 64) ((b + 2 ^ 63) % 2 ^ 64)

abbrev pub wrap_add : ℕ → ℕ → ℕ
wrap_add a b = (a + b) % 2 ^ 64

-- FIX.
abbrev pub fix : ℕ
fix = 10000

-- FMAX.
abbrev pub fmax : ℕ
fmax = 999999999 * fix

-- `mul_ovf`; `none` is the overflow.
unfoldable pub mul_ovf : ℕ → ℕ → Option ℕ
mul_ovf a b =
    let p = a * b % 2 ^ 64 in if not (a == 0) && not (divll p a == b) then none else some p
