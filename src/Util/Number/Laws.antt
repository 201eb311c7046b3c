-- ===== src/Util/Number/Laws.antt =====
-- Printing a number in decimal and reading it back, and the length of what is printed.
use flopnix.Base.{
  ℕ, zero, suc, ◌+◌, ◌/◌, ◌%◌, ◌^◌, ◌≤◌, ◌<◌, ◌≡◌, ◌⊎◌, refl, ap, ◌∙◌, Bool, true, false, ◌||◌,
  List, [], ◌∷◌, ◌==◌, if◌then◌else◌, length, arith, Bool-cases, inl, inr,
}
use native.Mathlib.Nat.{pow-suc}
use flopnix.Util.Number.{
  digit, digits_loop, numstr, signed32, minus32, atoi_digits, atoi_sign, atoi,
}
use flopnix.Base.Int.{pos, sub_ℕ}

-- Reading the digits printed so far from `a` on gives what reading them all gives.
digits-read :
    (v fuel : ℕ) (out : List ℕ)
    → v < fuel
    → v < 2 ^ 32
    → atoi_digits 0 (digits_loop 10 v fuel out) ≡ atoi_digits v out
unfolding digits_loop atoi_digits
digits-read v zero out h w = absurd (omega arith)
digits-read v (suc fuel) out h w = elim (Bool-cases (v / 10 == 0)) [
  | inl last ↦ rw (last, digits_loop) (ground arith)
  | inr more ↦
      rw (more, digits_loop)
        (digits-read (v / 10) fuel (digit (v % 10) ∷ out) (ground arith) (omega arith)
          ∙ ground arith)
]

-- A list that starts with a decimal digit.
abbrev Starts : List ℕ → Type 0
Starts [] = ⊥
Starts (c ∷ cs) = (48 ≤ c) × (c ≤ 57)

digits-Starts : (v fuel : ℕ) (out : List ℕ) → v < fuel → Starts (digits_loop 10 v fuel out)
unfolding digits_loop
digits-Starts v zero out h = absurd (omega arith)
digits-Starts v (suc fuel) out h = elim (Bool-cases (v / 10 == 0)) [
  | inl last ↦ rw (last, digits_loop) (ground arith)
  | inr more ↦
      rw (more, digits_loop) (digits-Starts (v / 10) fuel (digit (v % 10) ∷ out) (ground arith))
]

Starts-atoi : (cs : List ℕ) → Starts cs → atoi cs ≡ signed32 (atoi_digits 0 cs)
unfolding atoi atoi_sign
Starts-atoi [] s = absurd s
Starts-atoi (c ∷ cs) s =
    let blank : ((c == 32) || (c == 9)) ≡ false = ground arith in
    let minus : (c == 45) ≡ false = ground arith in
    let plus : (c == 43) ≡ false = ground arith in rw (blank, atoi) (rw (minus, plus) refl)

-- `k_atoi` reads what `numstr` prints in decimal, with its sign, for a number below 2^31.
pub atoi-numstr :
    (v : ℕ) (neg : Bool) → v < 2 ^ 31 → atoi (numstr v 10 neg) ≡ (if neg then sub_ℕ 0 v else pos v)
unfolding numstr atoi atoi_sign
atoi-numstr v true h =
    ap (λ n. signed32 (minus32 n)) (digits-read v (suc v) [] (omega arith) (omega arith))
    ∙ ground arith
atoi-numstr v false h =
    Starts-atoi (digits_loop 10 v (suc v) []) (digits-Starts v (suc v) [] (omega arith))
    ∙ ap signed32 (digits-read v (suc v) [] (omega arith) (omega arith))
    ∙ ground arith

length-digits :
    (base v fuel k : ℕ) (out : List ℕ)
    → (base ≡ 10) ⊎ (base ≡ 16)
    → v < 10 ^ suc k
    → length (digits_loop base v fuel out) ≤ suc k + length out
unfolding digits_loop
length-digits base v zero k out b h = omega arith
length-digits base v (suc fuel) zero out b h =
    let last : (v / base == 0) ≡ true = elim b [
      | inl ten ↦ rw ten (ground arith)
      | inr sixteen ↦ rw sixteen (ground arith)
    ] in
    rw (last, digits_loop) (omega arith)
length-digits base v (suc fuel) (suc k) out b h = elim (Bool-cases (v / base == 0)) [
  | inl last ↦ rw (last, digits_loop) (omega arith)
  | inr more ↦
      let less : v / base < 10 ^ suc k = elim b [
        | inl ten ↦ rw ten (omega (arith, h, pow-suc 10 (suc k)))
        | inr sixteen ↦ rw sixteen (omega (arith, h, pow-suc 10 (suc k)))
      ] in
      rw (more, digits_loop)
        (omega (arith, length-digits base (v / base) fuel k (digit (v % base) ∷ out) b less))
]

-- In base 10 or 16 a 32-bit number has ten digits at most, so the buffer of 12 bytes that holds
-- them, and one of 16 with the sign and the 0, never overflow.
pub length-numstr :
    (v base : ℕ) (neg : Bool)
    → (base ≡ 10) ⊎ (base ≡ 16)
    → v < 2 ^ 32
    → length (numstr v base neg) ≤ 10 + (if neg then 1 else 0)
unfolding numstr
length-numstr v base true b h = omega (arith, length-digits base v (suc v) 9 [] b (omega arith))
length-numstr v base false b h = omega (arith, length-digits base v (suc v) 9 [] b (omega arith))
