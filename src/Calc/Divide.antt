-- ===== src/Calc/Divide.antt =====
-- The long division of the calculator divides.
use Prim.Native.Nat.pow
use native.Mathlib.Nat.{add-mul, mul_right_comm, mul_assoc, mul-le-mul_left, mul-le-mul_right}
use flopnix.Base.{
  ℕ, zero, suc, ◌+◌, ◌-◌, ◌*◌, ◌/◌, ◌%◌, ◌^◌, ◌≤◌, ◌<◌, ◌≡◌, ◌≢◌, refl, sym, ap, ◌∙◌, inl, inr, leb,
  if◌then◌else◌, arith, dec_lt, ℕ_discrete, Bool-cases, Bool, true, false, ◌==◌,
}
use flopnix.Calc.Word.{negate, magnitude, div_loop, signs_differ, divll}

-- A quotient, with the remainder that shows it.
abbrev pub Divides : (n d q : ℕ) → Type 0
Divides n d q = (r : ℕ) × (r < d) × (n ≡ q * d + r)

product_lt : (m s t : ℕ) → m < s → m * t + t ≤ s * t
product_lt m zero t h = absurd (omega arith)
product_lt zero (suc s) t h = omega arith
product_lt (suc m) (suc s) t h = omega (arith, product_lt m s t (omega arith))

factor_pos : (s t : ℕ) → s * t ≡ 2 ^ 63 → 0 < t
factor_pos s zero h = absurd (omega (arith, h))
factor_pos s (suc t) h = omega arith

-- The bit that is shifted out of `un`, the top `k + 1` bits of which are `m`.
shifted_low :
    (s t m un : ℕ)
    → s * t ≡ 2 ^ 63
    → un ≡ m * t
    → m < s
    → (un / 2 ^ 63 ≡ 0) × (un * 2 % 2 ^ 64 ≡ m * (t * 2))
shifted_low s t m un st u h =
    let below : m * t + t ≤ s * t = product_lt m s t h in
    let some_t : 0 < t = factor_pos s t st in
    (grind (arith, below, st, u, some_t), grind (arith, below, st, u, some_t))

shifted_high :
    (s t m un : ℕ)
    → s * t ≡ 2 ^ 63
    → un ≡ (s + m) * t
    → m < s
    → (un / 2 ^ 63 ≡ 1) × (un * 2 % 2 ^ 64 ≡ m * (t * 2))
shifted_high s t m un st u h =
    let below : m * t + t ≤ s * t = product_lt m s t h in
    let some_t : 0 < t = factor_pos s t st in
    (grind (arith, below, st, u, some_t), grind (arith, below, st, u, some_t))

-- The bit that is shifted out, and what is left.
halved :
    (s t m un : ℕ)
    → s * t ≡ 2 ^ 63
    → un ≡ m * t
    → m < s * 2
    → (b : ℕ) × (m' : ℕ) × (un / 2 ^ 63 ≡ b)
      × (un * 2 % 2 ^ 64 ≡ m' * (t * 2))
      × (m ≡ b * s + m')
      × (m' < s)
      × (b ≤ 1)
halved s t m un st u h = elim (dec_lt m s) [
  | yes low ↦
      let out = shifted_low s t m un st u low in (0, m, out.0, out.1, omega arith, low, omega arith)
  | no high ↦
      let same : s + (m - s) ≡ m = omega (arith, high) in
      let out =
        shifted_high s t (m - s) un st (u ∙ ap (λ x. x * t) (sym same)) (omega (arith, high, h)) in
      (1, m - s, out.0, out.1, omega (arith, same), omega (arith, high, h), omega arith)
]

halve : (s h t : ℕ) → s ≡ h * 2 → s * t ≡ 2 ^ 64 → h * t ≡ 2 ^ 63
halve s h t e st =
    let twice : h * t * 2 ≡ s * t = mul_right_comm h t 2 ∙ ap (λ x. x * t) (sym e) in
    omega (arith, twice, st)

-- A round that subtracts, and one that does not.
subtracted :
    (h s m m' b x ud rem next r : ℕ)
    → s ≡ h * 2
    → m ≡ b * h + m'
    → next ≡ rem * 2 + b
    → ud ≤ next
    → (next - ud) * h + m' ≡ x * ud + r
    → rem * s + m ≡ (h + x) * ud + r
subtracted h s m m' b x ud rem next r f e n fits t =
    let back : (next - ud) * h + ud * h ≡ next * h =
      sym (add-mul (next - ud) ud h) ∙ ap (λ y. y * h) (omega (arith, fits)) in
    let out : next * h ≡ (rem * 2 + b) * h = ap (λ y. y * h) n in
    rw f (omega (arith, e, t, back, out))

kept :
    (h s m m' b x ud rem next r : ℕ)
    → s ≡ h * 2
    → m ≡ b * h + m'
    → next ≡ rem * 2 + b
    → next * h + m' ≡ x * ud + r
    → rem * s + m ≡ x * ud + r
kept h s m m' b x ud rem next r f e n t =
    let out : next * h ≡ (rem * 2 + b) * h = ap (λ y. y * h) n in rw f (omega (arith, e, t, out))

quotient_fits : (q h : ℕ) → 0 < h → (q + 1) * (h * 2) ≤ 2 ^ 64 → q * 2 % 2 ^ 64 ≡ q * 2
quotient_fits q zero p full = absurd (omega arith)
quotient_fits q (suc h) p full =
    let least : (q + 1) * 2 ≤ (q + 1) * (suc h * 2) = mul-le-mul_left (q + 1) (omega arith) in
    omega (arith, full, least)

-- The quotient so far, with one bit more.
longer : (q q' h s b x : ℕ) → q' ≡ q * 2 → s ≡ h * 2 → (q' + b) * h + x ≡ q * s + (b * h + x)
longer q q' h s b x e f = rw (e, f) (omega arith)

room_left :
    (q q' h s b : ℕ)
    → q' ≡ q * 2
    → s ≡ h * 2
    → b ≤ 1
    → (q + 1) * s ≤ 2 ^ 64
    → (q' + b + 1) * h ≤ 2 ^ 64
room_left q q' h s b e f small full =
    let twice : (q + 1) * (h * 2) ≤ 2 ^ 64 = rw f at full in
    let bit : b * h ≤ 1 * h = mul-le-mul_right h small in rw e (omega (arith, twice, bit))

div_loop-Divides :
    (k s t m un ud q rem : ℕ)
    → s ≡ 2 ^ k
    → s * t ≡ 2 ^ 64
    → un ≡ m * t
    → m < s
    → ud ≤ 2 ^ 63
    → rem < ud
    → (q + 1) * s ≤ 2 ^ 64
    → (x : ℕ) × (div_loop k ud un q rem ≡ q * s + x) × Divides (rem * s + m) ud x
unfolding div_loop
div_loop-Divides zero s t m un ud q rem e st u h small r full =
    (0, grind (arith, e), (rem, r, grind (arith, e, h)))
div_loop-Divides (suc k) s t m un ud q rem e st u h small r full =
    let half : s ≡ 2 ^ k * 2 = e ∙ pow.suc 2 k in
    let cut = halved (2 ^ k) t m un (halve s (2 ^ k) t half st) u (omega (arith, half, h)) in
    let next : ℕ = rem * 2 % 2 ^ 64 + un / 2 ^ 63 in
    let b = cut.0 in
    let n : next ≡ rem * 2 + b = omega (arith, r, small, cut.2) in
    let room : (q + 1) * (2 ^ k * 2) ≤ 2 ^ 64 = rw half at full in
    let q' = quotient_fits q (2 ^ k) (omega (arith, cut.5)) room in
    let t' : 2 ^ k * (t * 2) ≡ 2 ^ 64 =
      sym (mul_assoc (2 ^ k) t 2) ∙ omega (arith, halve s (2 ^ k) t half st) in
    elim (Bool-cases (leb ud next)) [
      | inl fits ↦
          let rest =
            div_loop-Divides k (2 ^ k) (t * 2) cut.1 (un * 2 % 2 ^ 64) ud (q * 2 % 2 ^ 64 + 1)
              (next - ud) refl t' cut.3 cut.5 small (ground (arith, r, n, cut.6))
              (room_left q _ (2 ^ k) s 1 q' half (omega arith) full) in
          rw (fits, div_loop)
            (
              2 ^ k + rest.0,
              rest.1 ∙ longer q _ (2 ^ k) s 1 rest.0 q' half ∙ omega arith,
              (
                rest.2.0,
                rest.2.1,
                subtracted (2 ^ k) s m cut.1 b rest.0 ud rem next rest.2.0 half cut.4 n
                    (ground arith) rest.2.2,
              ),
            )
      | inr less ↦
          let rest =
            div_loop-Divides k (2 ^ k) (t * 2) cut.1 (un * 2 % 2 ^ 64) ud (q * 2 % 2 ^ 64) next refl
              t' cut.3 cut.5 small (ground arith)
              (omega (arith, room_left q _ (2 ^ k) s 0 q' half (omega arith) full)) in
          rw (less, div_loop)
            (
              rest.0,
              omega (arith, rest.1, longer q _ (2 ^ k) s 0 rest.0 q' half),
              (
                rest.2.0,
                rest.2.1,
                kept (2 ^ k) s m cut.1 b rest.0 ud rem next rest.2.0 half cut.4 n rest.2.2,
              ),
            )
    ]

magnitude_fits : (n : ℕ) → n < 2 ^ 64 → magnitude n ≤ 2 ^ 63
magnitude_fits n h = ground arith

nothing : (n : ℕ) → 0 * 2 ^ 64 + n ≡ n
nothing n = omega arith

not_zero : (d : ℕ) → d ≢ 0 → (d == 0) ≡ false
not_zero d ne = ground arith

magnitude_pos : (d : ℕ) → d < 2 ^ 64 → d ≢ 0 → 0 < magnitude d
magnitude_pos d h ne = ground arith

-- The calculator's division of 64-bit words, which shifts and subtracts, is division: for a divisor
-- that is not 0, its result is the quotient of the magnitudes, rounded down, with a minus if the
-- signs differ.
pub divll-Divides :
    (n d : ℕ)
    → n < 2 ^ 64
    → d < 2 ^ 64
    → d ≢ 0
    → (q : ℕ) × Divides (magnitude n) (magnitude d) q
      × (divll n d ≡ (if signs_differ n d then negate q else q))
unfolding divll
divll-Divides n d hn hd some_d =
    let run =
      div_loop-Divides 64 (2 ^ 64) 1 (magnitude n) (magnitude n) (magnitude d) 0 0 refl refl
        (omega arith) (omega (arith, magnitude_fits n hn)) (magnitude_fits d hd)
        (magnitude_pos d hd some_d) (omega arith) in
    let nonzero = not_zero d some_d in
    let quotient : div_loop 64 (magnitude d) (magnitude n) 0 0 ≡ run.0 = run.1 ∙ nothing run.0 in
    (
      run.0,
      (run.2.0, run.2.1, sym (nothing (magnitude n)) ∙ run.2.2),
      rw nonzero (ap (λ q. if signs_differ n d then negate q else q) quotient),
    )

signed_fits : (b : Bool) (q : ℕ) → q ≤ 2 ^ 63 → (if b then negate q else q) < 2 ^ 64
signed_fits true q h = omega arith
signed_fits false q h = omega (arith, h)

-- A quotient is a word.
pub divll-lt : (n d : ℕ) → n < 2 ^ 64 → d < 2 ^ 64 → divll n d < 2 ^ 64
unfolding divll
divll-lt n d hn hd = elim (ℕ_discrete d 0) [
  | yes none ↦ rw none (omega arith)
  | no some_d ↦
      let is = divll-Divides n d hn hd some_d in
      let least : is.0 * 1 ≤ is.0 * magnitude d =
        mul-le-mul_left is.0 (magnitude_pos d hd some_d) in
      let small : is.0 ≤ 2 ^ 63 = omega (arith, least, is.1.2, magnitude_fits n hn) in
      rw is.2 (signed_fits (signs_differ n d) is.0 small)
]
