-- ===== src/Reversi/Counts.antt =====
-- The discs of each side on the board, when one square gets a disc.
use flopnix.Base.{
  ℕ, suc, ◌+◌, ◌≡◌, ◌≢◌, refl, ap, ap₂, ◌∙◌, Bool, true, false, ◌&&◌, inl, inr, List, [], ◌∷◌, ◌++◌,
  leb, ◌==◌, if◌then◌else◌, arith, Bool-cases,
}
use flopnix.Reversi.{
  Square, Board, place_disc, on_board, row_squares, squares_of, places, squares, disc_count, score,
}

abbrev equals : Square → Square → Bool
equals t s = (t.0 == s.0) && (t.1 == s.1)

eq_of_equals : (t s : Square) → equals t s ≡ true → t ≡ s
eq_of_equals t s h =
    let row : t.0 ≡ s.0 = ground (arith, h) in
    let column : t.1 ≡ s.1 = ground (arith, h) in ap₂ (λ x y. (x, y)) row column

pub placed_other : (b : Board) (s : Square) (p : ℕ) (t : Square) → t ≢ s → place_disc b s p t ≡ b t
placed_other b s p t apart = elim (Bool-cases (equals t s)) [
  | inl here ↦ absurd (apart (eq_of_equals t s here))
  | inr other ↦ rw other refl
]

occurs : Square → List Square → ℕ
occurs t [] = 0
occurs t (s ∷ ss) = (if equals s t then 1 else 0) + occurs t ss

gains :
    (b : Board) (t : Square) (p : ℕ) (ss : List Square)
    → (b t == p) ≡ false
    → disc_count (place_disc b t p) p ss ≡ disc_count b p ss + occurs t ss
unfolding disc_count occurs
gains b t p [] other = refl
gains b t p (s ∷ ss) other = elim (Bool-cases (equals s t)) [
  | inl here ↦
      let same_disc : (p == p) ≡ true = ground arith in
      let before : (b s == p) ≡ false = ap (λ x. b x == p) (eq_of_equals s t here) ∙ other in
      rw (here, same_disc, before) (omega (arith, gains b t p ss other))
  | inr apart ↦ rw apart (omega (arith, gains b t p ss other))
]

loses :
    (b : Board) (t : Square) (p q : ℕ) (ss : List Square)
    → (b t == q) ≡ true
    → (p == q) ≡ false
    → disc_count (place_disc b t p) q ss + occurs t ss ≡ disc_count b q ss
unfolding disc_count occurs
loses b t p q [] was apart = refl
loses b t p q (s ∷ ss) was apart = elim (Bool-cases (equals s t)) [
  | inl here ↦
      let before : (b s == q) ≡ true = ap (λ x. b x == q) (eq_of_equals s t here) ∙ was in
      rw (here, apart, before) (omega (arith, loses b t p q ss was apart))
  | inr elsewhere ↦ rw elsewhere (omega (arith, loses b t p q ss was apart))
]

stays :
    (b : Board) (t : Square) (p q : ℕ) (ss : List Square)
    → (b t == q) ≡ false
    → (p == q) ≡ false
    → disc_count (place_disc b t p) q ss ≡ disc_count b q ss
unfolding disc_count
stays b t p q [] was apart = refl
stays b t p q (s ∷ ss) was apart = elim (Bool-cases (equals s t)) [
  | inl here ↦
      let before : (b s == q) ≡ false = ap (λ x. b x == q) (eq_of_equals s t here) ∙ was in
      rw (here, apart, before) (omega (arith, stays b t p q ss was apart))
  | inr elsewhere ↦
      rw elsewhere (ap (λ n. (if b s == q then 1 else 0) + n) (stays b t p q ss was apart))
]

-- Each square of the board is one of `squares`, once.
times : ℕ → List ℕ → ℕ
times n [] = 0
times n (m ∷ ms) = (if m == n then 1 else 0) + times n ms

occurs-row :
    (t : Square) (r : ℕ) (cs : List ℕ)
    → occurs t (row_squares r cs) ≡ (if r == t.0 then times t.1 cs else 0)
unfolding occurs row_squares times
occurs-row t r [] = elim (Bool-cases (r == t.0)) [ inl h ↦ rw h refl | inr h ↦ rw h refl ]
occurs-row t r (c ∷ cs) = elim (Bool-cases (r == t.0)) [
  | inl h ↦ rw h (ap (λ n. (if c == t.1 then 1 else 0) + n) (rw h at (occurs-row t r cs)))
  | inr h ↦ rw h (let k = rw h at (occurs-row t r cs) in omega (arith, k))
]

occurs-append : (t : Square) (xs ys : List Square) → occurs t (xs ++ ys) ≡ occurs t xs + occurs t ys
unfolding occurs
occurs-append t [] ys = omega arith
occurs-append t (x ∷ xs) ys = omega (arith, occurs-append t xs ys)

occurs-squares_of :
    (t : Square) (rs cs : List ℕ) → times t.1 cs ≡ 1 → occurs t (squares_of rs cs) ≡ times t.0 rs
unfolding occurs squares_of times
occurs-squares_of t [] cs once = refl
occurs-squares_of t (r ∷ rs) cs once =
    let split = occurs-append t (row_squares r cs) (squares_of rs cs) in
    let row = occurs-row t r cs in
    let rest = occurs-squares_of t rs cs once in
    elim (Bool-cases (r == t.0)) [
      | inl h ↦ rw h (let k = rw h at row in omega (arith, split, k, rest, once))
      | inr h ↦ rw h (let k = rw h at row in omega (arith, split, k, rest))
    ]

once_of_places : (n : ℕ) → leb 1 n && leb n 8 ≡ true → times n places ≡ 1
unfolding times
once_of_places n h = ground (arith, h)

occurs_once : (t : Square) → on_board t ≡ true → occurs t squares ≡ 1
occurs_once t on =
    occurs-squares_of t places places (once_of_places t.1 (ground (arith, on)))
    ∙ once_of_places t.0 (ground (arith, on))

pub score_gains :
    (b : Board) (t : Square) (p : ℕ)
    → on_board t ≡ true
    → (b t == p) ≡ false
    → score (place_disc b t p) p ≡ suc (score b p)
score_gains b t p on other = omega (arith, gains b t p squares other, occurs_once t on)

pub score_loses :
    (b : Board) (t : Square) (p q : ℕ)
    → on_board t ≡ true
    → (b t == q) ≡ true
    → (p == q) ≡ false
    → suc (score (place_disc b t p) q) ≡ score b q
score_loses b t p q on was apart = omega (arith, loses b t p q squares was apart, occurs_once t on)

pub score_stays :
    (b : Board) (t : Square) (p q : ℕ)
    → (b t == q) ≡ false
    → (p == q) ≡ false
    → score (place_disc b t p) q ≡ score b q
score_stays b t p q was apart = stays b t p q squares was apart
