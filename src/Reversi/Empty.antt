-- ===== src/Reversi/Empty.antt =====
-- A move of the board game leaves fewer empty squares.
use flopnix.Base.{
  ℕ, zero, suc, ◌≤◌, ◌<◌, ◌≡◌, ◌⊎◌, refl, ap, ◌∙◌, true, false, ◌&&◌, inl, inr, List, [], ◌∷◌, ◌==◌,
  arith, Bool-cases, length,
}
use flopnix.Reversi.{
  Square, Board, place_disc, Direction, directions, next_square, turned, turn_over, apply_in,
  apply_move, squares, squares_of, row_squares, disc_count,
}

-- Every square that is empty on the second board is so on the first.
abbrev pub Fills : Board → Board → Type 0
Fills b b' = (t : Square) → (b' t == 0) ≡ true → (b t == 0) ≡ true

place_disc-Fills : (b : Board) (s : Square) (p : ℕ) → 0 < p → Fills b (place_disc b s p)
place_disc-Fills b s p some_disc t h = elim (Bool-cases ((t.0 == s.0) && (t.1 == s.1))) [
  | inl here ↦ absurd (let e : (p == 0) ≡ true = rw here at h in ground (arith, e))
  | inr other ↦ rw other at h
]

turn_over-Fills :
    (k : ℕ) (b : Board) (p : ℕ) (d : Direction) (s : Square) → 0 < p → Fills b (turn_over k b p d s)
unfolding turn_over
turn_over-Fills zero b p d s some_disc t h = h
turn_over-Fills (suc k) b p d s some_disc t h =
    place_disc-Fills b s p some_disc t
      (turn_over-Fills k (place_disc b s p) p d (next_square d s) some_disc t h)

apply_in-Fills :
    (b : Board) (p : ℕ) (s : Square) (ds : List Direction) → 0 < p → Fills b (apply_in b p s ds)
unfolding apply_in
apply_in-Fills b p s [] some_disc t h = h
apply_in-Fills b p s (d ∷ ds) some_disc t h =
    turn_over-Fills (turned b p s d) b p d (next_square d s) some_disc t
      (apply_in-Fills (turn_over (turned b p s d) b p d (next_square d s)) p s ds some_disc t h)

apply_move-Fills : (b : Board) (p : ℕ) (s : Square) → 0 < p → Fills b (apply_move b p s)
unfolding apply_move
apply_move-Fills b p s some_disc t h =
    place_disc-Fills b s p some_disc t
      (apply_in-Fills (place_disc b s p) p s directions some_disc t h)

apply_move-filled : (b : Board) (p : ℕ) (s : Square) → 0 < p → (apply_move b p s s == 0) ≡ false
unfolding apply_move
apply_move-filled b p s some_disc = elim (Bool-cases (apply_move b p s s == 0)) [
  | inr filled ↦ filled
  | inl empty ↦ absurd (
      let h = apply_in-Fills (place_disc b s p) p s directions some_disc s empty in
      let here : ((s.0 == s.0) && (s.1 == s.1)) ≡ true = ground arith in
      let e : (p == 0) ≡ true = rw here at h in ground (arith, e))
]

-- A square is one of a list.
unfoldable pub Among : Square → List Square → Type 0
Among s [] = ⊥
Among s (t ∷ ts) = (t ≡ s) ⊎ Among s ts

fewer_or_same :
    (b b' : Board) (ss : List Square) → Fills b b' → disc_count b' 0 ss ≤ disc_count b 0 ss
unfolding disc_count
fewer_or_same b b' [] f = omega arith
fewer_or_same b b' (s ∷ ss) f = elim (Bool-cases (b' s == 0)) [
  | inl empty ↦ rw (empty, f s empty) (omega (arith, fewer_or_same b b' ss f))
  | inr filled ↦ rw filled (omega (arith, fewer_or_same b b' ss f))
]

fewer :
    (b b' : Board) (s : Square) (ss : List Square)
    → Fills b b'
    → Among s ss
    → (b s == 0) ≡ true
    → (b' s == 0) ≡ false
    → disc_count b' 0 ss < disc_count b 0 ss
unfolding disc_count Among
fewer b b' s [] f a was is = absurd a
fewer b b' s (t ∷ ts) f (inl e) was is =
    let was_t : (b t == 0) ≡ true = ap (λ x. b x == 0) e ∙ was in
    let is_t : (b' t == 0) ≡ false = ap (λ x. b' x == 0) e ∙ is in
    rw (was_t, is_t) (omega (arith, fewer_or_same b b' ts f))
fewer b b' s (t ∷ ts) f (inr a) was is = elim (Bool-cases (b' t == 0)) [
  | inl empty ↦ rw (empty, f t empty) (omega (arith, fewer b b' s ts f a was is))
  | inr filled ↦ rw filled (omega (arith, fewer b b' s ts f a was is))
]

pub apply_move_fewer :
    (b : Board) (p : ℕ) (s : Square)
    → 0 < p
    → Among s squares
    → (b s == 0) ≡ true
    → disc_count (apply_move b p s) 0 squares < disc_count b 0 squares
apply_move_fewer b p s some_disc a was =
    fewer b (apply_move b p s) s squares (apply_move-Fills b p s some_disc) a was
      (apply_move-filled b p s some_disc)

disc_count_le : (b : Board) (p : ℕ) (ss : List Square) → disc_count b p ss ≤ length ss
unfolding disc_count
disc_count_le b p [] = omega arith
disc_count_le b p (s ∷ ss) = elim (Bool-cases (b s == p)) [
  | inl disc ↦ rw disc (omega (arith, disc_count_le b p ss))
  | inr other ↦ rw other (omega (arith, disc_count_le b p ss))
]

all_squares : length squares ≡ 64
unfolding squares_of row_squares
all_squares = refl

pub at_most_all : (b : Board) → disc_count b 0 squares ≤ 64
at_most_all b = omega (arith, disc_count_le b 0 squares, all_squares)
