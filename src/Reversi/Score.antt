-- ===== src/Reversi/Score.antt =====
-- What a move does to the score.
use flopnix.Base.{
  ℕ, suc, ◌+◌, ◌-◌, ◌≤◌, ◌≡◌, ◌≢◌, ◌⊎◌, ◌∙◌, true, false, inl, inr, List, [], ◌∷◌, ◌==◌, arith,
  Bool-cases,
}
use flopnix.Reversi.{
  Square, Board, place_disc, Direction, directions, next_square, on_board, turned, turned_in, flips,
  turn_over, apply_in, apply_move, score,
}
use flopnix.Reversi.Rays.{ray, code, ray_leaves, Rising, directions-Rising}
use flopnix.Reversi.Counts.{placed_other, score_gains, score_stays}
use flopnix.Reversi.Runs.{Agrees, turned_same, turned-Run, turn_over-Agrees, turn_over_scores}

-- Each direction turns over what it would have turned over alone.
apply_in_scores :
    (ds : List Direction) (lo : ℕ) (b b' : Board) (p : ℕ) (s : Square)
    → Rising lo ds
    → p ≢ 3 - p
    → on_board s ≡ true
    → ((e : Direction) → lo ≤ code e → code e ≢ 4 → Agrees b b' e (next_square e s))
    → (score (apply_in b' p s ds) p ≡ score b' p + turned_in b p s ds)
      × (score (apply_in b' p s ds) (3 - p) + turned_in b p s ds ≡ score b' (3 - p))
unfolding Rising apply_in turned_in
apply_in_scores [] lo b b' p s rising sides on agrees = (omega arith, omega arith)
apply_in_scores (d ∷ ds) lo b b' p s rising sides on agrees =
    let k = turned b' p s d in
    let same_count = turned_same b b' p s d (agrees d rising.0 rising.1) in
    let now =
      turn_over_scores k b' p (3 - p) d (next_square d s) sides rising.1 (turned-Run b' p s d) in
    let rest =
      apply_in_scores ds (suc (code d)) b (turn_over k b' p d (next_square d s)) p s rising.2 sides
        on
        (λ e lo' moves i there.
          turn_over-Agrees k b' p d e s on (λ same_code. omega (arith, lo', same_code)) i there
          ∙ agrees e (omega (arith, lo', rising.0)) moves i there) in
    (omega (arith, same_count, now.0, rest.0), omega (arith, same_count, now.1, rest.1))

-- A legal move of one side on a square of the board turns over as many discs as `flips` says: the
-- side gets them and one more, and the other side loses them.
pub apply_move_scores :
    (b : Board) (p : ℕ) (s : Square)
    → (p ≡ 1) ⊎ (p ≡ 2)
    → on_board s ≡ true
    → (flips b p s == 0) ≡ false
    → (score (apply_move b p s) p ≡ score b p + flips b p s + 1)
      × (score (apply_move b p s) (3 - p) + flips b p s ≡ score b (3 - p))
unfolding apply_move flips ray
apply_move_scores b p s side on legal = elim (Bool-cases (b s == 0)) [
  | inr taken ↦ absurd (let e : true ≡ false = rw taken at legal in cc)
  | inl empty ↦
      let sides : p ≢ 3 - p =
        λ e. elim side [ inl one ↦ omega (arith, one, e) | inr two ↦ omega (arith, two, e) ] in
      let gain = score_gains b s p on (elim side [
        | inl one ↦ ground (arith, empty, one)
        | inr two ↦ ground (arith, empty, two)
      ]) in
      let other =
        score_stays b s p (3 - p)
          (elim side [
            | inl one ↦ ground (arith, empty, one)
            | inr two ↦ ground (arith, empty, two)
          ])
          (ground (arith, sides)) in
      let rest =
        apply_in_scores directions 0 b (place_disc b s p) p s directions-Rising sides on
          (λ e lo moves i there.
            placed_other b s p (ray (suc i) e s) (ray_leaves e i s moves on there)) in
      rw empty (omega (arith, gain, rest.0), omega (arith, other, rest.1))
]
