-- ===== src/Reversi/Tests.antt =====
-- The first moves of a game.
use flopnix.Base.{◌+◌, ◌≡◌, ◌==◌, refl, ap, true, false, inl, inr}
use flopnix.Reversi.{
  Game, first_board, go, walk_over, turned, turned_in, flips, any_flip, squares_of, row_squares,
  has_move, turn_over, apply_in, apply_move, score, disc_count, rv_mouse,
}
use flopnix.Reversi.Score.{apply_move_scores}
use flopnix.Reversi.Laws.{IsSettled, Settles, rv_mouse-Settles}

abbrev first_game : Game
first_game = record { board = first_board; on_turn = 1; over = false }

first_move : has_move first_board 1 ≡ true
unfolding any_flip flips turned_in turned walk_over go squares_of row_squares
first_move = refl

first_game-IsSettled : IsSettled first_game
first_game-IsSettled = inr (refl, refl, first_move)

-- Row 3 and column 4 is a move that turns one disc over, a corner is no move.
one_turned : flips first_board 1 (3, 4) ≡ 1
unfolding flips turned_in turned walk_over go
one_turned = refl

no_corner : flips first_board 1 (1, 1) ≡ 0
unfolding flips turned_in turned walk_over go
no_corner = refl

score_after : score (apply_move first_board 1 (3, 4)) 1 ≡ 4
unfolding disc_count apply_move apply_in turn_over turned walk_over go squares_of row_squares
score_after = refl

rv_mouse-Settles_example : Settles (rv_mouse true 105 93 first_game)
rv_mouse-Settles_example = rv_mouse-Settles true 105 93 first_game first_game-IsSettled

apply_move_scores_example :
    (score (apply_move first_board 1 (3, 4)) 1
      ≡ score first_board 1 + flips first_board 1 (3, 4) + 1)
    × (score (apply_move first_board 1 (3, 4)) 2 + flips first_board 1 (3, 4) ≡ score first_board 2)
apply_move_scores_example =
    apply_move_scores first_board 1 (3, 4) (inl refl) refl (ap (λ n. n == 0) one_turned)
