-- ===== src/Reversi/Laws.antt =====
-- The turns of the board game come to an end.
use flopnix.Base.{
  ℕ, zero, suc, ◌+◌, ◌*◌, ◌≤◌, ◌≡◌, ◌⊎◌, refl, sym, subst, Bool, true, false, ◌&&◌, ◌||◌, not, inl,
  inr, Option, some, ltb, leb, ◌==◌, arith, Bool-cases,
}
use flopnix.Reversi.{
  Board, clicked, flips, has_move, squares, disc_count, ai_move, apply_move, on_board, Game,
  run_turns, rounds, first_board, reset, rv_mouse,
}
use flopnix.Reversi.Empty.{at_most_all}
use flopnix.Reversi.Choice.{ai_move_fewer}

-- Where `run` leaves the game: it is over and nobody has a move, or the player has one and is on
-- turn.
abbrev pub IsSettled : Game → Type 0
IsSettled g =
    ((g.over ≡ true) × (has_move g.board 1 ≡ false) × (has_move g.board 2 ≡ false))
    ⊎ ((g.over ≡ false) × (g.on_turn ≡ 1) × (has_move g.board 1 ≡ true))

-- A call ends, and leaves a settled game.
abbrev pub Settles : Option Game → Type 0
Settles r = (g : Game) × (r ≡ some g) × IsSettled g

abbrev playing : Board → ℕ → Game
playing b t = record { board = b; on_turn = t; over = false }

abbrev empties : Board → ℕ
empties b = disc_count b 0 squares

run_over :
    (n : ℕ) (b : Board) (t : ℕ)
    → has_move b 1 ≡ false
    → has_move b 2 ≡ false
    → Settles (run_turns (suc n) (playing b t))
unfolding run_turns
run_over n b t one two = (
  record { board = b; on_turn = t; over = true },
  rw (one, two, run_turns) refl,
  inl (refl, one, two),
)

run_waits : (n : ℕ) (b : Board) → has_move b 1 ≡ true → Settles (run_turns (suc n) (playing b 1))
unfolding run_turns
run_waits n b one =
    let can : has_move (playing b 1).board (playing b 1).on_turn ≡ true = one in
    (playing b 1, rw (one, can, run_turns) refl, inr (refl, refl, one))

run_machine :
    (n : ℕ) (b : Board)
    → has_move b 2 ≡ true
    → Settles (run_turns n (playing (ai_move b) 1))
    → Settles (run_turns (suc n) (playing b 2))
unfolding run_turns
run_machine n b two next =
    let can : has_move (playing b 2).board (playing b 2).on_turn ≡ true = two in
    elim (Bool-cases (has_move b 1)) [
      | inl one ↦ (next.0, rw (one, can, run_turns) next.1, next.2)
      | inr one ↦ (next.0, rw (one, two, can, run_turns) next.1, next.2)
    ]

run_passes-player :
    (n : ℕ) (b : Board)
    → has_move b 1 ≡ false
    → has_move b 2 ≡ true
    → Settles (run_turns n (playing b 2))
    → Settles (run_turns (suc n) (playing b 1))
unfolding run_turns
run_passes-player n b one two next =
    let stuck : has_move (playing b 1).board (playing b 1).on_turn ≡ false = one in
    (next.0, rw (one, two, stuck, run_turns) next.1, next.2)

run_passes-machine :
    (n : ℕ) (b : Board)
    → has_move b 1 ≡ true
    → has_move b 2 ≡ false
    → Settles (run_turns n (playing b 1))
    → Settles (run_turns (suc n) (playing b 2))
unfolding run_turns
run_passes-machine n b one two next =
    let stuck : has_move (playing b 2).board (playing b 2).on_turn ≡ false = two in
    (next.0, rw (one, stuck, run_turns) next.1, next.2)

-- With the player on turn, two rounds for each empty square and two more are enough.
run_player : (n : ℕ) (b : Board) → 2 * empties b + 2 ≤ n → Settles (run_turns n (playing b 1))
run_player zero b r = absurd (omega (arith, r))
run_player (suc zero) b r = absurd (omega (arith, r))
run_player (suc (suc n)) b r = elim (Bool-cases (has_move b 1)) [
  | inl one ↦ run_waits (suc n) b one
  | inr one ↦ elim (Bool-cases (has_move b 2)) [
    | inr two ↦ run_over (suc n) b 1 one two
    | inl two ↦
        run_passes-player (suc n) b one two
          (run_machine n b two (run_player n (ai_move b) (omega (arith, r, ai_move_fewer b two))))
  ]
]

run_second : (n : ℕ) (b : Board) → 2 * empties b + 2 ≤ n → Settles (run_turns n (playing b 2))
run_second zero b r = absurd (omega (arith, r))
run_second (suc zero) b r = absurd (omega (arith, r))
run_second (suc (suc n)) b r = elim (Bool-cases (has_move b 2)) [
  | inl two ↦
      run_machine (suc n) b two
        (run_player (suc n) (ai_move b) (omega (arith, r, ai_move_fewer b two)))
  | inr two ↦ elim (Bool-cases (has_move b 1)) [
    | inl one ↦ run_passes-machine (suc n) b one two (run_waits n b one)
    | inr one ↦ run_over (suc n) b 2 one two
  ]
]

rounds_enough : (b : Board) → 2 * empties b + 2 ≤ rounds
rounds_enough b = omega (arith, at_most_all b)

reset-Settles : Settles reset
unfolding reset
reset-Settles = run_player rounds first_board (rounds_enough first_board)

-- Wherever the mouse is pressed in a settled game, the machine's turns come to an end: afterwards
-- either the game is over and neither side has a move, or it is the player's turn and the player
-- has a move.
pub rv_mouse-Settles :
    (press : Bool) (lx ly : ℕ) (g : Game) → IsSettled g → Settles (rv_mouse press lx ly g)
unfolding rv_mouse
rv_mouse-Settles press lx ly g i = elim (Bool-cases (not press)) [
  | inl no_press ↦ rw no_press (g, refl, i)
  | inr pressed ↦ elim (Bool-cases ((leb 4 ly && ltb ly 24) && (leb 10 lx && ltb lx 54))) [
    | inl button ↦ rw (pressed, button) reset-Settles
    | inr board ↦ elim i [
      | inl ended ↦
          let waits : (g.over || not (g.on_turn == 1)) ≡ true = ground (arith, ended.0) in
          rw (pressed, board, waits) (g, refl, inl ended)
      | inr mine ↦
          let mine_to_move : (g.over || not (g.on_turn == 1)) ≡ false =
            ground (arith, mine.0, mine.1) in
          elim (Bool-cases ((ltb lx 10 || ltb ly 28) || not (on_board (clicked lx ly)))) [
            | inl outside ↦ rw (pressed, board, mine_to_move, outside) (g, refl, inr mine)
            | inr inside ↦ elim (Bool-cases (flips g.board 1 (clicked lx ly) == 0)) [
              | inl illegal ↦ rw (pressed, board, mine_to_move, inside, illegal) (g, refl, inr mine)
              | inr legal ↦
                  let after = apply_move g.board 1 (clicked lx ly) in
                  rw (pressed, board, mine_to_move, inside, legal)
                    (subst
                      (λ o.
                        Settles
                          (run_turns rounds (record { board = after; on_turn = 2; over = o })))
                      (sym mine.0) (run_second rounds after (rounds_enough after)))
            ]
          ]
    ]
  ]
]
