-- ===== src/Reversi.antt =====
-- kexts/reversi.c: the board, the moves, the machine's choice and the turns. Rows and columns are
-- one more than the source's, so that the -1 before the first is 0.
mod Empty
mod Walk
mod Choice
mod Laws
mod Rays
mod Counts
mod Runs
mod Score
mod Tests
use flopnix.Base.{
  ℕ, zero, suc, ◌+◌, ◌-◌, ◌*◌, ◌/◌, Bool, true, false, ◌&&◌, ◌||◌, not, Option, none, some, List,
  [], ◌∷◌, ◌++◌, map, ltb, leb, ◌==◌, if◌then◌else◌,
}

-- A row and a column.
abbrev pub Square : Type 0
Square = ℕ × ℕ

-- `board`: 0 is empty, 1 the player's disc and 2 the machine's.
abbrev pub Board : Type 0
Board = Square → ℕ

abbrev pub place_disc : Board → Square → ℕ → Board
place_disc b s p t = if (t.0 == s.0) && (t.1 == s.1) then p else b t

-- -1, 0 and 1 of `DR` and `DC`.
pub data Delta : Type 0 where
  back stay ahead : Delta

unfoldable pub go : Delta → ℕ → ℕ
go back a = a - 1
go stay a = a
go ahead a = a + 1

-- `DR[d]` and `DC[d]`.
abbrev pub Direction : Type 0
Direction = Delta × Delta

abbrev pub directions : List Direction
directions =
    (back, back)
    ∷ (back, stay)
    ∷ (back, ahead)
    ∷ (stay, back)
    ∷ (stay, ahead)
    ∷ (ahead, back)
    ∷ (ahead, stay)
    ∷ (ahead, ahead)
    ∷ []

abbrev pub next_square : Direction → Square → Square
next_square d s = (go d.0 s.0, go d.1 s.1)

abbrev pub on_board : Square → Bool
on_board s = (leb 1 s.0 && leb s.0 8) && (leb 1 s.1 && leb s.1 8)

-- The `while` loop of `flips` and `apply`, for at most that many discs: `cnt`, and where it ends.
unfoldable pub walk_over : ℕ → Board → (opp : ℕ) → Direction → Square → ℕ × Square
unfolding go
walk_over zero b opp d s = (0, s)
walk_over (suc n) b opp d s = elim (on_board s && (b s == opp)) [
  | true ↦ let w = walk_over n b opp d (next_square d s) in (suc w.0, w.1)
  | false ↦ (0, s)
]

-- The discs that a disc of `p` turns over in one direction.
unfoldable pub turned : Board → ℕ → Square → Direction → ℕ
unfolding walk_over go
turned b p s d =
    let w = walk_over 8 b (3 - p) d (next_square d s) in
    if not (w.0 == 0) && (on_board w.1 && (b w.1 == p)) then w.0 else 0

unfoldable pub turned_in : Board → ℕ → Square → List Direction → ℕ
turned_in b p s [] = 0
turned_in b p s (d ∷ ds) = turned b p s d + turned_in b p s ds

unfoldable pub flips : Board → ℕ → Square → ℕ
unfolding turned_in
flips b p s = if not (b s == 0) then 0 else turned_in b p s directions

-- The `for` loop over `k`.
unfoldable pub turn_over : ℕ → Board → ℕ → Direction → Square → Board
turn_over zero b p d s = b
turn_over (suc k) b p d s = turn_over k (place_disc b s p) p d (next_square d s)

unfoldable pub apply_in : Board → ℕ → Square → List Direction → Board
unfolding go
apply_in b p s [] = b
apply_in b p s (d ∷ ds) = apply_in (turn_over (turned b p s d) b p d (next_square d s)) p s ds

unfoldable pub apply_move : Board → ℕ → Square → Board
unfolding apply_in
apply_move b p s = apply_in (place_disc b s p) p s directions

unfoldable pub row_squares : ℕ → List ℕ → List Square
row_squares r [] = []
row_squares r (c ∷ cs) = (r, c) ∷ row_squares r cs

unfoldable pub squares_of : List ℕ → List ℕ → List Square
squares_of [] cs = []
squares_of (r ∷ rs) cs = row_squares r cs ++ squares_of rs cs

abbrev pub places : List ℕ
places = 1 ∷ 2 ∷ 3 ∷ 4 ∷ 5 ∷ 6 ∷ 7 ∷ 8 ∷ []

-- The squares in the order of the two loops.
abbrev pub squares : List Square
squares = squares_of places places

unfoldable pub any_flip : Board → ℕ → List Square → Bool
any_flip b p [] = false
any_flip b p (s ∷ ss) = if not (flips b p s == 0) then true else any_flip b p ss

abbrev pub has_move : Board → ℕ → Bool
has_move b p = any_flip b p squares

-- `WT`, each number fifty more than the source's.
abbrev pub weights : List (List ℕ)
weights =
    (150 ∷ 30 ∷ 60 ∷ 55 ∷ 55 ∷ 60 ∷ 30 ∷ 150 ∷ [])
    ∷ (30 ∷ 0 ∷ 48 ∷ 48 ∷ 48 ∷ 48 ∷ 0 ∷ 30 ∷ [])
    ∷ (60 ∷ 48 ∷ 49 ∷ 49 ∷ 49 ∷ 49 ∷ 48 ∷ 60 ∷ [])
    ∷ (55 ∷ 48 ∷ 49 ∷ 49 ∷ 49 ∷ 49 ∷ 48 ∷ 55 ∷ [])
    ∷ (55 ∷ 48 ∷ 49 ∷ 49 ∷ 49 ∷ 49 ∷ 48 ∷ 55 ∷ [])
    ∷ (60 ∷ 48 ∷ 49 ∷ 49 ∷ 49 ∷ 49 ∷ 48 ∷ 60 ∷ [])
    ∷ (30 ∷ 0 ∷ 48 ∷ 48 ∷ 48 ∷ 48 ∷ 0 ∷ 30 ∷ [])
    ∷ (150 ∷ 30 ∷ 60 ∷ 55 ∷ 55 ∷ 60 ∷ 30 ∷ 150 ∷ [])
    ∷ []

-- The element with that place, the first one being 1.
unfoldable pub at_place : {A : Type 0} → A → List A → ℕ → A
at_place z [] i = z
at_place z (x ∷ xs) zero = z
at_place z (x ∷ xs) (suc zero) = x
at_place z (x ∷ xs) (suc (suc i)) = at_place z xs (suc i)

unfoldable pub weight : Square → ℕ
unfolding at_place
weight s = at_place 0 (at_place [] weights s.0) s.1

-- `bestv`, `bf`, `br` and `bc`; before the first candidate there is none.
pub record Best : Type 0 where
  pub value : ℕ
  pub count : ℕ
  pub square : Square

abbrev pub improves : Square → ℕ → Option Best → Bool
improves s f none = true
improves s f (some x) = ltb x.value (weight s) || ((weight s == x.value) && ltb x.count f)

unfoldable pub keep_best : Board → Option Best → Square → Option Best
unfolding flips weight
keep_best b o s =
    let f = flips b 2 s in
    if f == 0
    then o
    else if improves s f o
    then some (record { value = weight s; count = f; square = s })
    else o

unfoldable pub best_of : Board → Option Best → List Square → Option Best
best_of b o [] = o
best_of b o (s ∷ ss) = best_of b (keep_best b o s) ss

-- The move on the square that the loops chose.
unfoldable pub move_to : Board → Option Best → Board
move_to b none = b
move_to b (some x) = apply_move b 2 x.square

unfoldable pub ai_move : Board → Board
unfolding best_of keep_best move_to
ai_move b = move_to b (best_of b none squares)

-- The static variables.
pub record Game : Type 0 where
  pub board : Board
  pub on_turn : ℕ
  pub over : Bool

-- `run`, for at most that many rounds of its loop.
unfoldable pub run_turns : ℕ → Game → Option Game
unfolding any_flip ai_move
run_turns zero g = none
run_turns (suc n) g = elim (not (has_move g.board 1) && not (has_move g.board 2)) [
  | true ↦ some (record g { over = true })
  | false ↦ elim (has_move g.board g.on_turn) [
    | false ↦ run_turns n (record g { on_turn = 3 - g.on_turn })
    | true ↦ elim (g.on_turn == 1) [
      | true ↦ some g
      | false ↦ run_turns n (record g { board = ai_move g.board; on_turn = 1 })
    ]
  ]
]

-- Two rounds for each of the 64 squares and two more.
abbrev pub rounds : ℕ
rounds = 130

abbrev pub first_board : Board
first_board =
    place_disc (place_disc (place_disc (place_disc (λ s. 0) (5, 5) 2) (4, 4) 2) (5, 4) 1) (4, 5) 1

unfoldable pub reset : Option Game
unfolding run_turns
reset = run_turns rounds (record { board = first_board; on_turn = 1; over = false })

unfoldable pub disc_count : Board → ℕ → List Square → ℕ
disc_count b p [] = 0
disc_count b p (s ∷ ss) = (if b s == p then 1 else 0) + disc_count b p ss

-- `score`.
abbrev pub score : Board → ℕ → ℕ
score b p = disc_count b p squares

-- The square at a place of the window, `OX` and `OY` taken off.
abbrev pub clicked : (lx ly : ℕ) → Square
clicked lx ly = ((ly - 28) / 30 + 1, (lx - 10) / 30 + 1)

-- `rv_mouse`, at a place (lx, ly) of the window; a press is EV_PRESS. A negative place of the source
-- is 0, which passes the same tests.
unfoldable pub rv_mouse : (press : Bool) (lx ly : ℕ) → Game → Option Game
unfolding reset run_turns flips apply_move
rv_mouse press lx ly g =
    let s = clicked lx ly in
    if not press
    then some g
    else if (leb 4 ly && ltb ly 24) && (leb 10 lx && ltb lx 54)
    then reset
    else if g.over || not (g.on_turn == 1)
    then some g
    else if (ltb lx 10 || ltb ly 28) || not (on_board s)
    then some g
    else if flips g.board 1 s == 0
    then some g
    else run_turns rounds (record g { board = apply_move g.board 1 s; on_turn = 2 })
