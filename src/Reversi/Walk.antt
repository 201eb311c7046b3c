-- ===== src/Reversi/Walk.antt =====
-- The walk of kexts/reversi.c over the opponent's discs ends on the board's edge or before it, so
-- eight discs are enough.
use flopnix.Base.{
  ℕ, zero, suc, ◌-◌, ◌≤◌, ◌≡◌, refl, true, false, ◌&&◌, inl, inr, ◌==◌, arith, Bool-cases, All,
}
use flopnix.Reversi.{
  Square, Board, Delta, back, stay, ahead, go, Direction, directions, next_square, on_board,
  walk_over,
}

-- The squares that are left to the edge, the one that the walk is on included.
line_left : Delta → ℕ → ℕ
line_left back a = a
line_left stay a = 0
line_left ahead a = 9 - a

room_left : Direction → Square → ℕ
room_left (stay, dc) s = line_left dc s.1
room_left (back, dc) s = line_left back s.0
room_left (ahead, dc) s = line_left ahead s.0

-- A direction that moves.
Moving : Direction → Type 0
Moving (stay, stay) = ⊥
Moving (stay, back) = Unit
Moving (stay, ahead) = Unit
Moving (back, dc) = Unit
Moving (ahead, dc) = Unit

room_shrinks :
    (d : Direction) (s : Square)
    → Moving d
    → on_board s ≡ true
    → suc (room_left d (next_square d s)) ≤ room_left d s
unfolding Moving room_left line_left go
room_shrinks (stay, stay) s m h = absurd m
room_shrinks (stay, back) s m h = ground (arith, h)
room_shrinks (stay, ahead) s m h = ground (arith, h)
room_shrinks (back, dc) s m h = ground (arith, h)
room_shrinks (ahead, dc) s m h = ground (arith, h)

-- The condition of the loop fails on a square.
abbrev pub Stops : Board → ℕ → Square → Type 0
Stops b opp t = (on_board t && (b t == opp)) ≡ false

walk_over-Stops :
    (n : ℕ) (b : Board) (opp : ℕ) (d : Direction) (s : Square)
    → Moving d
    → room_left d s ≤ n
    → Stops b opp (walk_over n b opp d s).1
unfolding walk_over
walk_over-Stops zero b opp d s m r = elim (Bool-cases (on_board s)) [
  | inl on ↦ absurd (omega (arith, room_shrinks d s m on, r))
  | inr off ↦ rw off refl
]
walk_over-Stops (suc n) b opp d s m r = elim (Bool-cases (on_board s && (b s == opp))) [
  | inr stop ↦ rw (stop, walk_over) stop
  | inl more ↦
      let on : on_board s ≡ true = ground (arith, more) in
      rw (more, walk_over)
        (walk_over-Stops n b opp d (next_square d s) m (omega (arith, room_shrinks d s m on, r)))
]

room_bound : (d : Direction) (s : Square) → on_board s ≡ true → room_left d s ≤ 9
unfolding room_left line_left
room_bound (stay, stay) s h = omega arith
room_bound (stay, back) s h = ground (arith, h)
room_bound (stay, ahead) s h = ground (arith, h)
room_bound (back, dc) s h = ground (arith, h)
room_bound (ahead, dc) s h = ground (arith, h)

-- From the square next to one of the board, the condition of the loop of `flips` and `apply` fails
-- where `walk_over` stops: eight discs are enough.
walk_over_enough :
    (b : Board) (opp : ℕ) (d : Direction) (s : Square)
    → Moving d
    → on_board s ≡ true
    → Stops b opp (walk_over 8 b opp d (next_square d s)).1
walk_over_enough b opp d s m on =
    walk_over-Stops 8 b opp d (next_square d s) m
      (omega (arith, room_shrinks d s m on, room_bound d s on))

directions-Moving : All Moving directions
unfolding Moving
directions-Moving = (tt, (tt, (tt, (tt, (tt, (tt, (tt, (tt, tt))))))))
