-- ===== src/Reversi/Rays.antt =====
-- The squares that lie in one direction of another: no two directions share one.
use flopnix.Base.{
  ℕ, zero, suc, ◌+◌, ◌-◌, ◌*◌, ◌≤◌, ◌≡◌, ◌≢◌, refl, sym, ap, ap₂, ◌∙◌, true, List, [], ◌∷◌, arith,
}
use flopnix.Reversi.{
  Square, Delta, back, stay, ahead, go, Direction, directions, next_square, on_board,
}

-- The square that many steps away.
unfoldable pub ray : ℕ → Direction → Square → Square
ray zero d s = s
ray (suc k) d s = ray k d (next_square d s)

-- A coordinate after that many steps.
along : Delta → ℕ → ℕ → ℕ
along back k a = a - k
along stay k a = a
along ahead k a = a + k

along_next : (x : Delta) (k a : ℕ) → along x k (go x a) ≡ along x (suc k) a
unfolding along go
along_next back k a = omega arith
along_next stay k a = refl
along_next ahead k a = omega arith

along_zero : (x : Delta) (a : ℕ) → along x 0 a ≡ a
unfolding along
along_zero back a = omega arith
along_zero stay a = refl
along_zero ahead a = omega arith

ray-along : (k : ℕ) (d : Direction) (s : Square) → ray k d s ≡ (along d.0 k s.0, along d.1 k s.1)
unfolding ray
ray-along zero d s = ap₂ (λ x y. (x, y)) (sym (along_zero d.0 s.0)) (sym (along_zero d.1 s.1))
ray-along (suc k) d s =
    ray-along k d (next_square d s)
    ∙ ap₂ (λ x y. (x, y)) (along_next d.0 k s.0) (along_next d.1 k s.1)

side : Delta → ℕ
side back = 0
side stay = 1
side ahead = 2

-- Where a coordinate of the board is after a step or more tells the way that it went.
same_side :
    (x y : Delta) (j k a : ℕ)
    → 1 ≤ a
    → 1 ≤ along x (suc j) a
    → along x (suc j) a ≡ along y (suc k) a
    → side x ≡ side y
unfolding along side
same_side back back j k a p q e = refl
same_side back stay j k a p q e = absurd (omega (arith, p, q, e))
same_side back ahead j k a p q e = absurd (omega (arith, p, q, e))
same_side stay back j k a p q e = absurd (omega (arith, p, q, e))
same_side stay stay j k a p q e = refl
same_side stay ahead j k a p q e = absurd (omega (arith, p, q, e))
same_side ahead back j k a p q e = absurd (omega (arith, p, q, e))
same_side ahead stay j k a p q e = absurd (omega (arith, p, q, e))
same_side ahead ahead j k a p q e = refl

-- The number of a direction, in the order of the table.
pub code : Direction → ℕ
unfolding side
code d = 3 * side d.0 + side d.1

still : (x : Delta) (k a : ℕ) → side x ≡ 1 → along x k a ≡ a
unfolding side along
still back k a e = absurd (omega (arith, e))
still stay k a e = refl
still ahead k a e = absurd (omega (arith, e))

side_bound : (x : Delta) → side x ≤ 2
unfolding side
side_bound back = omega arith
side_bound stay = omega arith
side_bound ahead = omega arith

on_row : (s : Square) → on_board s ≡ true → (1 ≤ s.0) × (1 ≤ s.1)
on_row s h = (ground (arith, h), ground (arith, h))

-- Two directions that reach the same square of the board are the same.
pub rays_meet :
    (d e : Direction) (j k : ℕ) (s : Square)
    → on_board s ≡ true
    → on_board (ray (suc j) d s) ≡ true
    → ray (suc j) d s ≡ ray (suc k) e s
    → code d ≡ code e
unfolding code
rays_meet d e j k s on there same_square =
    let here = on_row s on in
    let row = on_row (ray (suc j) d s) there in
    let at = ray-along (suc j) d s in
    let both = sym at ∙ same_square ∙ ray-along (suc k) e s in
    let a0 = ap (λ t. t.0) at in
    let a1 = ap (λ t. t.1) at in
    let rows = same_side d.0 e.0 j k s.0 here.0 (omega (arith, row.0, a0)) (ap (λ t. t.0) both) in
    let columns =
      same_side d.1 e.1 j k s.1 here.1 (omega (arith, row.1, a1)) (ap (λ t. t.1) both) in
    omega (arith, rows, columns)

-- A direction that moves does not come back.
pub ray_leaves :
    (d : Direction) (j : ℕ) (s : Square)
    → code d ≢ 4
    → on_board s ≡ true
    → on_board (ray (suc j) d s) ≡ true
    → ray (suc j) d s ≢ s
unfolding code side along
ray_leaves d j s moves on there back_again =
    moves (rays_meet d (stay, stay) j 0 s on there (back_again ∙ sym (ray-along 1 (stay, stay) s)))

-- Directions that move, in the order of their numbers from `lo` on.
unfoldable pub Rising : ℕ → List Direction → Type 0
Rising lo [] = Unit
Rising lo (d ∷ ds) = (lo ≤ code d) × (code d ≢ 4) × Rising (suc (code d)) ds

pub directions-Rising : Rising 0 directions
unfolding Rising code side
directions-Rising = (
  omega arith,
  (λ e. omega (arith, e)),
  (
    omega arith,
    (λ e. omega (arith, e)),
    (
      omega arith,
      (λ e. omega (arith, e)),
      (
        omega arith,
        (λ e. omega (arith, e)),
        (
          omega arith,
          (λ e. omega (arith, e)),
          (
            omega arith,
            (λ e. omega (arith, e)),
            (omega arith, (λ e. omega (arith, e)), (omega arith, (λ e. omega (arith, e)), tt)),
          ),
        ),
      ),
    ),
  ),
)
