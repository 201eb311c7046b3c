-- ===== src/Reversi/Runs.antt =====
-- The discs that a move turns over in one direction, and what the other directions see of it.
use flopnix.Base.{
  ℕ, zero, suc, ◌+◌, ◌-◌, ◌≡◌, ◌≢◌, refl, sym, ap, ap₂, ◌∙◌, Bool, true, false, ◌&&◌, not, inl, inr,
  ◌==◌, if◌then◌else◌, arith, Bool-cases,
}
use flopnix.Reversi.{
  Square, Board, place_disc, Direction, next_square, on_board, walk_over, turned, turn_over, score,
}
use flopnix.Reversi.Rays.{ray, code, rays_meet, ray_leaves}
use flopnix.Reversi.Counts.{placed_other, score_gains, score_loses}

-- The second board is the first on the squares of the board in that direction, from a square on.
abbrev pub Agrees : Board → Board → Direction → Square → Type 0
Agrees b b' d u = (k : ℕ) → on_board (ray k d u) ≡ true → b' (ray k d u) ≡ b (ray k d u)

Agrees-next :
    (b b' : Board) (d : Direction) (u : Square) → Agrees b b' d u → Agrees b b' d (next_square d u)
unfolding ray
Agrees-next b b' d u a k on = a (suc k) on

walk_over_same :
    (n : ℕ) (b b' : Board) (opp : ℕ) (d : Direction) (u : Square)
    → Agrees b b' d u
    → walk_over n b' opp d u ≡ walk_over n b opp d u
unfolding walk_over ray
walk_over_same zero b b' opp d u a = refl
walk_over_same (suc n) b b' opp d u a = elim (Bool-cases (on_board u)) [
  | inr off ↦ rw (off, walk_over) refl
  | inl on ↦
      let here : b' u ≡ b u = a 0 on in
      let rest = walk_over_same n b b' opp d (next_square d u) (Agrees-next b b' d u a) in
      elim (Bool-cases (b u == opp)) [
        | inl more ↦
            let more' : (b' u == opp) ≡ true = ap (λ x. x == opp) here ∙ more in
            rw (on, more, more', walk_over) (ap (λ w. (suc w.0, w.1)) rest)
        | inr stop ↦
            let stop' : (b' u == opp) ≡ false = ap (λ x. x == opp) here ∙ stop in
            rw (on, stop, stop', walk_over) refl
      ]
]

walk_over-ray :
    (n : ℕ) (b : Board) (opp : ℕ) (d : Direction) (u : Square)
    → (walk_over n b opp d u).1 ≡ ray (walk_over n b opp d u).0 d u
unfolding walk_over ray
walk_over-ray zero b opp d u = refl
walk_over-ray (suc n) b opp d u = elim (Bool-cases (on_board u && (b u == opp))) [
  | inl more ↦ rw (more, walk_over) (walk_over-ray n b opp d (next_square d u))
  | inr stop ↦ rw (stop, walk_over) refl
]

-- Whether a walk ends at a disc of `p`.
abbrev closes : Board → ℕ → ℕ × Square → Bool
closes b p w = not (w.0 == 0) && (on_board w.1 && (b w.1 == p))

closes_same :
    (b b' : Board) (p n : ℕ) (d : Direction) (u : Square)
    → Agrees b b' d u
    → closes b' p (n, ray n d u) ≡ closes b p (n, ray n d u)
closes_same b b' p n d u a = elim (Bool-cases (on_board (ray n d u))) [
  | inr off ↦ rw off refl
  | inl on ↦ rw (a n on) refl
]

pub turned_same :
    (b b' : Board) (p : ℕ) (s : Square) (d : Direction)
    → Agrees b b' d (next_square d s)
    → turned b' p s d ≡ turned b p s d
unfolding turned
turned_same b b' p s d a =
    let w = walk_over 8 b (3 - p) d (next_square d s) in
    let same_walk = walk_over_same 8 b b' (3 - p) d (next_square d s) a in
    let shape : w ≡ (w.0, ray w.0 d (next_square d s)) =
      ap (λ t. (w.0, t)) (walk_over-ray 8 b (3 - p) d (next_square d s)) in
    ap₂ (λ c n. if c then n else 0)
      (ap (closes b' p) (same_walk ∙ shape)
        ∙ closes_same b b' p w.0 d (next_square d s) a
        ∙ ap (closes b p) (sym shape))
      (ap (λ x. x.0) same_walk)

-- Discs of `opp` in a row.
pub Run : ℕ → Board → ℕ → Direction → Square → Type 0
Run zero b opp d u = Unit
Run (suc k) b opp d u =
    (on_board u ≡ true) × ((b u == opp) ≡ true) × Run k b opp d (next_square d u)

walk_over-Run :
    (n : ℕ) (b : Board) (opp : ℕ) (d : Direction) (u : Square)
    → Run (walk_over n b opp d u).0 b opp d u
unfolding Run walk_over
walk_over-Run zero b opp d u = tt
walk_over-Run (suc n) b opp d u = elim (Bool-cases (on_board u && (b u == opp))) [
  | inr stop ↦ rw (stop, walk_over) tt
  | inl more ↦
      rw (more, walk_over)
        (ground (arith, more), ground (arith, more), walk_over-Run n b opp d (next_square d u))
]

pub turned-Run :
    (b : Board) (p : ℕ) (s : Square) (d : Direction)
    → Run (turned b p s d) b (3 - p) d (next_square d s)
unfolding turned Run
turned-Run b p s d = elim (Bool-cases (closes b p (walk_over 8 b (3 - p) d (next_square d s)))) [
  | inl closed ↦ rw closed (walk_over-Run 8 b (3 - p) d (next_square d s))
  | inr none_there ↦ rw none_there tt
]

Run-place :
    (k : ℕ) (b : Board) (opp p : ℕ) (d : Direction) (v u : Square)
    → ((j : ℕ) → on_board (ray j d v) ≡ true → ray j d v ≢ u)
    → Run k b opp d v
    → Run k (place_disc b u p) opp d v
unfolding Run ray
Run-place zero b opp p d v u apart r = tt
Run-place (suc k) b opp p d v u apart r = (
  r.0,
  ap (λ x. x == opp) (placed_other b u p v (apart 0 r.0)) ∙ r.1,
  Run-place k b opp p d (next_square d v) u (λ j. apart (suc j)) r.2,
)

-- Turning a run over changes nothing off its ray.
turn_over_away :
    (k : ℕ) (b : Board) (p : ℕ) (d : Direction) (u t : Square)
    → ((j : ℕ) → t ≢ ray j d u)
    → turn_over k b p d u t ≡ b t
unfolding turn_over ray
turn_over_away zero b p d u t apart = refl
turn_over_away (suc k) b p d u t apart =
    turn_over_away k (place_disc b u p) p d (next_square d u) t (λ j. apart (suc j))
    ∙ placed_other b u p t (apart 0)

pub turn_over-Agrees :
    (k : ℕ) (b : Board) (p : ℕ) (d e : Direction) (s : Square)
    → on_board s ≡ true
    → code e ≢ code d
    → Agrees b (turn_over k b p d (next_square d s)) e (next_square e s)
unfolding ray
turn_over-Agrees k b p d e s on apart i there =
    turn_over_away k b p d (next_square d s) (ray (suc i) e s)
      (λ j same_square. apart (rays_meet e d i j s on there same_square))

-- A run that is turned over counts for the other side.
pub turn_over_scores :
    (k : ℕ) (b : Board) (p opp : ℕ) (d : Direction) (u : Square)
    → p ≢ opp
    → code d ≢ 4
    → Run k b opp d u
    → (score (turn_over k b p d u) p ≡ score b p + k)
      × (score (turn_over k b p d u) opp + k ≡ score b opp)
unfolding turn_over Run ray
turn_over_scores zero b p opp d u sides moves r = (omega arith, omega arith)
turn_over_scores (suc k) b p opp d u sides moves r =
    let later = Run-place k b opp p d (next_square d u) u (λ j. ray_leaves d j u moves r.0) r.2 in
    let rest = turn_over_scores k (place_disc b u p) p opp d (next_square d u) sides moves later in
    let gain = score_gains b u p r.0 (ground (arith, r.1, sides)) in
    let loss = score_loses b u p opp r.0 r.1 (ground (arith, sides)) in
    (omega (arith, rest.0, gain), omega (arith, rest.1, loss))
