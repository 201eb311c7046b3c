-- ===== src/Reversi/Choice.antt =====
-- The machine chooses a legal move when it has one.
use flopnix.Base.{
  ℕ, ◌≡◌, refl, true, false, inl, inr, Option, none, some, List, [], ◌∷◌, ◌==◌, arith, Bool-cases,
  ◌<◌,
}
use flopnix.Reversi.{
  Square, Board, flips, any_flip, has_move, weight, Best, improves, keep_best, best_of, ai_move,
  move_to, squares, disc_count,
}
use flopnix.Reversi.Empty.{Among, apply_move_fewer}

-- An empty square of the list.
abbrev pub Open : Board → List Square → Square → Type 0
Open b all s = Among s all × ((b s == 0) ≡ true)

flips-Open : (b : Board) (p : ℕ) (s : Square) → (flips b p s == 0) ≡ false → (b s == 0) ≡ true
unfolding flips
flips-Open b p s h = elim (Bool-cases (b s == 0)) [
  | inl empty ↦ empty
  | inr filled ↦ absurd (let e : true ≡ false = rw filled at h in cc)
]

abbrev OpenBest : Board → List Square → Option Best → Type 0
OpenBest b all o = elim o [ none ↦ Unit | some x ↦ Open b all x.square ]

keep_best-OpenBest :
    (b : Board) (all : List Square) (o : Option Best) (s : Square)
    → Among s all
    → OpenBest b all o
    → OpenBest b all (keep_best b o s)
unfolding keep_best
keep_best-OpenBest b all o s a g = elim (Bool-cases (flips b 2 s == 0)) [
  | inl no_flip ↦ rw no_flip g
  | inr flip ↦ elim (Bool-cases (improves s (flips b 2 s) o)) [
    | inl better ↦ rw (flip, better) (a, flips-Open b 2 s flip)
    | inr worse ↦ rw (flip, worse) g
  ]
]

best_of-OpenBest :
    (b : Board) (all : List Square) (o : Option Best) (ss : List Square)
    → ((s : Square) → Among s ss → Among s all)
    → OpenBest b all o
    → OpenBest b all (best_of b o ss)
unfolding best_of Among
best_of-OpenBest b all o [] sub g = g
best_of-OpenBest b all o (s ∷ ss) sub g =
    best_of-OpenBest b all (keep_best b o s) ss (λ t a. sub t (inr a))
      (keep_best-OpenBest b all o s (sub s (inl refl)) g)

best_of-some :
    (b : Board) (x : Best) (ss : List Square) → (y : Best) × (best_of b (some x) ss ≡ some y)
unfolding best_of keep_best
best_of-some b x [] = (x, refl)
best_of-some b x (s ∷ ss) = elim (Bool-cases (flips b 2 s == 0)) [
  | inl no_flip ↦ rw no_flip (best_of-some b x ss)
  | inr flip ↦ elim (Bool-cases (improves s (flips b 2 s) (some x))) [
    | inl better ↦
        rw (flip, better)
          (best_of-some b (record { value = weight s; count = flips b 2 s; square = s }) ss)
    | inr worse ↦ rw (flip, worse) (best_of-some b x ss)
  ]
]

best_of-found :
    (b : Board) (ss : List Square)
    → any_flip b 2 ss ≡ true
    → (y : Best) × (best_of b none ss ≡ some y)
unfolding best_of keep_best any_flip
best_of-found b [] h = absurd cc
best_of-found b (s ∷ ss) h = elim (Bool-cases (flips b 2 s == 0)) [
  | inl no_flip ↦ rw no_flip (best_of-found b ss (rw no_flip at h))
  | inr flip ↦
      rw flip (best_of-some b (record { value = weight s; count = flips b 2 s; square = s }) ss)
]

-- A move that the machine makes takes an empty square.
pub ai_move_fewer :
    (b : Board) → has_move b 2 ≡ true → disc_count (ai_move b) 0 squares < disc_count b 0 squares
unfolding ai_move move_to
ai_move_fewer b h =
    let found = best_of-found b squares h in
    let good = best_of-OpenBest b squares none squares (λ s a. a) tt in
    let choice : Open b squares found.0.square = rw found.1 at good in
    rw found.1 (apply_move_fewer b 2 found.0.square (omega arith) choice.0 choice.1)
