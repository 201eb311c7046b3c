-- ===== src/Fs/Drive/Laws.antt =====
-- Runs of sectors, and sectors away from them.
use flopnix.Base.{
  ℕ, zero, suc, ◌+◌, ◌≤◌, ◌<◌, ◌≡◌, ◌⊎◌, refl, ap, ap₂, ◌∙◌, ◌∷◌, ◌++◌, length, inl, inr, arith,
}
use flopnix.Fs.Drive.{SectorBytes, run}

-- A sector outside the `n` sectors from `start`.
abbrev pub Away : ℕ → ℕ → ℕ → Type 0
Away start n j = (j < start) ⊎ (start + n ≤ j)

pub Away-part : (start n a m j : ℕ) → start ≤ a → a + m ≤ start + n → Away start n j → Away a m j
Away-part start n a m j h g (inl l) = inl (omega arith)
Away-part start n a m j h g (inr r) = inr (omega arith)

pub run-add : (f : ℕ → SectorBytes) (a n m : ℕ) → run f a (n + m) ≡ run f a n ++ run f (a + n) m
unfolding run
run-add f a zero m = ap₂ (λ x y. run f x y) {x = a} {y = a + 0} (omega arith) (omega arith)
run-add f a (suc n) m =
    let one_more : suc n + m ≡ suc (n + m) = omega arith in
    let past : a + 1 + n ≡ a + suc n = omega arith in
    ap (run f a) one_more
    ∙ ap (◌∷◌ (f a)) (run-add f (a + 1) n m ∙ ap (λ k. run f (a + 1) n ++ run f k m) past)

-- Two disks that agree on the sectors of a run.
pub run_same :
    (f g : ℕ → SectorBytes) (a n : ℕ)
    → ((j : ℕ) → a ≤ j → j < a + n → f j ≡ g j)
    → run f a n ≡ run g a n
unfolding run
run_same f g a zero h = refl
run_same f g a (suc n) h =
    ap₂ ◌∷◌ (h a (omega arith) (omega arith))
      (run_same f g (a + 1) n (λ j p q. h j (omega arith) (omega arith)))

pub length-run : (f : ℕ → SectorBytes) (a n : ℕ) → length (run f a n) ≡ n
unfolding run
length-run f a zero = refl
length-run f a (suc n) = ap suc (length-run f (a + 1) n)
