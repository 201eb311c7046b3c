-- ===== src/Util/Sizes/Laws.antt =====
-- The tenths of a size are rounded.
use flopnix.Base.{ℕ, ◌+◌, ◌*◌, ◌/◌, ◌%◌, ◌^◌, ◌<◌, ◌≡◌, ◌⊎◌, inl, inr, leb, arith, Bool-cases}
use flopnix.Util.Sizes.{tenths_of}

rounded_kb :
    (n rem : ℕ)
    → rem < 1024
    → ((tenths_of n rem 1024).0 * 10 + (tenths_of n rem 1024).1
        ≡ n * 10 + (rem * 10 + 1024 / 2) / 1024)
      × ((tenths_of n rem 1024).1 < 10)
unfolding tenths_of
rounded_kb n rem h = elim (Bool-cases (leb 10 ((rem * 10 + 1024 / 2) % 2 ^ 32 / 1024))) [
  | inl carry ↦ rw carry (ground arith, omega arith)
  | inr plain ↦ rw plain (ground arith, ground arith)
]

rounded_mb :
    (n rem : ℕ)
    → rem < 1048576
    → ((tenths_of n rem 1048576).0 * 10 + (tenths_of n rem 1048576).1
        ≡ n * 10 + (rem * 10 + 1048576 / 2) / 1048576)
      × ((tenths_of n rem 1048576).1 < 10)
unfolding tenths_of
rounded_mb n rem h = elim (Bool-cases (leb 10 ((rem * 10 + 1048576 / 2) % 2 ^ 32 / 1048576))) [
  | inl carry ↦ rw carry (ground arith, omega arith)
  | inr plain ↦ rw plain (ground arith, ground arith)
]

-- For the units of 1024 and 1024 * 1024, `one_dp` prints the nearest tenth, carried into the whole
-- number when it is ten.
pub tenths_of-Rounded :
    (n rem div : ℕ)
    → (div ≡ 1024) ⊎ (div ≡ 1024 * 1024)
    → rem < div
    → ((tenths_of n rem div).0 * 10 + (tenths_of n rem div).1 ≡ n * 10 + (rem * 10 + div / 2) / div)
      × ((tenths_of n rem div).1 < 10)
tenths_of-Rounded n rem div unit h = elim unit [
  | inl kb ↦ rw kb (rounded_kb n rem (rw kb at h))
  | inr mb ↦ rw mb (rounded_mb n rem (rw mb at h))
]
