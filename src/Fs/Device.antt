-- ===== src/Fs/Device.antt =====
-- The sector device below the file system: `fdc_read` and `fdc_write` of the floppy driver, which
-- the file system reaches by calls only, as operations on a state with what the code relies on.
-- A sector whose write failed may hold anything; a read may fail at any time, and changes nothing.
use flopnix.Base.{ℕ, ◌≡◌, ◌≢◌, Bool, true, Option, some}

pub record Device : Type 1 where
  pub State : Type 0
  pub Data : Type 0
  -- What the medium holds at a sector.
  pub content : State → ℕ → Data
  -- `none` is a return code that is not 0.
  pub read : ℕ → State → Option Data × State
  -- `true` is the return code 0.
  pub write : ℕ → Data → State → Bool × State
  pub read_keeps : (a : ℕ) (s : State) (j : ℕ) → content (read a s).1 j ≡ content s j
  pub read_gives : (a : ℕ) (s : State) (v : Data) → (read a s).0 ≡ some v → v ≡ content s a
  pub write_elsewhere :
      (a : ℕ) (v : Data) (s : State) (j : ℕ) → j ≢ a → content (write a v s).1 j ≡ content s j
  pub write_done :
      (a : ℕ) (v : Data) (s : State) → (write a v s).0 ≡ true → content (write a v s).1 a ≡ v
