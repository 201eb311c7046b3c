-- ===== src/Fs/Drive.antt =====
-- The floppy drive below reading and writing files: `fdc_read_many`, `fdc_write_many` and
-- `fdc_verify` of the driver, what it reports of the last failure, and what src/fs.c does on the
-- sectors of its own table, with what the code relies on. A sector is the list of its 512 bytes.
pub mod Laws
pub mod Sample
use flopnix.Base.{
  ℕ, zero, suc, ◌+◌, ◌≡◌, ◌≤◌, ◌<◌, ◌⊎◌, Bool, true, Option, some, List, [], ◌∷◌, length,
}
use flopnix.Fs.Volume.{Volume, Sectors, Medium, IsMedium}

abbrev pub SectorBytes : Type 0
SectorBytes = List ℕ

-- FdcResult: the sector of the failure, `st[0]` and `st[1]`.
pub record FdcResult : Type 0 where
  pub lba : ℕ
  pub st0 : ℕ
  pub st1 : ℕ

pub record Drive : Type 1 where
  pub State : Type 0
  -- What the disk holds at a sector.
  pub content : State → ℕ → SectorBytes
  -- `fdc_result_get`.
  pub result : State → FdcResult
  -- `none` is a return code that is not 0.
  pub read_many : ℕ → ℕ → State → Option (List SectorBytes) × State
  -- `true` is the return code 0.
  pub write_many : ℕ → List SectorBytes → State → Bool × State
  pub verify : ℕ → List SectorBytes → State → Bool × State
  -- `fs_ensure`, `commit_table` and `bad_flush`.
  pub ensure : Volume → State → (Bool × Volume) × State
  pub commit : Sectors → Volume → State → (Bool × Volume) × State
  pub flush_bad : Volume → State → Bool × State
  -- `fc_epoch`, which a write of another thread advances.
  pub epoch : State → ℕ

-- What the disk holds from a sector on.
unfoldable pub run : (ℕ → SectorBytes) → ℕ → ℕ → List SectorBytes
run disk at zero = []
run disk at (suc n) = disk at ∷ run disk (at + 1) n

-- What `ensure`, `commit` and `flush_bad` answer in a state.
abbrev pub answers : (d : Drive) → d.State → Medium
answers d s = record {
  ensure = λ v. (d.ensure v s).0;
  commit = λ t v. (d.commit t v s).0;
  flush_bad = λ v. (d.flush_bad v s).0;
}

-- What the code relies on: reading and verifying change nothing, a write changes no sector but its
-- own, and one that succeeds has written them; the table and its flags are below the data area.
pub record IsDrive (d : Drive) : Type 0 where
  pub read_keeps :
      (a n : ℕ) (s : d.State) (j : ℕ) → d.content (d.read_many a n s).1 j ≡ d.content s j
  pub read_gives :
      (a n : ℕ) (s : d.State) (bs : List SectorBytes)
      → (d.read_many a n s).0 ≡ some bs
      → bs ≡ run (d.content s) a n
  pub write_elsewhere :
      (a : ℕ) (bs : List SectorBytes) (s : d.State) (j : ℕ)
      → (j < a) ⊎ (a + length bs ≤ j)
      → d.content (d.write_many a bs s).1 j ≡ d.content s j
  pub write_done :
      (a : ℕ) (bs : List SectorBytes) (s : d.State)
      → (d.write_many a bs s).0 ≡ true
      → run (d.content (d.write_many a bs s).1) a (length bs) ≡ bs
  pub verify_keeps :
      (a : ℕ) (bs : List SectorBytes) (s : d.State) (j : ℕ)
      → d.content (d.verify a bs s).1 j ≡ d.content s j
  pub ensure_keeps :
      (v : Volume) (s : d.State) (j : ℕ) → d.content (d.ensure v s).1 j ≡ d.content s j
  pub commit_keeps :
      (t : Sectors) (v : Volume) (s : d.State) (j : ℕ)
      → v.first ≤ j
      → d.content (d.commit t v s).1 j ≡ d.content s j
  pub flush_keeps :
      (v : Volume) (s : d.State) (j : ℕ)
      → v.first ≤ j
      → d.content (d.flush_bad v s).1 j ≡ d.content s j
  pub medium : (s : d.State) → IsMedium (answers d s)
