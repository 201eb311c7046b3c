-- ===== src/Fs/Retry.antt =====
-- `dfg_rd` and `dfg_wr` of src/fs.c, which try a sector three times. What `gui_pump` draws between
-- two tries does not reach the disk. The retrying operations are a device again.
use flopnix.Base.{
  ℕ, zero, suc, ◌≡◌, ◌≢◌, refl, inl, inr, ◌∙◌, Bool, true, false, Option, none, some, Bool-cases,
  Option-cases,
}
use flopnix.Fs.Device.{Device}

module _ (dev : Device) where
  open dev use {State, Data, content, read, write}

  -- The loop of `dfg_rd` with `t` tries left.
  unfoldable pub try_read : ℕ → ℕ → State → Option Data × State
  try_read zero lba st = (none, st)
  try_read (suc t) lba st = elim (read lba st).0 [
    | none ↦ try_read t lba (read lba st).1
    | some v ↦ (some v, (read lba st).1)
  ]

  -- The loop of `dfg_wr` with `t` tries left.
  unfoldable pub try_write : ℕ → ℕ → Data → State → Bool × State
  try_write zero lba v st = (false, st)
  try_write (suc t) lba v st = elim (write lba v st).0 [
    | false ↦ try_write t lba v (write lba v st).1
    | true ↦ (true, (write lba v st).1)
  ]

  pub try_read_keeps :
      (t lba : ℕ) (st : State) (j : ℕ) → content (try_read t lba st).1 j ≡ content st j
  unfolding try_read
  try_read_keeps zero lba st j = refl
  try_read_keeps (suc t) lba st j = elim (Option-cases (read lba st).0) [
    | inl bad ↦
        rw (bad, try_read) (try_read_keeps t lba (read lba st).1 j ∙ dev.read_keeps lba st j)
    | inr (v, got) ↦ rw (got, try_read) (dev.read_keeps lba st j)
  ]

  pub try_read_gives :
      (t lba : ℕ) (st : State) (v : Data) → (try_read t lba st).0 ≡ some v → v ≡ content st lba
  unfolding try_read
  try_read_gives zero lba st v e = cc
  try_read_gives (suc t) lba st v e = elim (Option-cases (read lba st).0) [
    | inl bad ↦
        try_read_gives t lba (read lba st).1 v (rw (bad, try_read) at e) ∙ dev.read_keeps lba st lba
    | inr (w, got) ↦ dev.read_gives lba st v (got ∙ (rw (got, try_read) at e))
  ]

  pub try_write_elsewhere :
      (t lba : ℕ) (v : Data) (st : State) (j : ℕ)
      → j ≢ lba
      → content (try_write t lba v st).1 j ≡ content st j
  unfolding try_write
  try_write_elsewhere zero lba v st j ne = refl
  try_write_elsewhere (suc t) lba v st j ne = elim (Bool-cases (write lba v st).0) [
    | inl ok ↦ rw (ok, try_write) (dev.write_elsewhere lba v st j ne)
    | inr bad ↦
        rw (bad, try_write)
          (try_write_elsewhere t lba v (write lba v st).1 j ne ∙ dev.write_elsewhere lba v st j ne)
  ]

  pub try_write_done :
      (t lba : ℕ) (v : Data) (st : State)
      → (try_write t lba v st).0 ≡ true
      → content (try_write t lba v st).1 lba ≡ v
  unfolding try_write
  try_write_done zero lba v st e = cc
  try_write_done (suc t) lba v st e = elim (Bool-cases (write lba v st).0) [
    | inl ok ↦ rw (ok, try_write) (dev.write_done lba v st ok)
    | inr bad ↦
        rw (bad, try_write) (try_write_done t lba v (write lba v st).1 (rw (bad, try_write) at e))
  ]

  -- `dfg_rd` and `dfg_wr` as a device.
  abbrev pub retrying : Device
  retrying = record {
    State = State;
    Data = Data;
    content = content;
    read = try_read 3;
    write = try_write 3;
    read_keeps = try_read_keeps 3;
    read_gives = try_read_gives 3;
    write_elsewhere = try_write_elsewhere 3;
    write_done = try_write_done 3;
  }
