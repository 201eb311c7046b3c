-- ===== src/Fs/Move/Tests.antt =====
-- `fsd_move` on a disk whose third write fails, and its theorem there.
use flopnix.Base.{ℕ, ◌+◌, ◌≡◌, ◌≢◌, refl, Bool, true, not, some, arith, ◌==◌, if◌then◌else◌}
use flopnix.Fs.Device.{Device}
use flopnix.Fs.Move.{restored, move, moved, probe, copy, restore, recover, check_source}
use flopnix.Fs.Move.Laws.{Moves, move-Moves}

-- A disk with the number of writes so far; write number 2 fails, and leaves 999.
abbrev Disk : Type 0
Disk = ℕ × (ℕ → ℕ)

disk_write : ℕ → ℕ → Disk → Bool × Disk
disk_write a v (n, c) =
    (not (n == 2), (n + 1, λ j. if j == a then (if n == 2 then 999 else v) else c j))

write_elsewhere : (a v : ℕ) (s : Disk) (j : ℕ) → j ≢ a → (disk_write a v s).1.1 j ≡ s.1 j
unfolding disk_write
write_elsewhere a v (n, c) j ne = ground arith

write_done : (a v : ℕ) (s : Disk) → (disk_write a v s).0 ≡ true → (disk_write a v s).1.1 a ≡ v
unfolding disk_write
write_done a v (n, c) ok = ground arith

read_gives : (a : ℕ) (s : Disk) (v : ℕ) → some (s.1 a) ≡ some v → v ≡ s.1 a
read_gives a s v e = ground arith

abbrev failing : Device
failing = record {
  State = Disk;
  Data = ℕ;
  content = λ s. s.1;
  read = λ a s. (some (s.1 a), s);
  write = disk_write;
  read_keeps = λ a s j. refl;
  read_gives = read_gives;
  write_elsewhere = write_elsewhere;
  write_done = write_done;
}

abbrev start : Disk
start = (0, λ j. j)

-- Four sectors move down by two; the third write fails, and the way back succeeds.
move_restores : (move failing 102 100 4 start).0 ≡ restored
unfolding move check_source probe copy restore recover disk_write
move_restores = refl

-- The same move with three sectors left of it: nothing overlaps, and nothing fails.
move_succeeds : (move failing 110 100 2 start).0 ≡ moved
unfolding move check_source probe copy restore recover disk_write
move_succeeds = refl

move-Moves_example : Moves failing 102 100 4 (λ j. j) (move failing 102 100 4 start)
move-Moves_example = move-Moves failing 102 100 4 start (omega arith) (omega arith)
