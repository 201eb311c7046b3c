-- ===== src/Fs/Marks/Tests.antt =====
-- Marking a sector of an empty volume, and the theorem there.
use flopnix.Base.{refl, true, [], ◌∷◌, arith}
use flopnix.Fs.Volume.{Volume, IsVolume, Medium, IsMedium}
use flopnix.Fs.Marks.{mark, bad_op, Marked, bad_op-Marked}

abbrev empty : Volume
empty = record { table = []; bad = 500 ∷ []; slots = 0; name_cap = 64; first = 369 }

empty-IsVolume : IsVolume empty
empty-IsVolume = record {
  valid = tt;
  bad_valid = (tt, ((omega arith, omega arith), tt), omega arith);
  slots_le = omega arith;
  name_le = omega arith;
  first_pos = omega arith;
}

abbrev steady : Medium
steady = record { ensure = λ v. (true, v); commit = λ s v. (true, v); flush_bad = λ v. true }

steady-IsMedium : IsMedium steady
steady-IsMedium = record { ensured = λ v w. w; committed = λ s v w. w; kept = λ s v e. refl }

bad_op-Marked_example : Marked empty (bad_op steady mark 400 empty)
bad_op-Marked_example = bad_op-Marked steady mark 400 empty steady-IsMedium empty-IsVolume
