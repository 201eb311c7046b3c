-- ===== src/Fs/Dirs/Tests.antt =====
-- A directory with one file, renamed on a floppy that takes every write.
use flopnix.Base.{◌≡◌, refl, true, [], ◌∷◌, arith}
use flopnix.Util.Strings.{same}
use flopnix.Fs.Entry.{Entry, find_from, attr_dir}
use flopnix.Fs.Volume.{Volume, IsVolume, Medium, IsMedium, done, refused}
use flopnix.Fs.Path.{under, rejoin, dirname_ok}
use flopnix.Fs.Dirs.{rename_dir}
use flopnix.Fs.Dirs.Laws.{rename_dir-IsVolume}

abbrev folder : Entry
folder = record {
  name = b'd' ∷ [];
  size = 0;
  mtime = 0;
  start = 0;
  nsect = 0;
  used = 1;
  attr = attr_dir;
}

abbrev inside : Entry
inside = record {
  name = b'd' ∷ b'/' ∷ b'a' ∷ [];
  size = 512;
  mtime = 0;
  start = 369;
  nsect = 3;
  used = 1;
  attr = 0;
}

abbrev disk : Volume
disk = record { table = folder ∷ inside ∷ []; bad = []; slots = 2; name_cap = 64; first = 369 }

disk-IsVolume : IsVolume disk
disk-IsVolume = record {
  valid = (
    (λ u. (
      (refl, omega arith, (λ l. absurd (omega arith)), (λ d. (refl, refl, refl)), (λ d. absurd cc)),
      ((λ v. ((λ p. absurd (ground arith)), λ s p q r t. absurd (omega arith))), tt),
    )),
    (
      (λ u. (
        (
          refl,
          omega arith,
          (λ l. absurd (omega arith)),
          (λ d. absurd cc),
          (λ d. (omega arith, omega arith, omega arith, omega arith)),
        ),
        tt,
      )),
      tt,
    ),
  );
  bad_valid = (tt, tt, omega arith);
  slots_le = omega arith;
  name_le = omega arith;
  first_pos = omega arith;
}

abbrev steady_disk : Medium
steady_disk = record { ensure = λ v. (true, v); commit = λ s v. (true, v); flush_bad = λ v. true }

steady_disk-IsMedium : IsMedium steady_disk
steady_disk-IsMedium = record { ensured = λ v w. w; committed = λ s v w. w; kept = λ s v e. refl }

both_renamed : rename_dir steady_disk (b'd' ∷ []) (b'e' ∷ b'f' ∷ []) disk ≡ (
  done,
  record disk {
    table =
        record folder { name = b'e' ∷ b'f' ∷ [] }
        ∷ record inside { name = b'e' ∷ b'f' ∷ b'/' ∷ b'a' ∷ [] }
        ∷ [];
  },
)
unfolding rename_dir dirname_ok under rejoin find_from same
both_renamed = refl

into_itself : (rename_dir steady_disk (b'd' ∷ []) (b'd' ∷ b'/' ∷ b'a' ∷ []) disk).0 ≡ refused
unfolding rename_dir dirname_ok under same
into_itself = refl

rename_dir-IsVolume_example :
    IsVolume (rename_dir steady_disk (b'd' ∷ []) (b'e' ∷ b'f' ∷ []) disk).1
rename_dir-IsVolume_example =
    rename_dir-IsVolume steady_disk (b'd' ∷ []) (b'e' ∷ b'f' ∷ []) disk steady_disk-IsMedium
      disk-IsVolume
