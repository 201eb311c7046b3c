-- ===== src/Fs/Volume/Tests.antt =====
-- Operations on a table of two files, on a floppy that takes every write; the theorems there.
use flopnix.Base.{ℕ, ◌≡◌, refl, true, none, some, [], ◌∷◌, arith}
use flopnix.Util.Strings.{same}
use flopnix.Fs.Entry.{Entry, find, find_from, is_dir}
use flopnix.Fs.Volume.{Volume, IsVolume, Medium, IsMedium, done, delete, rename, mkdir}
use flopnix.Fs.Volume.Laws.{After, Same, Renamed, delete-After, rename-After, mkdir-After}

abbrev file : ℕ → ℕ → ℕ → Entry
file name start nsect = record {
  name = name ∷ [];
  size = 512;
  mtime = 0;
  start = start;
  nsect = nsect;
  used = 1;
  attr = 0;
}

abbrev volume : Volume
volume = record {
  table = file b'a' 369 3 ∷ record (file b'c' 0 0) { used = 0 } ∷ file b'b' 372 2 ∷ [];
  bad = 2000 ∷ [];
  slots = 3;
  name_cap = 64;
  first = 369;
}

volume-IsVolume : IsVolume volume
volume-IsVolume = record {
  valid = (
    (λ u. (
      (
        refl,
        omega arith,
        (λ l. absurd (omega arith)),
        (λ d. absurd cc),
        (λ d. (omega arith, omega arith, omega arith, omega arith)),
      ),
      (
        (λ v. absurd cc),
        ((λ v. ((λ p. absurd (ground arith)), λ s p q r t. absurd (omega arith))), tt),
      ),
    )),
    (
      (λ u. absurd cc),
      (
        (λ u. (
          (
            refl,
            omega arith,
            (λ l. absurd (omega arith)),
            (λ d. absurd cc),
            (λ d. (omega arith, omega arith, omega arith, omega arith)),
          ),
          tt,
        )),
        tt,
      ),
    ),
  );
  bad_valid = (tt, ((omega arith, omega arith), tt), omega arith);
  slots_le = omega arith;
  name_le = omega arith;
  first_pos = omega arith;
}

abbrev steady : Medium
steady = record { ensure = λ v. (true, v); commit = λ s v. (true, v); flush_bad = λ v. true }

steady-IsMedium : IsMedium steady
steady-IsMedium = record { ensured = λ v w. w; committed = λ s v w. w; kept = λ s v e. refl }

delete_run : (delete steady (b'a' ∷ []) volume).0 ≡ done
unfolding delete find_from same
delete_run = refl

delete-After_example :
    After
      (λ w. (find w.table (b'a' ∷ []) ≡ none) × Same (b'a' ∷ []) volume w)
      (delete steady (b'a' ∷ []) volume)
delete-After_example = delete-After steady steady-IsMedium (b'a' ∷ []) volume volume-IsVolume

rename-After_example :
    After (Renamed (b'a' ∷ []) (b'd' ∷ []) volume) (rename steady (b'a' ∷ []) (b'd' ∷ []) volume)
rename-After_example =
    rename-After steady steady-IsMedium (b'a' ∷ []) (b'd' ∷ []) volume volume-IsVolume

mkdir-After_example :
    After
      (λ w.
        (find volume.table (b'd' ∷ []) ≡ none)
        × ((i : ℕ) × (e : Entry) × (find w.table (b'd' ∷ []) ≡ some (i, e)) × (is_dir e ≡ true))
        × Same (b'd' ∷ []) volume w)
      (mkdir steady 7 (b'd' ∷ []) volume)
mkdir-After_example = mkdir-After steady steady-IsMedium 7 (b'd' ∷ []) volume volume-IsVolume
