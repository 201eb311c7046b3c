-- ===== src/Fs/Drive/Sample.antt =====
-- A drive that never fails, with its sectors in memory, and a volume with one file.
use flopnix.Base.{
  ℕ, ◌+◌, ◌≡◌, refl, sym, ap, ◌∙◌, true, false, some, none, List, [], ◌∷◌, ◌==◌, if◌then◌else◌,
  length, inl, inr, arith,
}
use flopnix.Fs.Drive.{SectorBytes, Drive, IsDrive, run}
use flopnix.Fs.Drive.Laws.{Away, run_same}
use flopnix.Fs.Entry.{Entry}
use flopnix.Fs.Volume.{Volume, IsVolume}

-- The disk with some sectors written from `at` on.
unfoldable pub placed : (ℕ → SectorBytes) → ℕ → List SectorBytes → ℕ → SectorBytes
placed disk at [] j = disk j
placed disk at (b ∷ bs) j = if j == at then b else placed disk (at + 1) bs j

placed-Away :
    (disk : ℕ → SectorBytes) (at : ℕ) (bs : List SectorBytes) (j : ℕ)
    → Away at (length bs) j
    → placed disk at bs j ≡ disk j
unfolding placed
placed-Away disk at [] j a = refl
placed-Away disk at (b ∷ bs) j a =
    let other : (j == at) ≡ false = elim a [ inl l ↦ ground arith | inr r ↦ ground arith ] in
    let rest : Away (at + 1) (length bs) j = elim a [
      | inl l ↦ inl (omega arith)
      | inr r ↦ inr (omega arith)
    ] in
    rw other (placed-Away disk (at + 1) bs j rest)

pub run-placed :
    (disk : ℕ → SectorBytes) (at : ℕ) (bs : List SectorBytes)
    → run (placed disk at bs) at (length bs) ≡ bs
unfolding placed run
run-placed disk at [] = refl
run-placed disk at (b ∷ bs) =
    let here : (at == at) ≡ true = ground arith in
    let rest =
      run_same (placed disk at (b ∷ bs)) (placed disk (at + 1) bs) (at + 1) (length bs)
        (λ j lo hi. let other : (j == at) ≡ false = ground arith in rw other refl) in
    rw here (ap (◌∷◌ b) (rest ∙ run-placed disk (at + 1) bs))

abbrev pub memory_drive : Drive
memory_drive = record {
  State = ℕ → SectorBytes;
  content = λ s. s;
  result = λ s. record { lba = 0; st0 = 0; st1 = 0 };
  read_many = λ a n s. (some (run s a n), s);
  write_many = λ a bs s. (true, placed s a bs);
  verify = λ a bs s. (true, s);
  ensure = λ v s. ((true, v), s);
  commit = λ t v s. ((true, v), s);
  flush_bad = λ v s. (true, s);
  epoch = λ s. 0;
}

some_same : {A : Type 0} {a b : A} → some a ≡ some b → a ≡ b
some_same {A} {a} {b} h = ap (λ o. elim o [ none ↦ a | some x ↦ x ]) h

pub memory_drive-IsDrive : IsDrive memory_drive
memory_drive-IsDrive = record {
  read_keeps = λ a n s j. refl;
  read_gives = λ a n s bs e. some_same (sym e);
  write_elsewhere = λ a bs s j away. placed-Away s a bs j away;
  write_done = λ a bs s ok. run-placed s a bs;
  verify_keeps = λ a bs s j. refl;
  ensure_keeps = λ v s j. refl;
  commit_keeps = λ t v s j h. refl;
  flush_keeps = λ v s j h. refl;
  medium = λ s. record { ensured = λ v w. w; committed = λ t v w. w; kept = λ t v ok. refl };
}

abbrev pub file : Entry
file = record { name = b'f' ∷ []; size = 3; mtime = 0; start = 369; nsect = 1; used = 1; attr = 0 }

-- One file, and a slot that is free.
abbrev pub one_file : Volume
one_file = record {
  table = file ∷ record file { used = 0 } ∷ [];
  bad = [];
  slots = 2;
  name_cap = 64;
  first = 369;
}

pub one_file-IsVolume : IsVolume one_file
one_file-IsVolume = record {
  valid = (
    (λ u. (
      (
        refl,
        omega arith,
        (λ l. absurd (omega arith)),
        (λ d. absurd cc),
        (λ d. (omega arith, omega arith, omega arith, omega arith)),
      ),
      ((λ v. absurd cc), tt),
    )),
    ((λ u. absurd cc), tt),
  );
  bad_valid = (tt, tt, omega arith);
  slots_le = omega arith;
  name_le = omega arith;
  first_pos = omega arith;
}
