-- ===== src/Fs/Defrag/Tests.antt =====
-- A file with a gap before it, on a disk whose writes succeed.
use flopnix.Base.{
  ℕ, ◌≡◌, ◌≢◌, refl, sym, ◌∙◌, Bool, true, some, List, [], ◌∷◌, arith, ◌==◌, if◌then◌else◌, All,
}
use flopnix.Fs.Entry.{Entry}
use flopnix.Fs.Volume.{Volume, IsVolume, Sectors}
use flopnix.Fs.Device.{Device}
use flopnix.Fs.Bad.{clash}
use flopnix.Fs.Move.{torn, move}
use flopnix.Fs.Plan.{plan}
use flopnix.Fs.Defrag.{plan_entries, all_moved, ended_with, defrag}
use flopnix.Fs.Defrag.Laws.{start_of}
use flopnix.Fs.Defrag.Files.{Kept, defrag-Kept}

abbrev Disk : Type 0
Disk = ℕ → ℕ

disk_put : ℕ → ℕ → Disk → Disk
disk_put a v c j = if j == a then v else c j

put_elsewhere : (a v : ℕ) (c : Disk) (j : ℕ) → j ≢ a → disk_put a v c j ≡ c j
unfolding disk_put
put_elsewhere a v c j ne = ground arith

put_there : (a v : ℕ) (c : Disk) → disk_put a v c a ≡ v
unfolding disk_put
put_there a v c = ground arith

read_back : (a : ℕ) (c : Disk) (v : ℕ) → some (c a) ≡ some v → v ≡ c a
read_back a c v e = ground arith

abbrev reliable : Device
reliable = record {
  State = Disk;
  Data = ℕ;
  content = λ c. c;
  read = λ a c. (some (c a), c);
  write = λ a v c. (true, disk_put a v c);
  read_keeps = λ a c j. refl;
  read_gives = read_back;
  write_elsewhere = put_elsewhere;
  write_done = λ a v c ok. put_there a v c;
}

-- Writing the table changes sector 300.
abbrev table_write : Sectors → List Entry → Disk → Bool × Disk
table_write marked table c = (true, disk_put 300 7 c)

abbrev lonely : Entry
lonely = record {
  name = b'a' ∷ [];
  size = 512;
  mtime = 0;
  start = 380;
  nsect = 2;
  used = 1;
  attr = 0;
}

abbrev gapped : Volume
gapped = record { table = lonely ∷ []; bad = []; slots = 1; name_cap = 64; first = 369 }

gapped-IsVolume : IsVolume gapped
gapped-IsVolume = record {
  valid = (
    (λ u. (
      (
        refl,
        omega arith,
        (λ l. absurd (omega arith)),
        (λ d. absurd cc),
        (λ d. (omega arith, omega arith, omega arith, omega arith)),
      ),
      tt,
    )),
    tt,
  );
  bad_valid = (tt, tt, omega arith);
  slots_le = omega arith;
  name_le = omega arith;
  first_pos = omega arith;
}

gap_closed : (defrag reliable table_write gapped (λ j. j)).1 ≡ all_moved
unfolding defrag move plan disk_put clash
gap_closed = refl

new_start : start_of (defrag reliable table_write gapped (λ j. j)).2 0 ≡ some 369
unfolding start_of defrag move plan disk_put clash
new_start = refl

defrag-Kept_example :
    All
      (λ p.
        p.used ≡ true
        → Kept reliable
            (λ j. j)
            (defrag reliable table_write gapped (λ j. j)).2
            (defrag reliable table_write gapped (λ j. j)).3
            p)
      (plan_entries 0 (lonely ∷ []))
defrag-Kept_example =
    defrag-Kept reliable table_write gapped (λ j. j) gapped-IsVolume (omega arith) (omega arith)
      (λ marked table c j far. put_elsewhere 300 7 c j (λ e. omega (arith, far, e)))
      (λ e. absurd (let x : all_moved ≡ ended_with torn = sym gap_closed ∙ e in cc))
