-- ===== src/Fs/Write/Tests.antt =====
-- "hi" written to a new file on a drive that never fails, and the theorems there.
use flopnix.Base.{ℕ, ◌≡◌, refl, false, List, [], ◌∷◌}
use flopnix.Fs.Alloc.{alloc}
use flopnix.Fs.Bad.{clash}
use flopnix.Fs.Entry.{find_from}
use flopnix.Fs.Volume.{slot_from}
use flopnix.Util.Strings.{same}
use flopnix.Fs.Drive.{SectorBytes}
use flopnix.Fs.Drive.Sample.{memory_drive, memory_drive-IsDrive, one_file, one_file-IsVolume}
use flopnix.Fs.Write.{stored, put_file, place_file, write_placed, write_pass, write_passes, write}
use flopnix.Fs.Write.Stored.{Outcome, write-Outcome}

abbrev name : List ℕ
name = b'g' ∷ []

abbrev hi : List ℕ
hi = b'h' ∷ b'i' ∷ []

abbrev blank : ℕ → SectorBytes
blank j = []

stores : (write memory_drive 0 false name hi one_file blank).0 ≡ stored
unfolding write write_passes write_pass write_placed place_file put_file alloc find_from same clash
    slot_from
stores = refl

write-Outcome_example :
    Outcome memory_drive name hi one_file blank (write memory_drive 0 false name hi one_file blank)
write-Outcome_example =
    write-Outcome memory_drive 0 false name hi one_file blank memory_drive-IsDrive one_file-IsVolume
