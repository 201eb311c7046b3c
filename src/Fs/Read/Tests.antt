-- ===== src/Fs/Read/Tests.antt =====
-- "abc" read from a disk that holds it, and the theorem there.
use flopnix.Base.{ℕ, ◌≡◌, ◌≢◌, ◌⊎◌, refl, List, [], ◌∷◌, arith}
use flopnix.Fs.Drive.{SectorBytes, run}
use flopnix.Fs.Drive.Sample.{memory_drive, memory_drive-IsDrive, placed, run-placed, one_file, file}
use flopnix.Fs.Entry.{find_from}
use flopnix.Fs.Read.{Cached, fc_read, read, read_bytes, flat, got, io_error}
use flopnix.Fs.Read.Laws.{read-bytes}
use flopnix.Fs.Write.{full_blocks, tail_block, blocks_of}
use flopnix.Util.Strings.{same}

abbrev abc : List ℕ
abc = b'a' ∷ b'b' ∷ b'c' ∷ []

abbrev disk : ℕ → SectorBytes
disk = placed (λ j. []) 369 (blocks_of abc)

reads : (read memory_drive [] (b'f' ∷ []) 512 one_file disk).0 ≡ got abc
unfolding read read_bytes flat run placed blocks_of full_blocks tail_block find_from same
reads = refl

-- A copy of the file, and one of another file.
abbrev copies : List Cached
copies =
    record { name = b'g' ∷ []; start = 400; size = 1; bytes = 7 ∷ [] }
    ∷ record { name = file.name; start = file.start; size = file.size; bytes = abc }
    ∷ []

cached : (read memory_drive copies (b'f' ∷ []) 512 one_file (λ j. [])).0 ≡ got abc
unfolding read fc_read find_from same
cached = refl

read-bytes_example :
    ((read memory_drive copies (b'f' ∷ []) 512 one_file disk).0 ≡ got abc)
    ⊎ (((read memory_drive copies (b'f' ∷ []) 512 one_file disk).0 ≡ io_error)
        × (memory_drive.epoch (read memory_drive copies (b'f' ∷ []) 512 one_file disk).3
            ≢ memory_drive.epoch (memory_drive.ensure one_file disk).1))
unfolding find_from same blocks_of
read-bytes_example =
    read-bytes memory_drive copies (b'f' ∷ []) abc 512 0 file one_file disk memory_drive-IsDrive
      (λ a n s. (run s a n, refl)) refl refl refl (run-placed (λ j. []) 369 (blocks_of abc))
      ((λ size start name. absurd (omega (arith, start))), ((λ size start name. refl), tt))
      (omega arith)
