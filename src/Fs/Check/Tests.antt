-- ===== src/Fs/Check/Tests.antt =====
-- `fs_table_valid` on small tables, and its theorem there.
use flopnix.Base.{ℕ, ◌≡◌, ◌↔◌, ◌*◌, refl, true, false, List, [], ◌∷◌}
use flopnix.Util.Strings.{same}
use flopnix.Fs.Entry.{Entry}
use flopnix.Fs.Check.{table_valid}
use flopnix.Fs.Check.Laws.{IsTable, table_valid-iff-IsTable}

abbrev file : ℕ → ℕ → ℕ → Entry
file name start nsect = record {
  name = name ∷ [];
  size = nsect * 512;
  mtime = 0;
  start = start;
  nsect = nsect;
  used = 1;
  attr = 0;
}

abbrev sound_table : List Entry
sound_table = file b'a' 299 3 ∷ record (file 0 0 0) { used = 0 } ∷ file b'b' 302 2 ∷ []

runs :
    (table_valid sound_table 299 2880 ≡ true)
    × (table_valid (file b'a' 304 1 ∷ sound_table) 299 2880 ≡ false)
    × (table_valid (file b'c' 303 2 ∷ sound_table) 299 2880 ≡ false)
unfolding table_valid same
runs = (refl, refl, refl)

table_valid-iff-IsTable_example :
    (table_valid sound_table 299 2880 ≡ true) ↔ IsTable 299 2880 sound_table
table_valid-iff-IsTable_example = table_valid-iff-IsTable sound_table 299 2880
