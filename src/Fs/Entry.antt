-- ===== src/Fs/Entry.antt =====
-- The file table of FLOPFS: `FsEnt` of src/kapi.h, the constants of src/fs.c, and the table's
-- lookups. The table in memory is the list of its FS_NFILES entries; a name is the bytes of the
-- `char` array up to its first 0, so one of FS_NAMELEN bytes has no terminator.
use Prim.Native.Nat.{bit_and}
use flopnix.Base.{ℕ, ◌+◌, Bool, ◌&&◌, not, Option, none, some, List, [], ◌∷◌, ◌==◌, if◌then◌else◌}
use flopnix.Util.Strings.{same}

pub record Entry : Type 0 where
  pub name : List ℕ
  pub size : ℕ
  pub mtime : ℕ
  pub start : ℕ
  pub nsect : ℕ
  pub used : ℕ
  pub attr : ℕ

abbrev pub name_len : ℕ
name_len = 64

-- FS_ATTR_DIR.
abbrev pub attr_dir : ℕ
attr_dir = 0x10

abbrev pub is_dir : Entry → Bool
is_dir e = not (bit_and e.attr attr_dir == 0)

abbrev pub in_use : Entry → Bool
in_use e = not (e.used == 0)

-- FS_END.
abbrev pub volume_end : ℕ
volume_end = 2880

-- `find`, with the index of the entry in the table.
unfoldable pub find_from : ℕ → List Entry → List ℕ → Option (ℕ × Entry)
find_from i [] name = none
find_from i (e ∷ es) name =
    if in_use e && same e.name name then some (i, e) else find_from (i + 1) es name

abbrev pub find : List Entry → List ℕ → Option (ℕ × Entry)
find es name = find_from 0 es name
