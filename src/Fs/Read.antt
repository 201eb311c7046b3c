-- ===== src/Fs/Read.antt =====
-- `fs_read_locked` of src/fs.c and `fc_read` of src/fscache.inc, on a drive.
mod Blocks
pub mod Laws
mod Tests
use flopnix.Base.{
  ℕ, zero, suc, ◌+◌, ◌-◌, ◌*◌, ◌/◌, ◌%◌, Bool, true, false, ◌&&◌, not, Option, none, some, List, [],
  ◌∷◌, ◌++◌, ltb, ◌==◌, if◌then◌else◌, length, take, drop,
}
use flopnix.Util.Strings.{same}
use flopnix.Fs.Drive.{SectorBytes, Drive}
use flopnix.Fs.Entry.{Entry, find}
use flopnix.Fs.Probe.{probe}
use flopnix.Fs.Volume.{Volume}

-- -1, FS_EIO, and the bytes that are read.
pub data Answer : Type 0 where
  missing io_error : Answer
  got : List ℕ → Answer

-- A slot of the cache that holds a file.
pub record Cached : Type 0 where
  pub name : List ℕ
  pub start : ℕ
  pub size : ℕ
  pub bytes : List ℕ

-- `fc_read`: the first `n` bytes of the copy of a file, if there is one.
unfoldable pub fc_read : List Cached → Entry → ℕ → Option (List ℕ)
fc_read [] e n = none
fc_read (c ∷ cs) e n =
    if (c.size == e.size) && ((c.start == e.start) && same c.name e.name)
    then some (take n c.bytes)
    else fc_read cs e n

-- Sectors one after the other in a buffer.
unfoldable pub flat : List SectorBytes → List ℕ
flat [] = []
flat (b ∷ bs) = b ++ flat bs

-- The bytes of a sector that `memcpy` takes.
abbrev rest_of : ℕ → List SectorBytes → List ℕ
rest_of n [] = []
rest_of n (b ∷ bs) = take n b

module _ (d : Drive) where
  -- The loop over the full sectors, which reads them at once, and the rest of the last sector.
  pub read_bytes : ℕ → ℕ → d.State → Option (List ℕ) × d.State
  unfolding flat
  read_bytes start size s =
      let full = size / 512 in
      let head = if full == 0 then (some [], s) else d.read_many start full s in
      let tail = d.read_many (start + full) 1 head.1 in
      elim head.0 [
        | none ↦ (none, head.1)
        | some blocks ↦ if size % 512 == 0 then (some (flat blocks), head.1) else elim tail.0 [
          | none ↦ (none, tail.1)
          | some last ↦ (some (flat blocks ++ rest_of (size % 512) last), tail.1)
        ]
      ]

  -- `fs_read_locked`, with the bytes that it hands to `fc_save`.
  pub read :
      List Cached → List ℕ → ℕ → Volume → d.State → Answer × Option (List ℕ) × Volume × d.State
  unfolding read_bytes fc_read
  read cache name max v0 s0 =
      let m = d.ensure v0 s0 in
      let v = m.0.1 in
      if not m.0.0 then (missing, none, v, m.1) else elim (find v.table name) [
        | none ↦ (missing, none, v, m.1)
        | some (i, e) ↦
            let size = if ltb e.size max then e.size else max in
            elim (fc_read cache e size) [
              | some bytes ↦ (got bytes, none, v, m.1)
              | none ↦
                  let r = read_bytes e.start size m.1 in
                  elim r.0 [
                    | none ↦
                        let p = probe d e.start e.nsect none v r.1 in (io_error, none, p.1, p.2)
                    | some bytes ↦
                        if d.epoch r.1 == d.epoch m.1
                        then (got bytes, some bytes, v, r.1)
                        else (io_error, none, v, r.1)
                  ]
            ]
      ]
