-- ===== src/Fs/Probe.antt =====
-- `fs_probe` of src/fs.c: after a transfer that failed on a sector, each sector of its track is
-- tried by itself, and those that fail are marked bad.
pub mod Laws
mod Tests
use Prim.Native.Nat.{bit_and}
use flopnix.Base.{
  ℕ, zero, suc, ◌+◌, ◌-◌, ◌%◌, Bool, true, false, ◌&&◌, ◌||◌, not, Option, none, some, List, [],
  ◌∷◌, ltb, leb, ◌==◌, if◌then◌else◌, get_or, is_some,
}
use flopnix.Fs.Bad.{add, Added}
use flopnix.Fs.Drive.{SectorBytes, FdcResult, Drive}
use flopnix.Fs.Drive
use flopnix.Fs.Entry.{volume_end}
use flopnix.Fs.Marks.{bad_mark, with_bad}
use flopnix.Fs.Volume.{Volume}

-- FLOPPY_TRACK_SECTORS.
abbrev track_sectors : ℕ
track_sectors = 18

-- The test of `st`, that the drive has seen an error of the medium.
abbrev medium_error : FdcResult → Bool
medium_error r =
    not (
      (not (bit_and r.st0 0xC8 == 0x40) && (bit_and r.st1 0x20 == 0)) || not (bit_and r.st1 2 == 0))

module _ (d : Drive) where
  -- `bad_mark`, with the drive's state after it.
  pub mark_bad : ℕ → Volume → d.State → Bool × Volume × d.State
  mark_bad lba v s =
      let r = add v.bad lba in
      let m = bad_mark (Drive.answers d s) lba v in
      (
        m.0,
        m.1,
        if ltb lba v.first || leb volume_end lba then s else elim r.0 [
          | Added.listed ↦ s
          | Added.full ↦ s
          | Added.added ↦ (d.flush_bad (with_bad r.1 v) s).1
        ],
      )

  -- Whether one sector fails: written and verified with the block that belongs there, or read.
  pub fails : ℕ → ℕ → Option (List SectorBytes) → d.State → Bool × d.State
  fails at s none st = let r = d.read_many at 1 st in (not (is_some r.0), r.1)
  fails at s (some blocks) st =
      let b = get_or blocks s [] ∷ [] in
      let w = d.write_many at b st in
      let c = d.verify at b w.1 in if w.0 then (not c.0, c.1) else (true, w.1)

  -- The loop over `left` sectors from `at`, which is sector `s` of the file.
  probe_from : ℕ → ℕ → ℕ → Option (List SectorBytes) → Volume → d.State → ℕ → ℕ × Volume × d.State
  unfolding mark_bad fails
  probe_from zero at s blocks v st marked = (marked, v, st)
  probe_from (suc left) at s blocks v st marked =
      let f = fails at s blocks st in
      let m = mark_bad at v f.1 in
      if f.0
      then probe_from left (at + 1) (s + 1) blocks m.1 m.2 (if m.0 then marked + 1 else marked)
      else probe_from left (at + 1) (s + 1) blocks v f.1 marked

  -- `fs_probe`: how many sectors it has marked.
  pub probe : ℕ → ℕ → Option (List SectorBytes) → Volume → d.State → ℕ × Volume × d.State
  unfolding probe_from
  probe start count blocks v st =
      let r = d.result st in
      let next = r.lba + track_sectors - r.lba % track_sectors in
      let hi = if ltb (start + count) next then start + count else next in
      if not (medium_error r)
      then (0, v, st)
      else if ltb r.lba start || leb count (r.lba - start)
      then (0, v, st)
      else probe_from (hi - r.lba) r.lba (r.lba - start) blocks v st 0
