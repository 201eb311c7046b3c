-- ===== src/Fs/Write.antt =====
-- `fs_write_locked` of src/fs.c and `put`, on a drive.
pub mod Laws
pub mod Place
pub mod Restored
pub mod Stored
mod Tests
use flopnix.Base.{
  ℕ, zero, suc, ◌+◌, ◌-◌, ◌*◌, ◌/◌, ◌%◌, Bool, true, false, ◌&&◌, ◌||◌, not, Option, none, some,
  List, [], ◌∷◌, ◌++◌, ltb, leb, ◌==◌, if◌then◌else◌, length, take, drop, replicate, is_some,
}
use flopnix.Fs.Alloc.{alloc}
use flopnix.Fs.Bad.{clash}
use flopnix.Fs.Drive.{SectorBytes, Drive}
use flopnix.Fs.Drive
use flopnix.Fs.Entry.{Entry, find, is_dir, name_len, volume_end}
use flopnix.Fs.Path.{name_ok}
use flopnix.Fs.Probe.{probe}
use flopnix.Fs.Volume.{Volume, entry_sectors, with_entry, slot_from}

-- 0, -1, -2 and -3.
pub data Written : Type 0 where
  stored failed no_room is_directory : Written

-- The `n` full sectors at the start of a buffer.
unfoldable pub full_blocks : ℕ → List ℕ → List SectorBytes
full_blocks zero bytes = []
full_blocks (suc n) bytes = take 512 bytes ∷ full_blocks n (drop 512 bytes)

-- `tail`: what is left after the full sectors, filled up with 0.
unfoldable pub tail_block : ℕ → List ℕ → SectorBytes
tail_block full bytes =
    let rest = drop (full * 512) bytes in rest ++ replicate (512 - length rest) 0

-- `nsect`.
abbrev pub sectors_for : ℕ → ℕ
sectors_for size = let n = (size + 511) / 512 in if n == 0 then 1 else n

-- The sectors of the whole file: the full ones, and `tail` if there are more.
unfoldable pub blocks_of : List ℕ → List SectorBytes
unfolding full_blocks tail_block
blocks_of bytes =
    let full = length bytes / 512 in
    full_blocks full bytes
    ++ (if ltb full (sectors_for (length bytes)) then tail_block full bytes ∷ [] else [])

-- The entry that is written, with its index: the old one, the old one at another place if it must
-- move, or a new one; `none` is -2.
pub place_file : ℕ → Bool → List ℕ → Volume → Option (ℕ × Entry)
place_file nsect fresh name v = elim (find v.table name) [
  | some (i, e) ↦
      if fresh || (ltb e.nsect nsect || is_some (clash v.bad e.start e.nsect))
      then elim (alloc v.table v.bad v.first volume_end nsect) [
        | none ↦ none
        | some start ↦ some (i, record e { start = start; nsect = nsect })
      ]
      else some (i, e)
  | none ↦ elim (alloc v.table v.bad v.first volume_end nsect) [
    | none ↦ none
    | some start ↦ elim (slot_from 0 v.slots v.table) [
      | none ↦ none
      | some i ↦ some (
        i,
        record {
          name = take (name_len - 1) name;
          size = 0;
          mtime = 0;
          start = start;
          nsect = nsect;
          used = 1;
          attr = 0;
        },
      )
    ]
  ]
]

module _ (d : Drive) where
  -- `put`: `true` is 0.
  pub put_blocks : ℕ → List SectorBytes → Volume → d.State → Bool × d.State
  put_blocks lba blocks v s =
      let w = d.write_many lba blocks s in
      if not w.0
      then (false, w.1)
      else if length v.bad == 0
      then (true, w.1)
      else d.verify lba blocks w.1

  -- The two writes of a pass: the full sectors, if any, and the tail.
  pub put_file : ℕ → List ℕ → Volume → d.State → Bool × d.State
  unfolding put_blocks full_blocks tail_block
  put_file start bytes v s =
      let full = length bytes / 512 in
      let head = if full == 0 then (true, s) else put_blocks start (full_blocks full bytes) v s in
      if head.0 && ltb full (sectors_for (length bytes))
      then put_blocks (start + full) (tail_block full bytes ∷ []) v head.1
      else head

  -- One pass on an entry that has its place: the answer, or `none` and how many sectors `fs_probe`
  -- has marked after a write that failed, with the entry as it was before.
  write_placed :
      ℕ
      → List ℕ
      → Option (ℕ × Entry)
      → ℕ
      → Entry
      → Volume
      → d.State
      → Option Written × ℕ × Volume × d.State
  unfolding put_file blocks_of
  write_placed now bytes old i placed v s =
      let size = length bytes in
      let e = record placed { size = size; mtime = now } in
      let w = with_entry i e v in
      let p = put_file e.start bytes w s in
      let before : Volume = elim old [
        | none ↦ with_entry i (record e { used = 0 }) w
        | some (j, saved) ↦ with_entry i saved w
      ] in
      elim p.0 [
        | true ↦
            let c = d.commit (entry_sectors w.slots i) w p.1 in
            (some (if c.0.0 then stored else failed), 0, c.0.1, c.1)
        | false ↦
            let r = probe d e.start (sectors_for size) (some (blocks_of bytes)) before p.1 in
            (none, r.0, r.1, r.2)
      ]

  -- One pass, at the time `now`.
  write_pass : ℕ → Bool → List ℕ → List ℕ → Volume → d.State → Option Written × ℕ × Volume × d.State
  unfolding write_placed place_file
  write_pass now fresh name bytes v s =
      let old = find v.table name in
      if (elim old [ none ↦ false | some (i, e) ↦ is_dir e ])
      then (some is_directory, 0, v, s)
      else elim (place_file (sectors_for (length bytes)) fresh name v) [
        | none ↦ (some no_room, 0, v, s)
        | some (i, placed) ↦ write_placed now bytes old i placed v s
      ]

  -- The passes, with `left` more after this one.
  write_passes : ℕ → ℕ → Bool → List ℕ → List ℕ → Volume → d.State → Written × Volume × d.State
  unfolding write_pass
  write_passes zero now fresh name bytes v s =
      let r = write_pass now fresh name bytes v s in
      elim r.0 [ some answer ↦ (answer, r.2, r.3) | none ↦ (failed, r.2, r.3) ]
  write_passes (suc left) now fresh name bytes v s =
      let r = write_pass now fresh name bytes v s in
      elim r.0 [
        | some answer ↦ (answer, r.2, r.3)
        | none ↦ elim (r.1 == 0) [
          | true ↦ (failed, r.2, r.3)
          | false ↦ write_passes left now true name bytes r.2 r.3
        ]
      ]

  -- `fs_write_locked`: at most eight passes.
  pub write : ℕ → Bool → List ℕ → List ℕ → Volume → d.State → Written × Volume × d.State
  unfolding write_passes
  write now fresh name bytes v0 s0 =
      let m = d.ensure v0 s0 in
      let v = m.0.1 in
      if not (name_ok name)
      then (failed, v0, s0)
      else if not m.0.0 || leb v.name_cap (length name)
      then (failed, v, m.1)
      else if ltb ((volume_end - v.first) * 512) (length bytes)
      then (no_room, v, m.1)
      else write_passes 7 now fresh name bytes v m.1
