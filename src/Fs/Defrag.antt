-- ===== src/Fs/Defrag.antt =====
-- `fs_defrag_locked` of src/fs.c: the files are moved to the places of the plan, one after the other,
-- and the table is written after each. The floppy is a `Device`; `flush` is `flush_table`, which
-- writes the marked sectors of the table, and the progress callback has no part in it.
mod Laws
mod Whole
mod Files
mod Tests
use flopnix.Base.{
  ℕ, zero, suc, ◌+◌, ◌%◌, ◌^◌, Bool, true, false, ◌&&◌, ◌||◌, not, Option, none, some, List, [],
  ◌∷◌, ltb, ◌==◌, if◌then◌else◌,
}
use flopnix.Fs.Entry.{Entry, in_use}
use flopnix.Fs.Volume.{Volume, Sectors, entry_sectors}
use flopnix.Fs.Device.{Device}
use flopnix.Fs.Move.{Outcome, moved, intact, restored, torn, move}
use flopnix.Fs.Plan.{PlanEntry, plan}

-- The first loop, from entry `i` on.
unfoldable pub plan_entries : ℕ → List Entry → List PlanEntry
plan_entries i [] = []
plan_entries i (e ∷ es) =
    record {
      start = e.start;
      sects = e.nsect;
      nstart = 0;
      used = in_use e && not (e.nsect == 0);
      idx = i % 2 ^ 16;
    }
    ∷ plan_entries (i + 1) es

-- `table[i].start = at`.
unfoldable pub set_start : List Entry → ℕ → ℕ → List Entry
set_start [] i at = []
set_start (e ∷ es) zero at = record e { start = at } ∷ es
set_start (e ∷ es) (suc i) at = e ∷ set_start es i at

-- How the second loop ends: -1 for a plan below the data area, or what the caller gets for a file.
pub data Ended : Type 0 where
  all_moved refused_plan : Ended
  ended_with : Outcome → Ended

-- `r != FSD_MOVED` does not hold.
unfoldable pub is_moved : Outcome → Bool
is_moved moved = true
is_moved intact = false
is_moved restored = false
is_moved torn = false

module _ (dev : Device) (flush : Sectors → List Entry → dev.State → Bool × dev.State) where
  open dev use {State}

  -- At most that many calls of `flush_table`, up to one that succeeds.
  unfoldable pub flush_tries : ℕ → Sectors → List Entry → State → Bool × State
  flush_tries zero marked table st = (false, st)
  flush_tries (suc n) marked table st =
      let r = flush marked table st in
      elim r.0 [ true ↦ (true, r.1) | false ↦ flush_tries n marked table r.1 ]

  -- The second loop; `first` is FS_DATA and `slots` FS_NFILES.
  unfoldable pub move_files :
      (first slots : ℕ) → List PlanEntry → List Entry → State → Ended × List Entry × State
  unfolding set_start flush_tries is_moved
  move_files first slots [] table st = (all_moved, table, st)
  move_files first slots (e ∷ es) table st = elim (e.nstart == e.start) [
    | true ↦ move_files first slots es table st
    | false ↦ elim (ltb e.nstart first || ltb e.start first) [
      | true ↦ (refused_plan, table, st)
      | false ↦
          let r = move dev e.start e.nstart e.sects st in
          elim (is_moved r.0) [
            | false ↦ (ended_with r.0, table, r.1)
            | true ↦
                let t = set_start table e.idx e.nstart in
                let f = flush_tries 3 (entry_sectors slots e.idx) t r.1 in
                elim f.0 [
                  | true ↦ move_files first slots es t f.1
                  | false ↦ (ended_with torn, t, f.1)
                ]
          ]
    ]
  ]

  -- `fs_defrag_locked` on a mounted volume, with the number of moves that were planned.
  unfoldable pub defrag : Volume → State → ℕ × Ended × List Entry × State
  unfolding plan_entries move_files
  defrag v st =
      let p = plan (plan_entries 0 v.table) v.first v.bad in
      if p.1 == 0
      then (0, all_moved, v.table, st)
      else (let r = move_files v.first v.slots p.0 v.table st in (p.1, r.0, r.1, r.2))
