-- ===== src/Fs/Volume.antt =====
-- The operations of src/fs.c on the mounted table. What mounting reads and what a commit writes is
-- an interface, `Medium`: `fs_ensure`, `commit_table` with the reload after a failed write, and
-- `bad_flush`. Each operation runs under `fs_mutex`; hooks of extensions pass. The parts of an
-- answer: 0, -1, and -2, which is FS_EIO, or no room.
pub mod Table
pub mod Laws
mod Tests
use flopnix.Base.{
  ℕ, zero, suc, ◌+◌, ◌-◌, ◌*◌, ◌/◌, ◌≡◌, ◌≤◌, ◌<◌, Bool, true, false, ◌&&◌, ◌||◌, not, Option, none,
  some, List, [], ◌∷◌, ltb, leb, ◌==◌, if◌then◌else◌, length, take, set, is_some, get_elem?,
}
use flopnix.Util.Strings.{same}
use flopnix.Fs.Bad.{clash, add, del, Added}
use flopnix.Fs.Bad.Stored.{IsBadList}
use flopnix.Fs.Check.Laws.{IsTable}
use flopnix.Fs.Entry.{Entry, find, in_use, is_dir, attr_dir, name_len, volume_end}
use flopnix.Fs.Path.{under, rejoin, name_ok, dirname_ok}

-- `table`, `bad`, `fs_slots`, `fs_namelen` and `fs_data`.
pub record Volume : Type 0 where
  pub table : List Entry
  pub bad : List ℕ
  pub slots : ℕ
  pub name_cap : ℕ
  pub first : ℕ

-- A volume as `fs_ensure` leaves it, mounted or refused.
pub record IsVolume (v : Volume) : Type 0 where
  pub valid : IsTable v.first volume_end v.table
  pub bad_valid : IsBadList v.first volume_end v.bad
  pub slots_le : v.slots ≤ length v.table
  pub name_le : v.name_cap ≤ name_len
  pub first_pos : 0 < v.first

pub data Status : Type 0 where
  done refused minus_two : Status

-- FsSectors: the marked sectors of the table.
abbrev pub Sectors : Type 0
Sectors = ℕ → Bool

-- `mark_entry`, on the entry with that index.
pub mark_entry : ℕ → ℕ → Sectors → Sectors
mark_entry slots i marked j =
    let size = if slots == 128 then 40 else 80 in
    (j == i * size / 512) || ((j == (i * size + size - 1) / 512) || marked j)

-- `entry_sectors`.
pub entry_sectors : ℕ → ℕ → Sectors
unfolding mark_entry
entry_sectors slots i = mark_entry slots i (λ j. false)

pub record Medium : Type 0 where
  -- `fs_ensure`.
  pub ensure : Volume → Bool × Volume
  -- `commit_table`: the answer of `flush_table`, and the table after a reload if that is 0.
  pub commit : Sectors → Volume → Bool × Volume
  -- `bad_flush`.
  pub flush_bad : Volume → Bool

-- What the operations need of it: mounting and committing leave volumes, and a commit that
-- succeeds leaves the table as it is.
pub record IsMedium (m : Medium) : Type 0 where
  pub ensured : (v : Volume) → IsVolume v → IsVolume (m.ensure v).1
  pub committed : (s : Sectors) (v : Volume) → IsVolume v → IsVolume (m.commit s v).1
  pub kept : (s : Sectors) (v : Volume) → (m.commit s v).0 ≡ true → (m.commit s v).1 ≡ v

-- `for (i = 0; i < fs_slots && table[i].used; i++)`, from entry `i` on, with `left` to go.
unfoldable pub slot_from : ℕ → ℕ → List Entry → Option ℕ
slot_from i zero es = none
slot_from i (suc left) [] = none
slot_from i (suc left) (e ∷ es) = if in_use e then slot_from (i + 1) left es else some i

-- The table with another entry.
abbrev pub with_entry : ℕ → Entry → Volume → Volume
with_entry i e v = record v { table = set v.table i e }

-- The sum of `nsect` over the used entries.
unfoldable pub sectors_used : List Entry → ℕ
sectors_used [] = 0
sectors_used (e ∷ es) = (if in_use e then e.nsect else 0) + sectors_used es

unfoldable pub count_under : List ℕ → List Entry → ℕ
count_under dir [] = 0
count_under dir (e ∷ es) = (if in_use e && under e.name dir then 1 else 0) + count_under dir es

module _ (m : Medium) where
  -- `return commit_table(entry_sectors(e)) ? 0 : otherwise`.
  pub finish : ℕ → Status → Volume → Status × Volume
  unfolding entry_sectors
  finish i otherwise v =
      let r = m.commit (entry_sectors v.slots i) v in ((if r.0 then done else otherwise), r.1)

  -- `fs_delete_locked`.
  pub delete : List ℕ → Volume → Status × Volume
  unfolding finish
  delete name v0 =
      let v = (m.ensure v0).1 in
      if not (m.ensure v0).0 then (minus_two, v) else elim (find v.table name) [
        | none ↦ (refused, v)
        | some (i, e) ↦ finish i minus_two (with_entry i (record e { used = 0 }) v)
      ]

  -- `fs_touch_locked`, at the time `now`.
  pub touch : ℕ → List ℕ → Volume → Status × Volume
  unfolding finish
  touch now name v0 =
      let v = (m.ensure v0).1 in
      if not (m.ensure v0).0 then (minus_two, v) else elim (find v.table name) [
        | none ↦ (refused, v)
        | some (i, e) ↦ finish i minus_two (with_entry i (record e { mtime = now }) v)
      ]

  -- `fs_rename_locked`.
  pub rename : List ℕ → List ℕ → Volume → Status × Volume
  unfolding finish
  rename oldname newname v0 =
      let v = (m.ensure v0).1 in
      if not (name_ok newname)
      then (refused, v0)
      else if not (m.ensure v0).0
      then (refused, v)
      else elim (find v.table oldname) [
        | none ↦ (refused, v)
        | some (i, e) ↦
            if same oldname newname
            then (done, v)
            else if is_some (find v.table newname) || leb v.name_cap (length newname)
            then (refused, v)
            else finish i refused (with_entry i (record e { name = take (name_len - 1) newname }) v)
      ]

  -- `fs_mkdir_locked`, at the time `now`.
  pub mkdir : ℕ → List ℕ → Volume → Status × Volume
  unfolding finish
  mkdir now name v0 =
      let v = (m.ensure v0).1 in
      if not (dirname_ok name)
      then (refused, v0)
      else if not (m.ensure v0).0
      then (refused, v)
      else if leb v.name_cap (length name + 2) || is_some (find v.table name)
      then (refused, v)
      else elim (slot_from 0 v.slots v.table) [
        | none ↦ (minus_two, v)
        | some i ↦ finish i refused (
            with_entry i
              (record {
                name = take (name_len - 1) name;
                size = 0;
                mtime = now;
                start = 0;
                nsect = 0;
                used = 1;
                attr = attr_dir;
              })
              v)
      ]

  -- `fs_dir_count`.
  pub dir_count : List ℕ → Volume → ℕ × Volume
  dir_count dir v0 =
      let v = (m.ensure v0).1 in ((if (m.ensure v0).0 then count_under dir v.table else 0), v)

  -- `fs_free_kb`.
  pub free_kb : Volume → ℕ × Volume
  free_kb v0 =
      let v = (m.ensure v0).1 in
      let total = volume_end - v.first in
      let used = length v.bad + sectors_used v.table in
      ((if (m.ensure v0).0 then (total - (if ltb used total then used else total)) / 2 else 0), v)
