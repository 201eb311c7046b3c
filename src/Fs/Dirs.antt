-- ===== src/Fs/Dirs.antt =====
-- `fs_rename_dir_locked` of src/fs.c: a directory and all that is under it get other names, in one
-- commit of the table.
mod Names
mod Scan
mod Laws
mod Tests
use flopnix.Base.{
  ℕ, ◌+◌, ◌-◌, Bool, true, false, ◌&&◌, ◌||◌, not, ◌⊎◌, inl, inr, Option, none, some, List, [], ◌∷◌,
  map, leb, ◌==◌, if◌then◌else◌, length, take, is_some,
}
use flopnix.Util.Strings.{same}
use flopnix.Fs.Entry.{Entry, find, find_from, in_use, is_dir, name_len}
use flopnix.Fs.Path.{under, rejoin, dirname_ok}
use flopnix.Fs.Volume.{Volume, Sectors, Status, done, refused, minus_two, mark_entry, Medium}

-- An entry in use is under the directory.
unfoldable pub any_under : List ℕ → List Entry → Bool
any_under dir [] = false
any_under dir (e ∷ es) = (in_use e && under e.name dir) || any_under dir es

-- The first loop, over the entries left: the number of entries to rename, or the answer that ends
-- it. `room` is `fs_namelen`.
unfoldable pub scan_names :
    (room : ℕ) (olddir newdir : List ℕ) (table : List Entry) (hits : ℕ) → List Entry → Status ⊎ ℕ
scan_names room olddir newdir table hits [] = inr hits
scan_names room olddir newdir table hits (e ∷ es) =
    elim (in_use e && (same e.name olddir || under e.name olddir)) [
      | false ↦ scan_names room olddir newdir table hits es
      | true ↦ elim (same e.name olddir) [
        | true ↦ scan_names room olddir newdir table (hits + 1) es
        | false ↦ elim (rejoin e.name olddir newdir room) [
          | none ↦ inl minus_two
          | some nn ↦ elim (is_some (find table nn)) [
            | true ↦ inl refused
            | false ↦ scan_names room olddir newdir table (hits + 1) es
          ]
        ]
      ]
    ]

-- The name that the second loop gives a used entry, itself if it is left alone.
unfoldable pub new_name : List ℕ → List ℕ → List ℕ → List ℕ
new_name olddir newdir name =
    if same name olddir
    then take (name_len - 1) newdir
    else if under name olddir
    then elim (rejoin name olddir newdir name_len) [
      | none ↦ name
      | some nn ↦ take (name_len - 1) nn
    ]
    else name

abbrev pub rename_entry : List ℕ → List ℕ → Entry → Entry
rename_entry olddir newdir e =
    if in_use e then record e { name = new_name olddir newdir e.name } else e

-- The sectors of the table that the second loop marks, from entry `i` on.
unfoldable pub renamed_sectors : List ℕ → List ℕ → ℕ → ℕ → Sectors → List Entry → Sectors
renamed_sectors olddir newdir slots i marked [] = marked
renamed_sectors olddir newdir slots i marked (e ∷ es) =
    renamed_sectors olddir newdir slots (i + 1)
      (if in_use e && (same e.name olddir || is_some (rejoin e.name olddir newdir name_len))
        then mark_entry slots i marked
        else marked)
      es

module _ (m : Medium) where
  -- The second loop and the commit.
  abbrev pub rename_all : List ℕ → List ℕ → Volume → Status × Volume
  rename_all olddir newdir v =
      let w = record v { table = map (rename_entry olddir newdir) v.table } in
      let r = m.commit (renamed_sectors olddir newdir v.slots 0 (λ j. false) v.table) w in
      ((if r.0 then done else refused), r.1)

  -- What follows the first loop, on its result.
  unfoldable pub after_scan : List ℕ → List ℕ → Volume → Status ⊎ ℕ → Status × Volume
  after_scan olddir newdir v (inl status) = (status, v)
  after_scan olddir newdir v (inr hits) =
      if hits == 0 then (refused, v) else rename_all olddir newdir v

  unfoldable pub rename_dir : List ℕ → List ℕ → Volume → Status × Volume
  unfolding scan_names new_name renamed_sectors any_under after_scan
  rename_dir olddir newdir v0 =
      let v = (m.ensure v0).1 in
      if not (dirname_ok newdir) || under newdir olddir
      then (refused, v0)
      else if not (m.ensure v0).0 || leb v.name_cap (length newdir + 2)
      then (refused, v)
      else if same olddir newdir
      then (done, v)
      else if is_some (find v.table newdir) || any_under newdir v.table
      then (refused, v)
      else after_scan olddir newdir v (scan_names v.name_cap olddir newdir v.table 0 v.table)
