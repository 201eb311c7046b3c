-- ===== src/Fs/Check.antt =====
-- `fs_table_valid` of src/fscheck.inc, run on a table that a disk held.
pub mod Laws
mod Tests
use flopnix.Base.{
  ℕ, ◌+◌, ◌-◌, ◌*◌, Bool, true, false, ◌&&◌, ◌||◌, not, List, [], ◌∷◌, ltb, leb, ◌==◌,
  if◌then◌else◌, length,
}
use flopnix.Util.Strings.{same}
use flopnix.Fs.Entry.{Entry, name_len, is_dir, in_use}

-- The tests on one used entry: false is `return 0`.
entry_valid : Entry → ℕ → ℕ → Bool
entry_valid e first end =
    if not (e.used == 1) || ((length e.name == 0) || (length e.name == name_len))
    then false
    else if is_dir e
    then not (not (e.size == 0) || (not (e.start == 0) || not (e.nsect == 0)))
    else not (
        ltb e.start first
        || (leb end e.start
            || ((e.nsect == 0) || (ltb (end - e.start) e.nsect || ltb (e.nsect * 512) e.size))))

-- The sectors of two entries, none if an entry has no sectors.
unfoldable pub overlap : Entry → Entry → Bool
overlap e b =
    not (e.nsect == 0)
    && (not (b.nsect == 0) && (ltb e.start (b.start + b.nsect) && ltb b.start (e.start + e.nsect)))

-- The inner loop, over the entries before `e`.
pairs_valid : Entry → List Entry → Bool
pairs_valid e [] = true
pairs_valid e (b ∷ bs) =
    (not (in_use b) || not (same e.name b.name || overlap e b)) && pairs_valid e bs

-- The outer loop; `before` is the part of the table that is already checked, the last entry first.
valid_from : List Entry → List Entry → ℕ → ℕ → Bool
valid_from before [] first end = true
valid_from before (e ∷ es) first end =
    (not (in_use e) || (entry_valid e first end && pairs_valid e before))
    && valid_from (e ∷ before) es first end

pub table_valid : List Entry → ℕ → ℕ → Bool
unfolding entry_valid overlap pairs_valid valid_from
table_valid entries first end = valid_from [] entries first end
