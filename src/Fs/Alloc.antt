-- ===== src/Fs/Alloc.antt =====
-- `alloc` of src/fs.c: the first free run of sectors. Each round moves the start up, so as many
-- rounds as the volume has sectors are enough.
pub mod Laws
mod Tests
use flopnix.Base.{
  ℕ, zero, suc, ◌+◌, ◌-◌, Bool, true, false, ◌&&◌, Option, none, some, List, [], ◌∷◌, ltb, leb,
  ◌==◌, if◌then◌else◌,
}
use flopnix.Fs.Bad.{clash}
use flopnix.Fs.Entry.{Entry, in_use}

-- The inner loop: the end of the first used entry that shares a sector with `n` from `start`.
meets : List Entry → ℕ → ℕ → Option ℕ
meets [] start n = none
meets (e ∷ es) start n =
    if in_use e && (ltb start (e.start + e.nsect) && ltb e.start (start + n))
    then some (e.start + e.nsect)
    else meets es start n

-- Where the next round starts; `none` if this one has found its run.
next_start : List Entry → List ℕ → ℕ → ℕ → Option ℕ
unfolding meets
next_start entries bad n start = elim (meets entries start n) [
  | some to ↦ some to
  | none ↦ elim (clash bad start n) [ none ↦ none | some b ↦ some (b + 1) ]
]

-- The outer loop; `none` is -1.
alloc_from : List Entry → List ℕ → ℕ → ℕ → ℕ → ℕ → Option ℕ
unfolding next_start
alloc_from entries bad end n zero start = none
alloc_from entries bad end n (suc fuel) start =
    if leb (start + n) end
    then elim (next_start entries bad n start) [
      | none ↦ some start
      | some to ↦ alloc_from entries bad end n fuel to
    ]
    else none

unfoldable pub alloc : List Entry → List ℕ → ℕ → ℕ → ℕ → Option ℕ
unfolding alloc_from
alloc entries bad first end n = alloc_from entries bad end n (suc end - first) first
