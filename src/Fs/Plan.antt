-- ===== src/Fs/Plan.antt =====
-- `fs_plan` of src/fsplan.inc: where defragmentation puts each file. The array is the list of its
-- entries; the prefix that the first loop has sorted is kept from its end on, as the loop walks it.
pub mod Laws
pub mod Order
pub mod Chain
mod Tests
use flopnix.Base.{
  ℕ, zero, suc, ◌+◌, ◌-◌, ◌%◌, ◌^◌, Bool, true, false, ◌||◌, not, Option, none, some, List, [], ◌∷◌,
  ltb, ◌==◌, if◌then◌else◌, is_some,
}
use flopnix.Fs.Bad.{clash}

-- FpEnt.
pub record PlanEntry : Type 0 where
  pub start : ℕ
  pub sects : ℕ
  pub nstart : ℕ
  pub used : Bool
  pub idx : ℕ

-- The inner loop: `e[j].start > t.start` moves entry `j` up.
pub insert_down : PlanEntry → List PlanEntry → List PlanEntry
insert_down t [] = t ∷ []
insert_down t (e ∷ es) = if ltb t.start e.start then e ∷ insert_down t es else t ∷ e ∷ es

-- The first loop: the used entries by their start, the last one first.
pub gather : List PlanEntry → List PlanEntry → List PlanEntry
gather [] sorted = sorted
gather (t ∷ es) sorted = gather es (if t.used then insert_down t sorted else sorted)

-- `while (at < e[i].start && clash) at = b + 1`; the place grows, so `start - at` rounds do.
slide : List ℕ → ℕ → ℕ → ℕ → ℕ → ℕ
slide bad start sects zero at = at
slide bad start sects (suc fuel) at =
    if ltb at start
    then elim (clash bad at sects) [ none ↦ at | some b ↦ slide bad start sects fuel (b + 1) ]
    else at

-- One round of the second loop: the new start of an entry, from the first free sector on.
pub choose : List ℕ → ℕ → PlanEntry → ℕ
unfolding slide
choose bad next e =
    let at = slide bad e.start e.sects (e.start - next) next in
    if ltb e.start at || is_some (clash bad e.start e.sects) then e.start else at

-- The second loop, over the sorted entries in ascending order.
pub place : List ℕ → ℕ → List PlanEntry → List PlanEntry
place bad next [] = []
place bad next (e ∷ es) =
    let at = choose bad next e in record e { nstart = at % 2 ^ 16 } ∷ place bad (at + e.sects) es

pub reverse_onto : List PlanEntry → List PlanEntry → List PlanEntry
reverse_onto [] acc = acc
reverse_onto (e ∷ es) acc = reverse_onto es (e ∷ acc)

-- `moves`.
moves : List PlanEntry → ℕ
moves [] = 0
moves (e ∷ es) = (if e.nstart == e.start then 0 else 1) + moves es

-- `fs_plan`: the planned entries in the order of their places, and how many move. Entries past
-- them are marked unused, which a list shows by its length.
unfoldable pub plan : List PlanEntry → ℕ → List ℕ → List PlanEntry × ℕ
unfolding gather insert_down place choose reverse_onto moves
plan entries data0 bad =
    let placed = place bad data0 (reverse_onto (gather entries []) []) in (placed, moves placed)
