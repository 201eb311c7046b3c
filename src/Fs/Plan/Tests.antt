-- ===== src/Fs/Plan/Tests.antt =====
-- `fs_plan` on three files, and its theorem there.
use mathlib.Core.List.{Perm}
use flopnix.Base.{ℕ, ◌≡◌, refl, inl, inr, true, false, List, [], ◌∷◌, arith, map}
use flopnix.Fs.Bad.{clash}
use flopnix.Fs.Plan.{PlanEntry, plan}
use flopnix.Fs.Plan.Laws.{Safe, source}
use flopnix.Fs.Plan.Order.{used_entries, plan_lem}

abbrev entry : ℕ → ℕ → PlanEntry
entry start sects = record { start = start; sects = sects; nstart = 0; used = true; idx = start }

abbrev files : List PlanEntry
files = entry 320 4 ∷ record (entry 0 0) { used = false } ∷ entry 305 2 ∷ entry 340 3 ∷ []

-- Sector 303 is bad, so the second file starts behind it.
abbrev bad : List ℕ
bad = 303 ∷ []

plan_run : map (λ e. e.nstart) (plan files 299 bad).0 ≡ 299 ∷ 304 ∷ 308 ∷ []
unfolding plan clash
plan_run = refl

plan_lem_example :
    Safe bad 299 (plan files 299 bad).0
    × Perm (map source (plan files 299 bad).0) (map source (used_entries files))
plan_lem_example =
    plan_lem files 299 2880 bad
      (
        (λ u. (
          omega arith,
          ((λ v. ground arith), ((λ v. inl (omega arith)), ((λ v. inr (omega arith)), tt))),
        )),
        (
          (λ u. ground arith),
          ((λ u. (omega arith, ((λ v. inr (omega arith)), tt))), ((λ u. (omega arith, tt)), tt)),
        ),
      )
      (omega arith) (omega arith) (omega arith)
