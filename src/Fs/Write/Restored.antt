-- ===== src/Fs/Write/Restored.antt =====
-- What a failed pass of `fs_write_locked` leaves: a volume where every name is found as before.
use flopnix.Base.{
  ℕ, zero, suc, ◌<◌, ◌≡◌, ◌≢◌, refl, sym, ap, ◌∙◌, subst, Bool, false, Option, none, some, List, [],
  ◌∷◌, arith, get_elem?, Bool-cases, inl, inr, length, set,
}
use flopnix.Fs.Entry.{Entry, find, in_use}
use flopnix.Fs.Probe.Laws.{Listed}
use flopnix.Fs.Volume.{Volume, IsVolume, with_entry}
use flopnix.Fs.Volume.Laws.{with_entry-IsVolume}
use flopnix.Fs.Volume.Table.{All-at, Unnamed, not_found, other-find_from}
use flopnix.Fs.Write.Place.{IsPlace, Elsewhere}

pub get_elem?-at :
    {A : Type 0} (xs : List A) (i : ℕ) → i < length xs → (a : A) × (get_elem? xs i ≡ some a)
get_elem?-at [] i h = absurd (omega arith)
get_elem?-at (x ∷ xs) zero h = (x, refl)
get_elem?-at (x ∷ xs) (suc i) h = get_elem?-at xs i (omega arith)

set_twice : {A : Type 0} (xs : List A) (i : ℕ) (a b : A) → set (set xs i a) i b ≡ set xs i b
set_twice [] i a b = refl
set_twice (x ∷ xs) zero a b = refl
set_twice (x ∷ xs) (suc i) a b = ap (◌∷◌ x) (set_twice xs i a b)

set_back : {A : Type 0} (xs : List A) (i : ℕ) (a : A) → get_elem? xs i ≡ some a → set xs i a ≡ xs
set_back [] i a h = refl
set_back {A} (x ∷ xs) zero a h =
    ap (λ o. elim o as (λ r. List A) [ none ↦ a ∷ xs | some y ↦ y ∷ xs ]) (sym h)
set_back (x ∷ xs) (suc i) a h = ap (◌∷◌ x) (set_back xs i a h)

get_elem?-set_other :
    {A : Type 0} (xs : List A) (i k : ℕ) (a : A) → k ≢ i → get_elem? (set xs i a) k ≡ get_elem? xs k
get_elem?-set_other [] i k a ne = refl
get_elem?-set_other (x ∷ xs) zero zero a ne = absurd (ne refl)
get_elem?-set_other (x ∷ xs) zero (suc k) a ne = refl
get_elem?-set_other (x ∷ xs) (suc i) zero a ne = refl
get_elem?-set_other (x ∷ xs) (suc i) (suc k) a ne =
    get_elem?-set_other xs i k a (λ p. ne (ap suc p))

-- A valid volume that finds every name as before, and has the sectors of the other files.
abbrev pub Restored : List ℕ → Volume → Volume → Type 0
Restored name v u =
    IsVolume u
    × (u.first ≡ v.first)
    × ((n : List ℕ) → find u.table n ≡ find v.table n)
    × ((j : ℕ) → Elsewhere v name j → Elsewhere u name j)

pub Restored-refl : (name : List ℕ) (v : Volume) → IsVolume v → Restored name v v
Restored-refl name v w = (w, refl, (λ n. refl), (λ j h. h))

pub Restored-Listed :
    (name : List ℕ) (v u x : Volume) → Restored name v u → Listed u x → Restored name v x
Restored-Listed name v u x r (w, (bad, e)) = (
  w,
  ap (λ y. y.first) e ∙ r.1,
  (λ n. ap (λ y. find y.table n) e ∙ r.2 n),
  (λ j h. subst (λ y. Elsewhere y name j) (sym e) (r.3 j h)),
)

-- A slot that held no entry in use, with an entry that is not in use.
unused-Restored :
    (name : List ℕ) (v : Volume) (i : ℕ) (old gone : Entry)
    → IsVolume v
    → get_elem? v.table i ≡ some old
    → in_use old ≡ false
    → in_use gone ≡ false
    → Restored name v (with_entry i gone v)
unused-Restored name v i old gone w at free dead = (
  with_entry-IsVolume i gone v w (λ u. absurd cc),
  refl,
  (λ n. other-find_from 0 i v.table old gone n at (λ u. absurd cc) (λ u. absurd cc)),
  (λ j h.
      let other : h.0 ≢ i = λ p.
        let same = sym (subst (λ k. get_elem? v.table k ≡ some h.1) p h.2) ∙ at in
        let one = ap (λ o. elim o as (λ r. Bool) [ none ↦ false | some b ↦ in_use b ]) same in
        let u = h.3 in absurd cc in
      (h.0, h.1, get_elem?-set_other v.table i h.0 gone other ∙ h.2, h.3, h.4, h.5, h.6)),
)

-- The end of a failed pass: the old entry put back, or the new one marked unused.
pub undone :
    (name : List ℕ) (v : Volume) (nsect i : ℕ) (e : Entry) (written : Entry)
    → IsVolume v
    → IsPlace v name nsect i e
    → (old : Option (ℕ × Entry)) → find v.table name ≡ old
    → Restored name v (elim old [
      | none ↦ with_entry i (record written { used = 0 }) (with_entry i written v)
      | some (j, saved) ↦ with_entry i saved (with_entry i written v)
    ])
undone name v nsect i e written w p none miss =
    let at = get_elem?-at v.table i p.index_lt in
    let free : in_use at.0 ≡ false = elim (Bool-cases (in_use at.0)) [
      | inl used ↦ absurd (
          All-at (Unnamed name) i v.table (not_found v.table name miss) at.1 used
            (p.held at.0 at.1 used))
      | inr unused ↦ unused
    ] in
    let same : with_entry i (record written { used = 0 }) (with_entry i written v)
        ≡ with_entry i (record written { used = 0 }) v =
      ap (λ t. record v { table = t })
        (set_twice v.table i written (record written { used = 0 })) in
    subst (Restored name v) (sym same)
      (unused-Restored name v i at.0 (record written { used = 0 }) w at.1 free refl)
undone name v nsect i e written w p (some (j, saved)) hit =
    let same : with_entry i saved (with_entry i written v) ≡ v =
      ap (λ t. record v { table = t })
        (set_twice v.table i written saved ∙ set_back v.table i saved (p.kept j saved hit)) in
    subst (Restored name v) (sym same) (Restored-refl name v w)
