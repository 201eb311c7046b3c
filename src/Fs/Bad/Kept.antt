-- ===== src/Fs/Bad/Kept.antt =====
-- Adding to and deleting from a valid list of bad sectors gives a valid one, and each undoes the
-- other.
use flopnix.Base.{
  ℕ, ◌+◌, ◌%◌, ◌^◌, ◌≤◌, ◌<◌, ◌≡◌, refl, inl, inr, ap, ◌∙◌, true, false, List, [], ◌∷◌, arith, ltb,
  leb, ◌==◌, if◌then◌else◌, length, All, Bool-cases,
}
use flopnix.Base.Sorted.{Above, Above-IsIncreasing}
use flopnix.Fs.Bad.{max_bad, position, insert_at, added, add, del}
use flopnix.Fs.Bad.Laws.{has, Above-has, Adds, add-Adds, del_lem, hit_at, hit_at-has, placed}
use flopnix.Fs.Bad.Stored.{InArea, IsBadList}

-- A list of sectors of a data area that does not begin at sector 0 is above 0.
pub IsBadList-Above :
    (first end : ℕ) (list : List ℕ) → 0 < first → IsBadList first end list → Above 0 list
IsBadList-Above first end [] h v = tt
IsBadList-Above first end (b ∷ bs) h v = (omega (arith, v.1.0.0), v.0)

All-placed :
    (first end : ℕ) (list : List ℕ) (lba : ℕ)
    → All (InArea first end) list
    → InArea first end (lba % 2 ^ 16)
    → All (InArea first end) (placed list lba)
unfolding position insert_at
All-placed first end [] lba a i = (i, tt)
All-placed first end (b ∷ bs) lba a i = elim (Bool-cases (ltb b lba)) [
  | inl less ↦ rw less (a.0, All-placed first end bs lba a.1 i)
  | inr stop ↦ rw stop (i, a)
]

All-del :
    (first end : ℕ) (list : List ℕ) (lba : ℕ)
    → All (InArea first end) list
    → All (InArea first end) (del list lba).1
unfolding del
All-del first end [] lba a = tt
All-del first end (b ∷ bs) lba a = elim (Bool-cases (b == lba)) [
  | inl hit ↦ rw hit a.1
  | inr miss ↦ rw miss (a.0, All-del first end bs lba a.1)
]

pub length-del :
    (list : List ℕ) (lba : ℕ)
    → length list ≡ (if has list lba then 1 else 0) + length (del list lba).1
unfolding del has
length-del [] lba = refl
length-del (b ∷ bs) lba = elim (Bool-cases (b == lba)) [
  | inl hit ↦ rw hit (omega arith)
  | inr miss ↦ rw miss (omega (arith, length-del bs lba))
]

pub del-absent : (list : List ℕ) (lba : ℕ) → has list lba ≡ false → (del list lba).1 ≡ list
unfolding del has
del-absent [] lba h = refl
del-absent (b ∷ bs) lba h = elim (Bool-cases (b == lba)) [
  | inl hit ↦ absurd (ground arith)
  | inr miss ↦ rw miss (ap (◌∷◌ b) (del-absent bs lba (rw miss at h)))
]

pub add-IsBadList :
    (first end : ℕ) (list : List ℕ) (lba : ℕ)
    → 0 < first
    → end ≤ 2 ^ 16
    → IsBadList first end list
    → InArea first end lba
    → (add list lba).0 ≡ added
    → IsBadList first end (add list lba).1
unfolding add
add-IsBadList first end list lba pos small v i e =
    let a =
      add-Adds 0 list lba (IsBadList-Above first end list pos v) (omega arith) (omega arith) in
    elim (Bool-cases (hit_at list lba)) [
      | inl hit ↦ absurd (ground arith)
      | inr miss ↦ elim (Bool-cases (leb max_bad (length list))) [
        | inl full ↦ absurd (ground arith)
        | inr room ↦
            let a' : Adds list lba (added, placed list lba) = rw (miss, room) at a in
            rw (miss, room)
              (
                a'.2,
                All-placed first end list lba v.1 (omega arith, omega arith),
                omega (arith, a'.3),
              )
      ]
    ]

pub del-IsBadList :
    (first end : ℕ) (list : List ℕ) (lba : ℕ)
    → 0 < first
    → IsBadList first end list
    → IsBadList first end (del list lba).1
del-IsBadList first end list lba pos v = (
  Above-IsIncreasing 0 (del list lba).1
      (del_lem 0 list lba (IsBadList-Above first end list pos v)).1,
  All-del first end list lba v.1,
  omega (arith, length-del list lba, v.2),
)

placed-del :
    (lo : ℕ) (list : List ℕ) (lba : ℕ)
    → Above lo list
    → lba < 2 ^ 16
    → has list lba ≡ true
    → placed (del list lba).1 lba ≡ list
unfolding del has position insert_at
placed-del lo [] lba s w h = absurd cc
placed-del lo (b ∷ []) lba s w h = ground arith
placed-del lo (b ∷ c ∷ bs) lba s w h = elim (Bool-cases (b == lba)) [
  | inl hit ↦ ground arith
  | inr miss ↦
      let less : ltb b lba ≡ true = ground (arith, Above-has b (c ∷ bs) lba s.1) in
      rw (miss, less) (ap (◌∷◌ b) (placed-del b (c ∷ bs) lba s.1 w (rw miss at h)))
]

-- Taking a listed sector out and putting it back, as `fs_bad` does when the superblock cannot be
-- written, gives back the list.
pub add-del :
    (lo : ℕ) (list : List ℕ) (lba : ℕ)
    → Above lo list
    → lba < 2 ^ 16
    → length list ≤ max_bad
    → has list lba ≡ true
    → add (del list lba).1 lba ≡ (added, list)
unfolding add
add-del lo list lba s w len h =
    let d = del_lem lo list lba s in
    let shorter : leb max_bad (length (del list lba).1) ≡ false =
      ground (arith, length-del list lba) in
    let gone : hit_at (del list lba).1 lba ≡ false =
      hit_at-has lo (del list lba).1 lba d.1 ∙ (d.2 lba ∙ ground arith) in
    rw (gone, shorter) (ap (λ l. (added, l)) (placed-del lo list lba s w h))
