-- ===== src/Fs/Bad/Laws.antt =====
-- The bad-sector list stays strictly increasing, and means a set of sectors.
use flopnix.Base.{
  not, ◌&&◌, sym, ◌∙◌, leb→le, not_leb→lt, ℕ, zero, suc, ◌+◌, ◌-◌, ◌%◌, ◌^◌, ◌≤◌, ◌<◌, ◌≡◌, refl,
  inl, inr, Bool, true, false, ◌||◌, Option, none, some, List, [], ◌∷◌, arith, ltb, leb, ◌==◌,
  length, get_elem?, Bool-cases,
}
use flopnix.Base.Sorted.{Above, IsIncreasing, Above-mono, Above-IsIncreasing}
use flopnix.Fs.Bad.{
  max_bad, clash, position, insert_at, listed_at, Added, listed, full, added, add, del,
}

-- The sector is in the list.
unfoldable pub has : List ℕ → ℕ → Bool
has [] x = false
has (b ∷ bs) x = (b == x) || has bs x

abbrev pub hit_at : List ℕ → ℕ → Bool
hit_at list lba = listed_at (get_elem? list (position list lba)) lba

abbrev pub placed : List ℕ → ℕ → List ℕ
placed list lba = insert_at list (position list lba) (lba % 2 ^ 16)

pub Above-has : (lo : ℕ) (bs : List ℕ) (x : ℕ) → Above lo bs → x ≤ lo → has bs x ≡ false
unfolding has
Above-has lo [] x s h = refl
Above-has lo (b ∷ bs) x s h = ground (arith, Above-has b bs x)

pub hit_at-has : (lo : ℕ) (list : List ℕ) (lba : ℕ) → Above lo list → hit_at list lba ≡ has list lba
unfolding position listed_at has
hit_at-has lo [] lba s = refl
hit_at-has lo (b ∷ bs) lba s = ground (arith, hit_at-has b bs lba, Above-has b bs lba)

placed-Above :
    (lo : ℕ) (list : List ℕ) (lba : ℕ)
    → Above lo list
    → lba < 2 ^ 16
    → lo < lba
    → has list lba ≡ false
    → Above lo (placed list lba)
unfolding position insert_at has
placed-Above lo [] lba s w h m = (omega arith, tt)
placed-Above lo (b ∷ bs) lba s w h m = ground (arith, placed-Above b bs lba)

placed-has :
    (list : List ℕ) (lba x : ℕ)
    → lba < 2 ^ 16
    → has (placed list lba) x ≡ ((lba == x) || has list x)
unfolding position insert_at has
placed-has [] lba x w = ground arith
placed-has (b ∷ bs) lba x w = ground (arith, placed-has bs lba x)

length-insert_at : (list : List ℕ) (i v : ℕ) → length (insert_at list i v) ≡ suc (length list)
unfolding insert_at
length-insert_at list zero v = refl
length-insert_at [] (suc i) v = refl
length-insert_at (b ∷ bs) (suc i) v = omega (arith, length-insert_at bs i v)

-- What `add` does to a strictly increasing list, for each code that it returns.
abbrev pub Adds : List ℕ → ℕ → Added × List ℕ → Type 0
Adds list lba (listed, out) = (has list lba ≡ true) × (out ≡ list)
Adds list lba (full, out) = (has list lba ≡ false) × (max_bad ≤ length list) × (out ≡ list)
Adds list lba (added, out) =
    (has list lba ≡ false)
    × (length list < max_bad)
    × IsIncreasing out
    × (length out ≡ suc (length list))
    × ((x : ℕ) → has out x ≡ ((lba == x) || has list x))

-- In a strictly increasing list of sectors above `lo`, `fb_add` answers 0 exactly for a sector
-- that is listed and -1 exactly for a new one that finds the list full, and then leaves the list
-- alone; else it answers 1, and the new list is strictly increasing, one longer, and holds the
-- sector besides those that were there.
pub add-Adds :
    (lo : ℕ) (list : List ℕ) (lba : ℕ)
    → Above lo list
    → lo < lba
    → lba < 2 ^ 16
    → Adds list lba (add list lba)
unfolding add
add-Adds lo list lba s h w = elim (Bool-cases (hit_at list lba)) [
  | inl e ↦ rw e (sym (hit_at-has lo list lba s) ∙ e, refl)
  | inr e ↦
      let new : has list lba ≡ false = sym (hit_at-has lo list lba s) ∙ e in
      elim (Bool-cases (leb max_bad (length list))) [
        | inl f ↦ rw (e, f) (new, leb→le _ _ f, refl)
        | inr f ↦
            rw (e, f)
              (
                new,
                not_leb→lt _ _ f,
                Above-IsIncreasing lo _ (placed-Above lo list lba s w h new),
                length-insert_at list (position list lba) (lba % 2 ^ 16),
                λ x. placed-has list lba x w,
              )
      ]
]

-- `fb_del` on a strictly increasing list takes the sector out and no other, says whether it was
-- there, and keeps the order.
pub del_lem :
    (lo : ℕ) (list : List ℕ) (lba : ℕ)
    → Above lo list
    → ((del list lba).0 ≡ has list lba)
      × Above lo (del list lba).1
      × ((x : ℕ) → has (del list lba).1 x ≡ (not (lba == x) && has list x))
unfolding del has
del_lem lo [] lba s = (refl, tt, λ x. ground arith)
del_lem lo (b ∷ bs) lba s = elim (Bool-cases (b == lba)) [
  | inl e ↦ rw e (refl, Above-mono bs (omega arith) s.1, λ x. ground (arith, Above-has b bs x))
  | inr e ↦ let ih = del_lem b bs lba s.1 in rw e (ih.0, (s.0, ih.1), λ x. ground (arith, ih.2 x))
]

del-placed :
    (list : List ℕ) (lba : ℕ)
    → lba < 2 ^ 16
    → has list lba ≡ false
    → del (placed list lba) lba ≡ (true, list)
unfolding del has position insert_at
del-placed [] lba w m = ground arith
del-placed (b ∷ bs) lba w m = ground (arith, del-placed bs lba)

-- Marking a new sector and then taking it out again, as `bad_mark` does when the superblock
-- cannot be written, gives back the list.
pub del-add :
    (lo : ℕ) (list : List ℕ) (lba : ℕ)
    → Above lo list
    → lo < lba
    → lba < 2 ^ 16
    → (add list lba).0 ≡ added
    → del (add list lba).1 lba ≡ (true, list)
unfolding add
del-add lo list lba s h w e = elim (Bool-cases (hit_at list lba)) [
  | inl hit ↦ absurd (ground arith)
  | inr miss ↦ elim (Bool-cases (leb max_bad (length list))) [
    | inl f ↦ absurd (ground arith)
    | inr f ↦ rw (miss, f) (del-placed list lba w (sym (hit_at-has lo list lba s) ∙ miss))
  ]
]

-- `fb_clash` finds the first listed sector of a range, and misses only if there is none.
abbrev pub Clashes : List ℕ → ℕ → ℕ → Option ℕ → Type 0
Clashes list start len none = (x : ℕ) → start ≤ x → x < start + len → has list x ≡ false
Clashes list start len (some b) =
    (has list b ≡ true)
    × (start ≤ b)
    × (b < start + len)
    × ((x : ℕ) → start ≤ x → x < b → has list x ≡ false)

Clashes-skip :
    (b : ℕ) (bs : List ℕ) (start len : ℕ) (r : Option ℕ)
    → Above b bs
    → (leb start b && ltb (b - start) len) ≡ false
    → Clashes bs start len r
    → Clashes (b ∷ bs) start len r
unfolding has
Clashes-skip b bs start len none s miss c = λ x p q. ground (arith, c x p q)
Clashes-skip b bs start len (some d) s miss c =
    (ground arith, c.1, c.2, λ x p q. ground (arith, c.3 x p q, Above-has b bs d s))

-- In a strictly increasing list, `fb_clash` answers the least listed sector of the range of `len`
-- sectors from `start`, and -1 only if the range holds no listed sector.
pub clash-Clashes :
    (lo : ℕ) (list : List ℕ) (start len : ℕ)
    → Above lo list
    → Clashes list start len (clash list start len)
unfolding clash
clash-Clashes lo [] start len s = λ x p q. unfold has in refl
clash-Clashes lo (b ∷ bs) start len s = elim (Bool-cases (leb start b && ltb (b - start) len)) [
  | inl hit ↦ rw hit (
    unfold has in ground arith,
    ground arith,
    ground arith,
    λ x p q. unfold has in ground (arith, Above-has b bs x),
  )
  | inr miss ↦ rw miss (Clashes-skip b bs start len _ s.1 miss (clash-Clashes b bs start len s.1))
]
