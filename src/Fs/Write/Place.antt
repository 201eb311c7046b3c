-- ===== src/Fs/Write/Place.antt =====
-- The place that `fs_write_locked` finds for a file is in the data area, large enough, and shared
-- with no other file.
use flopnix.Base.{
  ℕ, zero, suc, ◌+◌, ◌-◌, ◌≤◌, ◌<◌, ◌≡◌, ◌≢◌, ◌⊎◌, refl, sym, ap, ◌∙◌, subst, Bool, true, false,
  ◌||◌, Option, none, some, List, [], ◌∷◌, inl, inr, ltb, leb, arith, Bool-cases, Option-cases,
  get_elem?, get_elem?-lt, length, take, take_all, is_some,
}
use flopnix.Fs.Alloc.{alloc}
use flopnix.Fs.Alloc.Laws.{Unused, FirstFree, alloc-FirstFree}
use flopnix.Fs.Bad.{clash}
use flopnix.Fs.Bad.Kept.{IsBadList-Above}
use flopnix.Fs.Drive.Laws.{Away}
use flopnix.Fs.Entry.{Entry, find, in_use, is_dir, name_len, volume_end}
use flopnix.Fs.Volume.{Volume, IsVolume, slot_from}
use flopnix.Fs.Volume.Table.{
  Others, Apart, entry_of, Others-both, All-Others, found, not_found, slot_free, All-at,
}
use flopnix.Fs.Write.{place_file}

-- An entry for a name, in use and no directory, with `nsect` sectors at least, that may stand at an
-- index of the table in place of what the name has there.
pub record IsPlace (v : Volume) (name : List ℕ) (nsect i : ℕ) (e : Entry) : Type 0 where
  pub index_lt : i < length v.table
  pub used_one : e.used ≡ 1
  pub named : e.name ≡ name
  pub is_file : is_dir e ≡ false
  pub from_first : v.first ≤ e.start
  pub enough : nsect ≤ e.nsect
  pub to_end : e.start + e.nsect ≤ volume_end
  pub others : Others (Apart e) i v.table
  pub held : (b : Entry) → get_elem? v.table i ≡ some b → in_use b ≡ true → b.name ≡ name
  pub kept : (j : ℕ) (b : Entry) → find v.table name ≡ some (j, b) → get_elem? v.table i ≡ some b

-- The first free run of the volume, as `alloc` finds it.
run_free :
    (v : Volume) (nsect start : ℕ)
    → IsVolume v
    → alloc v.table v.bad v.first volume_end nsect ≡ some start
    → (v.first ≤ start) × (start + nsect ≤ volume_end) × Unused v.table start nsect
run_free v nsect start w e =
    let above = IsBadList-Above v.first volume_end v.bad w.first_pos w.bad_valid in
    let f = alloc-FirstFree v.table v.bad v.first volume_end nsect above in
    let g : FirstFree v.table v.bad v.first volume_end nsect (some start) = rw e at f in
    (g.0, g.1, g.2.0)

-- An entry on a free run has no sector of any other.
Apart-free :
    (e b : Entry)
    → (in_use b ≡ true → e.name ≢ b.name)
    → (in_use b ≡ true → (b.start + b.nsect ≤ e.start) ⊎ (e.start + e.nsect ≤ b.start))
    → Apart e b
Apart-free e b names away u =
    (names u, λ s p q r t. elim (away u) [ inl l ↦ omega arith | inr r' ↦ omega arith ])

pub some-eq : {A : Type 0} {a b : A} → some a ≡ some b → a ≡ b
some-eq {A} {a} {b} h = ap (λ o. elim o [ none ↦ a | some x ↦ x ]) h

abbrev new_file : List ℕ → ℕ → ℕ → Entry
new_file name start nsect = record {
  name = name;
  size = 0;
  mtime = 0;
  start = start;
  nsect = nsect;
  used = 1;
  attr = 0;
}

module _ (v : Volume) (w : IsVolume v) (name : List ℕ) (nsect : ℕ) where
  old-IsPlace :
      (i : ℕ) (e : Entry)
      → find v.table name ≡ some (i, e)
      → is_dir e ≡ false
      → (fresh : Bool)
      → (fresh || (ltb e.nsect nsect || is_some (clash v.bad e.start e.nsect))) ≡ false
      → IsPlace v name nsect i e
  old-IsPlace i e hit file fresh stays =
      let f = found v.table name i e hit in
      let here = entry_of v.first volume_end i v.table w.valid f.0 f.1 in
      let at = here.0.4 file in
      record {
        index_lt = get_elem?-lt v.table i f.0;
        used_one = here.0.0;
        named = f.2;
        is_file = file;
        from_first = at.0;
        enough = ground arith;
        to_end = at.2;
        others = here.1;
        held = λ b g u. ap (λ x. x.name) (some-eq (sym g ∙ f.0)) ∙ f.2;
        kept = λ j b g. f.0 ∙ ap (λ x. some x.1) (some-eq {A = ℕ × Entry} (sym hit ∙ g));
      }

  moved-IsPlace :
      (i : ℕ) (e : Entry) (start : ℕ)
      → find v.table name ≡ some (i, e)
      → is_dir e ≡ false
      → alloc v.table v.bad v.first volume_end nsect ≡ some start
      → IsPlace v name nsect i (record e { start = start; nsect = nsect })
  moved-IsPlace i e start hit file got =
      let f = found v.table name i e hit in
      let here = entry_of v.first volume_end i v.table w.valid f.0 f.1 in
      let free = run_free v nsect start w got in
      let new = record e { start = start; nsect = nsect } in
      record {
        index_lt = get_elem?-lt v.table i f.0;
        used_one = here.0.0;
        named = f.2;
        is_file = file;
        from_first = free.0;
        enough = omega arith;
        to_end = free.1;
        others =
            Others-both i v.table (λ b a away. Apart-free new b (λ u. (a u).0) away) here.1
              (All-Others _ i v.table free.2);
        held = λ b g u. ap (λ x. x.name) (some-eq (sym g ∙ f.0)) ∙ f.2;
        kept = λ j b g. f.0 ∙ ap (λ x. some x.1) (some-eq {A = ℕ × Entry} (sym hit ∙ g));
      }

  new-IsPlace :
      (i : ℕ) (e : Entry)
      → find v.table name ≡ none
      → slot_from 0 v.slots v.table ≡ some i
      → e.used ≡ 1
      → e.name ≡ name
      → is_dir e ≡ false
      → e.nsect ≡ nsect
      → alloc v.table v.bad v.first volume_end nsect ≡ some e.start
      → IsPlace v name nsect i e
  new-IsPlace i e miss slot used called file size got =
      let s = slot_free 0 v.slots v.table i slot in
      let at : get_elem? v.table i ≡ some s.1 =
        subst (λ k. get_elem? v.table k ≡ some s.1) (sym (s.2 ∙ omega arith)) s.3 in
      let free = run_free v nsect e.start w got in
      record {
        index_lt = get_elem?-lt v.table i at;
        used_one = used;
        named = called;
        is_file = file;
        from_first = free.0;
        enough = omega arith;
        to_end = omega (arith, free.1, size);
        others =
            Others-both i v.table
              (λ b unnamed away.
                Apart-free e b (λ u p. unnamed u (sym p ∙ called))
                  (λ u. elim (away u) [ inl l ↦ inl l | inr r ↦ inr (omega arith) ]))
              (All-Others _ i v.table (not_found v.table name miss))
              (All-Others _ i v.table free.2);
        held = λ b g u. absurd (let t = ap in_use (some-eq (sym g ∙ at)) in let f = s.4 in cc);
        kept = λ j b g. absurd (let both = sym miss ∙ g in cc);
      }

  abbrev IsPlaced : Option (ℕ × Entry) → Type 0
  IsPlaced none = Unit {0}
  IsPlaced (some (i, e)) = IsPlace v name nsect i e

  -- What `place_file` answers for a name that is no directory.
  pub place_file-IsPlaced :
      (fresh : Bool)
      → length name < name_len
      → (elim (find v.table name) as (λ x. Bool) [ none ↦ false | some (i, e) ↦ is_dir e ]) ≡ false
      → IsPlaced (place_file nsect fresh name v)
  unfolding place_file
  place_file-IsPlaced fresh short file = elim (Option-cases (find v.table name)) [
    | inr ((i, e), hit) ↦
        let plain : is_dir e ≡ false = rw hit at file in
        elim (Bool-cases (fresh || (ltb e.nsect nsect || is_some (clash v.bad e.start e.nsect)))) [
          | inr stays ↦
              let is : place_file nsect fresh name v ≡ some (i, e) =
                rw (hit, place_file) (rw stays refl) in
              subst IsPlaced (sym is) (old-IsPlace i e hit plain fresh stays)
          | inl moves ↦ elim (Option-cases (alloc v.table v.bad v.first volume_end nsect)) [
            | inl full ↦
                let is : place_file nsect fresh name v ≡ none =
                  rw (hit, place_file) (rw moves (rw full refl)) in
                subst IsPlaced (sym is) tt
            | inr (start, got) ↦
                let new = record e { start = start; nsect = nsect } in
                let is : place_file nsect fresh name v ≡ some (i, new) =
                  rw (hit, place_file) (rw moves (rw got refl)) in
                subst IsPlaced (sym is) (moved-IsPlace i e start hit plain got)
          ]
        ]
    | inl miss ↦ elim (Option-cases (alloc v.table v.bad v.first volume_end nsect)) [
      | inl full ↦
          let is : place_file nsect fresh name v ≡ none = rw (miss, place_file) (rw full refl) in
          subst IsPlaced (sym is) tt
      | inr (start, got) ↦ elim (Option-cases (slot_from 0 v.slots v.table)) [
        | inl none_free ↦
            let is : place_file nsect fresh name v ≡ none =
              rw (miss, place_file) (rw got (rw none_free refl)) in
            subst IsPlaced (sym is) tt
        | inr (i, slot) ↦
            let is : place_file nsect fresh name v
                ≡ some (i, new_file (take (name_len - 1) name) start nsect) =
              rw (miss, place_file) (rw got (rw slot refl)) in
            subst IsPlaced (sym is) (
              new-IsPlace i (new_file (take (name_len - 1) name) start nsect) miss slot refl
                (take_all (name_len - 1) name (omega arith)) refl refl got)
      ]
    ]
  ]

-- A sector of another file.
abbrev pub Elsewhere : Volume → List ℕ → ℕ → Type 0
Elsewhere v name j =
    (k : ℕ) × (b : Entry) × (get_elem? v.table k ≡ some b)
    × (in_use b ≡ true)
    × (b.name ≢ name)
    × (b.start ≤ j)
    × (j < b.start + b.nsect)

Others-at :
    (P : Entry → Type 0) (i k : ℕ) (es : List Entry) {b : Entry}
    → Others P i es
    → get_elem? es k ≡ some b
    → k ≢ i
    → P b
Others-at P i k [] o g ne = absurd cc
Others-at P zero zero (e ∷ es) o g ne = absurd (ne refl)
Others-at P zero (suc k) (e ∷ es) o g ne = All-at P k es o g
Others-at P (suc i) zero (e ∷ es) o g ne = subst P (some-eq g) o.0
Others-at P (suc i) (suc k) (e ∷ es) o g ne = Others-at P i k es o.1 g (λ p. ne (ap suc p))

-- The sectors of the other files are in the data area, away from those of a placed file.
pub Elsewhere-Away :
    (v : Volume) (name : List ℕ) (nsect i j : ℕ) (e : Entry)
    → IsVolume v
    → IsPlace v name nsect i e
    → Elsewhere v name j
    → (v.first ≤ j) × Away e.start nsect j
Elsewhere-Away v name nsect i j e w p (k, b, g, u, ne, lo, hi) =
    let here = entry_of v.first volume_end k v.table w.valid g u in
    let other : k ≢ i =
      λ same. ne (p.held b (subst (λ x. get_elem? v.table x ≡ some b) same g) u) in
    let apart = Others-at (Apart e) i k v.table p.others g other in
    let enough = p.enough in
    (
      elim (Bool-cases (is_dir b)) [
        | inl dir ↦ absurd (let z = here.0.3 dir in omega arith)
        | inr file ↦ let z = here.0.4 file in omega arith
      ],
      elim (Bool-cases (ltb j e.start)) [
        | inl before ↦ inl (ground arith)
        | inr after ↦ elim (Bool-cases (leb (e.start + nsect) j)) [
          | inl past ↦ inr (ground arith)
          | inr inside ↦ absurd ((apart u).1 j (ground arith) (ground arith) lo hi)
        ]
      ],
    )
