-- ===== src/Fs/Volume/Table.antt =====
-- Replacing one entry of a table: what the other entries must allow, and what `find` says then.
use flopnix.Base.{
  ℕ, zero, suc, ◌+◌, ◌<◌, ◌≡◌, ◌≢◌, refl, inl, inr, sym, ap, ◌∙◌, true, false, ◌&&◌, none, some,
  List, [], ◌∷◌, length, arith, subst, All, set, get_elem?, Bool-cases,
}
use flopnix.Util.Strings.{same, eq_of_same, same_refl}
use flopnix.Fs.Entry.{Entry, find, find_from, in_use}
use flopnix.Fs.Check.Laws.{IsEntry, Distinct, Distinct-symm, IsTable}
use flopnix.Fs.Volume.{slot_from}

-- Every entry but the one at an index has the property.
abbrev pub Others : (Entry → Type 0) → ℕ → List Entry → Type 0
Others P i [] = Unit
Others P zero (e ∷ es) = All P es
Others P (suc i) (e ∷ es) = P e × Others P i es

abbrev pub Apart : Entry → Entry → Type 0
Apart e b = in_use b ≡ true → Distinct e b

All-set :
    (P : Entry → Type 0) (i : ℕ) (e : Entry) (es : List Entry) → P e → All P es → All P (set es i e)
All-set P i e [] p a = tt
All-set P zero e (b ∷ bs) p a = (p, a.1)
All-set P (suc i) e (b ∷ bs) p a = (a.0, All-set P i e bs p a.1)

pub set-IsTable :
    (first end i : ℕ) (e : Entry) (es : List Entry)
    → IsTable first end es
    → (in_use e ≡ true → IsEntry first end e × Others (Apart e) i es)
    → IsTable first end (set es i e)
set-IsTable first end i e [] t new = tt
set-IsTable first end zero e (b ∷ bs) t new = (new, t.1)
set-IsTable first end (suc i) e (b ∷ bs) t new = (
  λ u. ((t.0 u).0, All-set (Apart b) i e bs (λ w. Distinct-symm e b ((new w).1.0 u)) (t.0 u).1),
  set-IsTable first end i e bs t.1 (λ w. ((new w).0, (new w).1.1)),
)

pub All-at :
    (P : Entry → Type 0) (i : ℕ) (es : List Entry) {e : Entry}
    → All P es
    → get_elem? es i ≡ some e
    → P e
All-at P i [] a h = absurd cc
All-at P zero (b ∷ bs) a h =
    let same : b ≡ _ = ap (λ o. elim o [ none ↦ b | some x ↦ x ]) h in subst P same a.0
All-at P (suc i) (b ∷ bs) a h = All-at P i bs a.1 h

-- An entry in use of a valid table is an entry, and distinct from all others in use.
pub entry_of :
    (first end i : ℕ) (es : List Entry) {e : Entry}
    → IsTable first end es
    → get_elem? es i ≡ some e
    → in_use e ≡ true
    → IsEntry first end e × Others (Apart e) i es
entry_of first end i [] t h u = absurd cc
entry_of first end zero (b ∷ bs) {e} t h u =
    let same : b ≡ e = ap (λ o. elim o [ none ↦ b | some x ↦ x ]) h in
    subst (λ x. in_use x ≡ true → IsEntry first end x × All (Apart x) bs) same t.0 u
entry_of first end (suc i) (b ∷ bs) {e} t h u =
    let r = entry_of first end i bs t.1 h u in
    (r.0, (λ w. Distinct-symm b e (All-at (Apart b) i bs (t.0 w).1 h u), r.1))

All-map : (P Q : Entry → Type 0) (es : List Entry) → ((b : Entry) → P b → Q b) → All P es → All Q es
All-map P Q [] f a = tt
All-map P Q (b ∷ bs) f a = (f b a.0, All-map P Q bs f a.1)

pub Others-map :
    (P Q : Entry → Type 0) (i : ℕ) (es : List Entry)
    → ((b : Entry) → P b → Q b)
    → Others P i es
    → Others Q i es
Others-map P Q i [] f o = tt
Others-map P Q zero (e ∷ es) f o = All-map P Q es f o
Others-map P Q (suc i) (e ∷ es) f o = (f e o.0, Others-map P Q i es f o.1)

All-both :
    {P Q R : Entry → Type 0} (es : List Entry)
    → ((b : Entry) → P b → Q b → R b)
    → All P es
    → All Q es
    → All R es
All-both [] f a c = tt
All-both (b ∷ bs) f a c = (f b a.0 c.0, All-both bs f a.1 c.1)

pub Others-both :
    {P Q R : Entry → Type 0} (i : ℕ) (es : List Entry)
    → ((b : Entry) → P b → Q b → R b)
    → Others P i es
    → Others Q i es
    → Others R i es
Others-both i [] f a c = tt
Others-both zero (e ∷ es) f a c = All-both es f a c
Others-both (suc i) (e ∷ es) f a c = (f e a.0 c.0, Others-both i es f a.1 c.1)

pub All-Others : (P : Entry → Type 0) (i : ℕ) (es : List Entry) → All P es → Others P i es
All-Others P i [] a = tt
All-Others P zero (e ∷ es) a = a.1
All-Others P (suc i) (e ∷ es) a = (a.0, All-Others P i es a.1)

-- What `find` answers is the entry at that index, in use and with that name.
found_from :
    (k : ℕ) (es : List Entry) (name : List ℕ) (i : ℕ) (e : Entry)
    → find_from k es name ≡ some (i, e)
    → (m : ℕ) × (i ≡ k + m) × (get_elem? es m ≡ some e) × (in_use e ≡ true) × (e.name ≡ name)
unfolding find_from
found_from k [] name i e h = absurd cc
found_from k (b ∷ bs) name i e h = elim (Bool-cases (in_use b && same b.name name)) [
  | inl hit ↦
      let at : some (k, b) ≡ some (i, e) = rw hit at h in
      let same_name : same b.name name ≡ true = ground arith in
      let used : in_use b ≡ true = ground arith in
      let i' : k ≡ i = ap (λ o. elim o [ none ↦ k | some x ↦ x.0 ]) at in
      let e' : b ≡ e = ap (λ o. elim o [ none ↦ b | some x ↦ x.1 ]) at in
      (
        0,
        sym i' ∙ omega arith,
        ap some e',
        sym (ap in_use e') ∙ used,
        sym (ap (λ x. x.name) e') ∙ eq_of_same b.name name same_name,
      )
  | inr miss ↦
      let r = found_from (k + 1) bs name i e (rw miss at h) in (suc r.0, omega arith, r.2, r.3, r.4)
]

pub found :
    (es : List Entry) (name : List ℕ) (i : ℕ) (e : Entry)
    → find es name ≡ some (i, e)
    → (get_elem? es i ≡ some e) × (in_use e ≡ true) × (e.name ≡ name)
found es name i e h =
    let r = found_from 0 es name i e h in
    (subst (λ j. get_elem? es j ≡ some e) (sym (omega arith)) r.2, r.3, r.4)

-- `find` answers nothing exactly if no entry in use has the name.
abbrev pub Unnamed : List ℕ → Entry → Type 0
Unnamed name b = in_use b ≡ true → b.name ≢ name

Unnamed-miss : (n : List ℕ) (b : Entry) → Unnamed n b → (in_use b && same b.name n) ≡ false
Unnamed-miss n b p = elim (Bool-cases (in_use b && same b.name n)) [
  | inl hit ↦ absurd (p (ground arith) (eq_of_same b.name n (ground arith)))
  | inr miss ↦ miss
]

not_found_from :
    (k : ℕ) (es : List Entry) (name : List ℕ) → find_from k es name ≡ none → All (Unnamed name) es
unfolding find_from
not_found_from k [] name h = tt
not_found_from k (b ∷ bs) name h = elim (Bool-cases (in_use b && same b.name name)) [
  | inl hit ↦ absurd (let at : some (k, b) ≡ none = rw hit at h in cc)
  | inr miss ↦ (
    λ u e. absurd (ground (arith, subst (λ n. same b.name n ≡ true) e (same_refl b.name))),
    not_found_from (k + 1) bs name (rw miss at h),
  )
]

pub not_found : (es : List Entry) (name : List ℕ) → find es name ≡ none → All (Unnamed name) es
not_found es name h = not_found_from 0 es name h

pub find_nothing :
    (k : ℕ) (es : List Entry) (name : List ℕ) → All (Unnamed name) es → find_from k es name ≡ none
unfolding find_from
find_nothing k [] name a = refl
find_nothing k (b ∷ bs) name a = elim (Bool-cases (in_use b && same b.name name)) [
  | inl hit ↦ absurd (a.0 (ground arith) (eq_of_same b.name name (ground arith)))
  | inr miss ↦ rw (miss, find_from) (find_nothing (k + 1) bs name a.1)
]

-- With the name at one index only, `find` answers that one.
only-find_from :
    (k i : ℕ) (es : List Entry) (e : Entry) (name : List ℕ)
    → i < length es
    → Others (Unnamed name) i es
    → in_use e ≡ true
    → e.name ≡ name
    → find_from k (set es i e) name ≡ some (k + i, e)
unfolding find_from
only-find_from k i [] e name lt o u n = absurd (omega arith)
only-find_from k zero (b ∷ bs) e name lt o u n =
    let hit : (in_use e && same e.name name) ≡ true =
      ground (arith, subst (λ x. same e.name x ≡ true) n (same_refl e.name)) in
    rw hit (ap (λ x. some (x, e)) (omega arith))
only-find_from k (suc i) (b ∷ bs) e name lt o u n =
    let ih = only-find_from (k + 1) i bs e name (omega arith) o.1 u n in
    elim (Bool-cases (in_use b && same b.name name)) [
      | inl hit ↦ absurd (o.0 (ground arith) (eq_of_same b.name name (ground arith)))
      | inr miss ↦ rw (miss, find_from) (ih ∙ ap (λ x. some (x, e)) (omega arith))
    ]

pub only-find :
    (i : ℕ) (es : List Entry) (e : Entry) (name : List ℕ)
    → i < length es
    → Others (Unnamed name) i es
    → in_use e ≡ true
    → e.name ≡ name
    → find (set es i e) name ≡ some (i, e)
only-find i es e name lt o u n =
    only-find_from 0 i es e name lt o u n ∙ ap (λ x. some (x, e)) (omega arith)

-- The slot that the search answers is an unused entry of the table.
pub slot_free :
    (k left : ℕ) (es : List Entry) (i : ℕ)
    → slot_from k left es ≡ some i
    → (m : ℕ) × (e : Entry) × (i ≡ k + m) × (get_elem? es m ≡ some e) × (in_use e ≡ false)
unfolding slot_from
slot_free k zero es i h = absurd cc
slot_free k (suc left) [] i h = absurd cc
slot_free k (suc left) (e ∷ es) i h = elim (Bool-cases (in_use e)) [
  | inl used ↦
      let r = slot_free (k + 1) left es i (rw (used, slot_from) at h) in
      (suc r.0, r.1, omega (arith, r.2), r.3, r.4)
  | inr unused ↦
      let at : some k ≡ some i = rw unused at h in
      let j : k ≡ i = ap (λ o. elim o [ none ↦ k | some x ↦ x ]) at in
      (0, e, omega arith, refl, unused)
]

-- The names that neither the old nor the new entry has are found as before.
pub other-find_from :
    (k i : ℕ) (es : List Entry) (old new : Entry) (n : List ℕ)
    → get_elem? es i ≡ some old
    → Unnamed n old
    → Unnamed n new
    → find_from k (set es i new) n ≡ find_from k es n
unfolding find_from
other-find_from k i [] old new n at p q = refl
other-find_from k zero (b ∷ bs) old new n at p q =
    let is : b ≡ old = ap (λ o. elim o [ none ↦ b | some x ↦ x ]) at in
    let miss : (in_use b && same b.name n) ≡ false =
      subst (λ x. (in_use x && same x.name n) ≡ false) (sym is) (Unnamed-miss n old p) in
    rw (miss, Unnamed-miss n new q) refl
other-find_from k (suc i) (b ∷ bs) old new n at p q =
    elim (Bool-cases (in_use b && same b.name n)) [
      | inl hit ↦ rw hit refl
      | inr miss ↦ rw (miss, find_from) (other-find_from (k + 1) i bs old new n at p q)
    ]

pub All-replaced :
    (P : Entry → Type 0) (i : ℕ) (e : Entry) (es : List Entry)
    → P e
    → Others P i es
    → All P (set es i e)
All-replaced P i e [] p o = tt
All-replaced P zero e (b ∷ bs) p o = (p, o)
All-replaced P (suc i) e (b ∷ bs) p o = (o.0, All-replaced P i e bs p o.1)
