-- ===== src/Config/Entries.antt =====
-- The entries of the settings as a list: where a key is found, and what writing one entry changes.
use flopnix.Base.{
  ℕ, zero, suc, ◌+◌, ◌<◌, ◌≡◌, ◌≢◌, refl, sym, ap, ◌∙◌, subst, true, false, Option, none, some,
  List, [], ◌∷◌, inl, inr, ◌==◌, if◌then◌else◌, arith, Bool-cases, length, take, set, get_elem?,
}
use flopnix.Util.Strings.{same, eq_of_same, same_refl}
use flopnix.Config.{Pref, pref_from, free_from}

-- The value that the entries have for a key.
unfoldable pub value_in : List Pref → List ℕ → Option ℕ
value_in [] key = none
value_in (p ∷ ps) key = if same p.key key then some p.value else value_in ps key

-- The entry of a key, with none before it.
abbrev pub At : ℕ → List Pref → List ℕ → Option ℕ → Type 0
At k items key none = value_in items key ≡ none
At k items key (some i) =
    (m : ℕ) × (p : Pref) × (i ≡ k + m)
    × (get_elem? items m ≡ some p)
    × (p.key ≡ key)
    × (value_in (take m items) key ≡ none)
    × (value_in items key ≡ some p.value)

At-later :
    (k : ℕ) (q : Pref) (items : List Pref) (key : List ℕ) (i : Option ℕ)
    → same q.key key ≡ false
    → At (k + 1) items key i
    → At k (q ∷ items) key i
unfolding value_in
At-later k q items key none miss a = rw miss a
At-later k q items key (some i) miss a =
    (suc a.0, a.1, omega (arith, a.2), a.3, a.4, rw miss a.5, rw miss a.6)

pub pref_from-At :
    (k : ℕ) (items : List Pref) (key : List ℕ) → At k items key (pref_from k items key)
unfolding pref_from value_in
pref_from-At k [] key = refl
pref_from-At k (p ∷ ps) key = elim (Bool-cases (same p.key key)) [
  | inl hit ↦ rw hit (0, p, omega arith, refl, eq_of_same p.key key hit, refl, rw hit refl)
  | inr miss ↦ rw miss (At-later k p ps key _ miss (pref_from-At (k + 1) ps key))
]

pub free_from-empty :
    (k : ℕ) (items : List Pref) (i : ℕ)
    → free_from k items ≡ some i
    → (m : ℕ) × (p : Pref) × (i ≡ k + m) × (get_elem? items m ≡ some p) × (length p.key ≡ 0)
unfolding free_from
free_from-empty k [] i e = absurd cc
free_from-empty k (p ∷ ps) i e = elim (Bool-cases (length p.key == 0)) [
  | inl empty ↦
      let is : k ≡ i = ap (λ o. elim o as (λ x. ℕ) [ none ↦ k | some x ↦ x ]) (rw empty at e) in
      (0, p, sym is ∙ omega arith, refl, ground arith)
  | inr full ↦
      let r = free_from-empty (k + 1) ps i (rw (full, free_from) at e) in
      (suc r.0, r.1, omega (arith, r.2), r.3, r.4)
]

pub before_none :
    (m : ℕ) (items : List Pref) (key : List ℕ)
    → value_in items key ≡ none
    → value_in (take m items) key ≡ none
unfolding value_in
before_none zero items key h = refl
before_none (suc m) [] key h = refl
before_none (suc m) (p ∷ ps) key h = elim (Bool-cases (same p.key key)) [
  | inl hit ↦ absurd (let x : some p.value ≡ none = rw hit at h in cc)
  | inr miss ↦ rw miss (before_none m ps key (rw miss at h))
]

pub set_self :
    (items : List Pref) (m : ℕ) (new : Pref)
    → m < length items
    → value_in (take m items) new.key ≡ none
    → value_in (set items m new) new.key ≡ some new.value
unfolding value_in
set_self [] m new h b = absurd (omega arith)
set_self (p ∷ ps) zero new h b = rw (same_refl new.key) refl
set_self (p ∷ ps) (suc m) new h b = elim (Bool-cases (same p.key new.key)) [
  | inl hit ↦ absurd (let x : some p.value ≡ none = rw hit at b in cc)
  | inr miss ↦ rw miss (set_self ps m new (omega arith) (rw miss at b))
]

differ : (a b : List ℕ) → a ≢ b → same a b ≡ false
differ a b ne = elim (Bool-cases (same a b)) [
  | inl hit ↦ absurd (ne (eq_of_same a b hit))
  | inr miss ↦ miss
]

pub apart : (a b : List ℕ) → same a b ≡ false → a ≢ b
apart a b miss e =
    let x : same a a ≡ false = subst (λ c. same a c ≡ false) (sym e) miss in
    let y : true ≡ false = sym (same_refl a) ∙ x in absurd cc

pub set_other :
    (items : List Pref) (m : ℕ) (old new : Pref) (key : List ℕ)
    → get_elem? items m ≡ some old
    → old.key ≢ key
    → new.key ≢ key
    → value_in (set items m new) key ≡ value_in items key
unfolding value_in
set_other [] m old new key at o n = refl
set_other (p ∷ ps) zero old new key at o n =
    let is : p ≡ old = ap (λ x. elim x as (λ y. Pref) [ none ↦ p | some y ↦ y ]) at in
    rw (differ new.key key n) (rw (differ p.key key (λ e. o (ap (λ x. x.key) (sym is) ∙ e))) refl)
set_other (p ∷ ps) (suc m) old new key at o n = elim (Bool-cases (same p.key key)) [
  | inl hit ↦ rw hit refl
  | inr miss ↦ rw miss (set_other ps m old new key at o n)
]
