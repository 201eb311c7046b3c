-- ===== src/Config/Slots.antt =====
-- Where a key goes among the entries, and what a store reads as.
use flopnix.Base.{
  ℕ, zero, suc, ◌≤◌, ◌≡◌, ◌≢◌, ◌⊎◌, refl, sym, ap, ◌∙◌, subst, true, false, Option, none, some,
  List, [], ◌∷◌, inl, inr, ◌==◌, arith, Bool-cases, length, take, set, get_elem?, replicate,
  replicate, get_elem?-lt,
}
use flopnix.Util.Strings.{same}
use flopnix.Config.{
  Pref, PrefStore, pref_magic, pref_key, pref_from, pref_find, value_at, config_get, ready,
  free_from, pref_slot,
}
use flopnix.Config.Entries.{
  value_in, At, pref_from-At, free_from-empty, before_none, set_self, set_other,
}

value_at-At :
    (items : List Pref) (key : List ℕ) (i : Option ℕ)
    → At 0 items key i
    → value_at items i ≡ value_in items key
value_at-At items key none a = sym a
value_at-At items key (some i) a =
    ap (λ n. value_at items (some n)) (omega (arith, a.2))
    ∙ ap (λ o. elim o as (λ x. Option ℕ) [ none ↦ none | some p ↦ some p.value ]) a.3
    ∙ sym a.6

pref_find_used :
    (key : List ℕ) (s : PrefStore)
    → pref_key key ≡ true
    → (s.magic == pref_magic) ≡ true
    → pref_find s key ≡ pref_from 0 s.items key
unfolding pref_find
pref_find_used key s k m = rw (k, m) refl

-- A store that is in use reads as its entries do.
pub config_get-value_in :
    (key : List ℕ) (s : PrefStore)
    → pref_key key ≡ true
    → (s.magic == pref_magic) ≡ true
    → config_get key s ≡ value_in s.items key
unfolding config_get pref_find
config_get-value_in key s k m =
    rw (k, m) (value_at-At s.items key (pref_from 0 s.items key) (pref_from-At 0 s.items key))

ready_used : (s : PrefStore) → (s.magic == pref_magic) ≡ true → ready s ≡ s
ready_used s m = rw m refl

ready_new :
    (s : PrefStore)
    → (s.magic == pref_magic) ≡ false
    → ready s ≡ record { magic = pref_magic; items = replicate 16 (record { key = []; value = 0 }) }
ready_new s m = rw m refl

pub ready_magic : (s : PrefStore) → ((ready s).magic == pref_magic) ≡ true
ready_magic s = elim (Bool-cases (s.magic == pref_magic)) [
  | inl used ↦ ap (λ x. x.magic == pref_magic) (ready_used s used) ∙ used
  | inr new ↦ ap (λ x. x.magic == pref_magic) (ready_new s new)
]

pub config_get-no_key :
    (key : List ℕ) (s : PrefStore) → pref_key key ≡ false → config_get key s ≡ none
unfolding config_get pref_find
config_get-no_key key s k = rw k refl

config_get-unused :
    (key : List ℕ) (s : PrefStore) → (s.magic == pref_magic) ≡ false → config_get key s ≡ none
unfolding config_get pref_find
config_get-unused key s m = elim (Bool-cases (pref_key key)) [
  | inl k ↦ rw (k, m) refl
  | inr k ↦ rw k refl
]

value_in-replicate :
    (n : ℕ) (key : List ℕ)
    → pref_key key ≡ true
    → value_in (replicate n (record { key = []; value = 0 })) key ≡ none
unfolding value_in same
value_in-replicate zero key k = refl
value_in-replicate (suc n) [] k = absurd cc
value_in-replicate (suc n) (c ∷ cs) k = value_in-replicate n (c ∷ cs) k

-- Resetting a store that is not in use changes nothing that it reads as.
pub config_get-ready : (key : List ℕ) (s : PrefStore) → config_get key (ready s) ≡ config_get key s
config_get-ready key s = elim (Bool-cases (s.magic == pref_magic)) [
  | inl used ↦ ap (config_get key) (ready_used s used)
  | inr new ↦
      let fresh : PrefStore = record {
        magic = pref_magic;
        items = replicate 16 (record { key = []; value = 0 });
      } in
      ap (config_get key) (ready_new s new)
      ∙ elim (Bool-cases (pref_key key)) [
        | inl k ↦ config_get-value_in key fresh k refl ∙ value_in-replicate 16 key k
        | inr k ↦ config_get-no_key key fresh k
      ]
      ∙ sym (config_get-unused key s new)
]

-- Where a key goes: to its entry, or to a free one if it has none.
abbrev pub Slot : List Pref → List ℕ → ℕ → Type 0
Slot items key i =
    (p : Pref) × (get_elem? items i ≡ some p)
    × ((p.key ≡ key) × (value_in items key ≡ some p.value) ⊎ length p.key ≡ 0)
    × (value_in (take i items) key ≡ none)

pref_from-Slot :
    (items : List Pref) (key : List ℕ) (i : ℕ) (found : Option ℕ)
    → At 0 items key found
    → elim found as (λ x. Option ℕ) [ some n ↦ some n | none ↦ free_from 0 items ] ≡ some i
    → Slot items key i
pref_from-Slot items key i none a e =
    let f = free_from-empty 0 items i e in
    subst (Slot items key) (omega (arith, f.2)) (f.1, f.3, inr f.4, before_none f.0 items key a)
pref_from-Slot items key i (some n) a e =
    let is : n ≡ i = ap (λ o. elim o as (λ x. ℕ) [ none ↦ n | some x ↦ x ]) e in
    subst (Slot items key) (omega (arith, a.2, is)) (a.1, a.3, inl (a.4, a.6), a.5)

pub pref_slot-Slot :
    (s : PrefStore) (key : List ℕ) (i : ℕ)
    → pref_key key ≡ true
    → (s.magic == pref_magic) ≡ true
    → pref_slot s key ≡ some i
    → Slot s.items key i
unfolding pref_slot
pref_slot-Slot s key i k m e =
    pref_from-Slot s.items key i (pref_find s key)
      (subst (At 0 s.items key) (sym (pref_find_used key s k m)) (pref_from-At 0 s.items key)) e

filled : (key : List ℕ) → pref_key key ≡ true → length key ≢ 0
filled [] k e = absurd cc
filled (c ∷ cs) k e = omega (arith, e)

pub short : (key : List ℕ) → pref_key key ≡ true → length key ≤ 15
short key k = ground arith

-- Writing the key at its place changes what the key reads as, and nothing else.
pub set-Slot :
    (items : List Pref) (i value : ℕ) (key : List ℕ)
    → Slot items key i
    → (value_in (set items i (record { key = key; value = value })) key ≡ some value)
      × ((other : List ℕ)
          → pref_key other ≡ true
          → key ≢ other
          → value_in (set items i (record { key = key; value = value })) other
            ≡ value_in items other)
set-Slot items i value key slot = (
  set_self items i (record { key = key; value = value }) (get_elem?-lt items i slot.1) slot.3,
  λ other k ne.
      set_other items i slot.0 (record { key = key; value = value }) other slot.1
        (elim slot.2 [
          | inl own ↦ λ e. ne (sym own.0 ∙ e)
          | inr free ↦ λ e. let x : length other ≡ 0 = ap length (sym e) ∙ free in filled other k x
        ])
        ne,
)
