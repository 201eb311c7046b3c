-- ===== src/Config/Laws.antt =====
-- Setting a setting and reading settings after it.
use flopnix.Base.{
  ℕ, ◌≡◌, ◌≢◌, refl, sym, ap, ◌∙◌, subst, Bool, true, false, ◌&&◌, some, List, inl, inr, ◌==◌,
  if◌then◌else◌, arith, Bool-cases, Option-cases, take, take_all, set, get_elem?,
}
use flopnix.Util.Strings.{same, eq_of_same}
use flopnix.Config.{
  Pref, PrefStore, pref_magic, pref_key, config_get, ready, pref_slot, holds, config_put,
  config_set,
}
use flopnix.Config.Entries.{value_in, apart}
use flopnix.Config.Slots.{
  config_get-value_in, ready_magic, config_get-no_key, config_get-ready, Slot, pref_slot-Slot,
  short, set-Slot,
}

-- What the answer of `config_set` promises.
abbrev Assigned : List ℕ → ℕ → PrefStore → Bool × PrefStore → Type 0
Assigned key value s result =
    (result.0 ≡ true → config_get key result.1 ≡ some value)
    × (result.0 ≡ false → config_get key result.1 ≡ config_get key s)
    × ((other : List ℕ) → key ≢ other → config_get other result.1 ≡ config_get other s)

-- A store whose entries read the same but for the key reads the same but for the key.
config_get-changed :
    (key : List ℕ) (r new : PrefStore)
    → (r.magic == pref_magic) ≡ true
    → (new.magic == pref_magic) ≡ true
    → ((other : List ℕ)
        → pref_key other ≡ true
        → key ≢ other
        → value_in new.items other ≡ value_in r.items other)
    → (other : List ℕ) → key ≢ other
    → config_get other new ≡ config_get other r
config_get-changed key r new m n same_items other ne = elim (Bool-cases (pref_key other)) [
  | inl k ↦
      config_get-value_in other new k n
      ∙ same_items other k ne
      ∙ sym (config_get-value_in other r k m)
  | inr k ↦ config_get-no_key other new k ∙ sym (config_get-no_key other r k)
]

Assigned-if :
    (key : List ℕ) (value : ℕ) (s r new : PrefStore) (b c : Bool)
    → (b ≡ true → Assigned key value s (true, r))
    → Assigned key value s (true, new)
    → Assigned key value s (false, s)
    → Assigned key value s (if b then (true, r) else if c then (true, new) else (false, s))
Assigned-if key value s r new true c held written refused = held refl
Assigned-if key value s r new false true held written refused = written
Assigned-if key value s r new false false held written refused = refused

-- Both ways of keeping the store.
Assigned-kept : (key : List ℕ) (value : ℕ) (s : PrefStore) → Assigned key value s (false, s)
Assigned-kept key value s = (λ e. absurd cc, λ e. refl, λ other ne. refl)

-- An entry that has the value already.
held-value :
    (items : List Pref) (key : List ℕ) (i value : ℕ)
    → Slot items key i
    → holds value (get_elem? items i) ≡ true
    → value_in items key ≡ some value
held-value items key i value slot h =
    let full : holds value (some slot.0) ≡ true = ap (holds value) (sym slot.1) ∙ h in
    elim slot.2 [ inl own ↦ own.1 ∙ ap some (ground arith) | inr free ↦ absurd (ground arith) ]

config_put-Assigned :
    (save : PrefStore → Bool) (key : List ℕ) (value : ℕ) (s : PrefStore) (i : ℕ)
    → pref_key key ≡ true
    → pref_slot (ready s) key ≡ some i
    → Assigned key value s (config_put save key value s (ready s) i)
config_put-Assigned save key value s i k e =
    let slot = pref_slot-Slot (ready s) key i k (ready_magic s) e in
    let written = set-Slot (ready s).items i value key slot in
    let whole = take_all 15 key (short key k) in
    let m = ready_magic s in
    let put : List ℕ → PrefStore = λ name. record (ready s) {
      items = set (ready s).items i (record { key = name; value = value });
    } in
    Assigned-if key value s (ready s) (put (take 15 key))
      (holds value (get_elem? (ready s).items i)) (save (put (take 15 key)))
      (λ h. (
        λ t. config_get-value_in key (ready s) k m ∙ held-value (ready s).items key i value slot h,
        λ f. absurd cc,
        λ other ne. config_get-ready other s,
      ))
      (subst (λ name. Assigned key value s (true, put name)) (sym whole)
        (
          λ t. config_get-value_in key (put key) k m ∙ written.0,
          λ f. absurd cc,
          λ other ne.
              config_get-changed key (ready s) (put key) m m written.1 other ne
              ∙ config_get-ready other s,
        ))
      (Assigned-kept key value s)

config_set-Assigned :
    (save : PrefStore → Bool) (key : List ℕ) (value : ℕ) (s : PrefStore)
    → Assigned key value s (config_set save key value s)
unfolding config_set
config_set-Assigned save key value s = elim (Bool-cases (pref_key key)) [
  | inr k ↦ rw k (Assigned-kept key value s)
  | inl k ↦ elim (Option-cases (pref_slot (ready s) key)) [
    | inl e ↦
        rw (k, e)
          (λ t. absurd cc, λ f. config_get-ready key s, λ other ne. config_get-ready other s)
    | inr (i, e) ↦ rw (k, e) (config_put-Assigned save key value s i k e)
  ]
]

Assigned-config_get :
    (key : List ℕ) (value : ℕ) (s : PrefStore) (b : Bool) (new : PrefStore) (other : List ℕ)
    → Assigned key value s (b, new)
    → config_get other new ≡ (if b && same key other then some value else config_get other s)
Assigned-config_get key value s true new other a = elim (Bool-cases (same key other)) [
  | inl hit ↦
      rw hit (subst (λ k. config_get k new ≡ some value) (eq_of_same key other hit) (a.0 refl))
  | inr miss ↦ rw miss (a.2 other (apart key other miss))
]
Assigned-config_get key value s false new other a = elim (Bool-cases (same key other)) [
  | inl hit ↦ subst (λ k. config_get k new ≡ config_get k s) (eq_of_same key other hit) (a.1 refl)
  | inr miss ↦ a.2 other (apart key other miss)
]

-- Reading a setting after setting one, whatever the save answers: if the two keys are the same and
-- `config_set` answered yes, the read gives the new value; in every other case it gives what it gave
-- before.
pub config_set-config_get :
    (save : PrefStore → Bool) (key : List ℕ) (value : ℕ) (s : PrefStore) (other : List ℕ)
    → config_get other (config_set save key value s).1 ≡ (
        if (config_set save key value s).0 && same key other
        then some value
        else config_get other s)
config_set-config_get save key value s other =
    Assigned-config_get key value s (config_set save key value s).0 (config_set save key value s).1
      other (config_set-Assigned save key value s)
