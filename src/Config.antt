-- ===== src/Config.antt =====
-- The settings of applications, src/config.c and src/prefs.inc: up to sixteen named numbers in the
-- settings sector. A key is its bytes before the 0; the free entries have an empty one.
mod Fixed
mod Entries
mod Slots
mod Laws
mod Tests
use flopnix.Base.{
  ℕ, zero, suc, ◌+◌, Bool, true, false, ◌&&◌, ◌||◌, not, Option, none, some, List, [], ◌∷◌, ltb,
  leb, ◌==◌, if◌then◌else◌, length, take, set, get_elem?, replicate,
}
use flopnix.Util.Strings.{same}

-- Pref.
pub record Pref : Type 0 where
  pub key : List ℕ
  pub value : ℕ

-- PrefStore.
pub record PrefStore : Type 0 where
  pub magic : ℕ
  pub items : List Pref

-- PREF_MAGIC.
abbrev pub pref_magic : ℕ
pref_magic = 0x32584650

-- The test of the bytes in `pref_key`.
unfoldable pub printable : List ℕ → Bool
printable [] = true
printable (c ∷ cs) = not (ltb c 33 || ltb 126 c) && printable cs

-- `pref_key`, on a key that is not null.
abbrev pub pref_key : List ℕ → Bool
pref_key key = not (length key == 0) && (leb (length key) 15 && printable key)

-- The loop of `pref_find`, from entry `i` on.
unfoldable pub pref_from : ℕ → List Pref → List ℕ → Option ℕ
pref_from i [] key = none
pref_from i (p ∷ ps) key = if same p.key key then some i else pref_from (i + 1) ps key

unfoldable pub pref_find : PrefStore → List ℕ → Option ℕ
unfolding pref_from
pref_find s key =
    if not (pref_key key) || not (s.magic == pref_magic) then none else pref_from 0 s.items key

-- The value of an entry.
abbrev pub value_at : List Pref → Option ℕ → Option ℕ
value_at items none = none
value_at items (some i) = elim (get_elem? items i) [ none ↦ none | some p ↦ some p.value ]

-- `config_get`; `none` is 0.
pub config_get : List ℕ → PrefStore → Option ℕ
unfolding pref_find
config_get key s = value_at s.items (pref_find s key)

-- The store that `config_set` works on: an empty one, if there was none.
abbrev pub ready : PrefStore → PrefStore
ready s =
    if s.magic == pref_magic
    then s
    else record { magic = pref_magic; items = replicate 16 (record { key = []; value = 0 }) }

-- The search for a free entry.
unfoldable pub free_from : ℕ → List Pref → Option ℕ
free_from i [] = none
free_from i (p ∷ ps) = if length p.key == 0 then some i else free_from (i + 1) ps

-- Where a key goes: to its entry, or to a free one.
unfoldable pub pref_slot : PrefStore → List ℕ → Option ℕ
unfolding pref_find free_from
pref_slot s key = elim (pref_find s key) [ some i ↦ some i | none ↦ free_from 0 s.items ]

-- Whether an entry has that value already.
abbrev holds : ℕ → Option Pref → Bool
holds value none = false
holds value (some p) = not (length p.key == 0) && (p.value == value)

-- `config_save`: what `fs_hook` answers, if it does, or else the floppy, if it is mounted and takes
-- the sector.
pub config_save : Option Bool → Bool → Bool → Bool
config_save (some answer) mounted written = answer
config_save none mounted written = mounted && written

-- `config_set_locked` on entry `i` of the store `r`; `save` is what `config_save` answers for a
-- store, and `old` the store that is put back.
abbrev pub config_put :
    (PrefStore → Bool) → List ℕ → ℕ → PrefStore → PrefStore → ℕ → Bool × PrefStore
config_put save key value old r i =
    let new = record r { items = set r.items i (record { key = take 15 key; value = value }) } in
    if holds value (get_elem? r.items i)
    then (true, r)
    else if save new
    then (true, new)
    else (false, old)

-- `config_set_locked`.
pub config_set : (PrefStore → Bool) → List ℕ → ℕ → PrefStore → Bool × PrefStore
config_set save key value s =
    if not (pref_key key) then (false, s) else elim (pref_slot (ready s) key) [
      | none ↦ (false, ready s)
      | some i ↦ config_put save key value s (ready s) i
    ]
