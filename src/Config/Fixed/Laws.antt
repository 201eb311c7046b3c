-- ===== src/Config/Fixed/Laws.antt =====
-- Loading the fixed settings leaves each of them in its range.
use flopnix.Base.{
  ℕ, zero, suc, ◌≤◌, ◌≡◌, refl, Bool, true, false, ◌||◌, List, [], ◌∷◌, inl, inr, ltb, leb, ◌==◌,
  if◌then◌else◌, arith, Bool-cases, set, replicate, ◌++◌, ◌+◌, All, length, get_elem?,
  get_elem?-set_self, length-set, some, none, ap, ◌∙◌, ◌<◌,
}
use flopnix.Base.Int.{ℤ, pos, negsuc}
use flopnix.Config.Fixed.{
  FCfg, cfg_magic, within, at_most, is_zone, clean, clean_path, cfg_sanitize, config_load,
}

-- A time zone from -48 to 56 quarters of an hour.
abbrev pub IsZone : ℤ → Type 0
IsZone (pos n) = n ≤ 56
IsZone (negsuc n) = n + 1 ≤ 48

-- 64 bytes with a text of printable characters and the 0 that ends it.
abbrev pub IsPath : List ℕ → Type 0
IsPath path =
    (text : List ℕ) × (rest : List ℕ) × (path ≡ text ++ 0 ∷ rest)
    × All (λ c. (32 ≤ c) × (c ≤ 126)) text
    × (length path ≡ 64)

-- Every setting is in its range.
abbrev pub IsSane : FCfg → Type 0
IsSane c =
    (c.magic ≡ cfg_magic)
    × (1 ≤ c.video)
    × (c.video ≤ 4)
    × (c.net_mode ≤ 1)
    × (1 ≤ c.mouse_speed)
    × (c.mouse_speed ≤ 4)
    × (c.ss_enable ≤ 1)
    × (5 ≤ c.ss_secs)
    × (c.ss_secs ≤ 240)
    × (c.wp_mode ≤ 2)
    × IsZone c.tz_qh
    × IsPath c.wp_path

within_low : (low high default v : ℕ) → low ≤ default → low ≤ within low high default v
within_low low high default v d = ground arith

within_high : (low high default v : ℕ) → default ≤ high → within low high default v ≤ high
within_high low high default v d = ground arith

at_most_high : (high default v : ℕ) → default ≤ high → at_most high default v ≤ high
at_most_high high default v d = ground arith

kept_tz-IsZone : (z : ℤ) → IsZone (if is_zone z then z else pos 0)
kept_tz-IsZone (pos n) = elim (Bool-cases (leb n 56)) [
  | inl e ↦ rw e (ground (arith, e))
  | inr e ↦ rw e (omega arith)
]
kept_tz-IsZone (negsuc n) = elim (Bool-cases (ltb n 48)) [
  | inl e ↦ rw e (ground (arith, e))
  | inr e ↦ rw e (omega arith)
]

-- A path that passes the scan, with a 0 at some place, has a text before its first 0.
text_before :
    (path : List ℕ) (k : ℕ)
    → clean path ≡ true
    → get_elem? path k ≡ some 0
    → (text : List ℕ) × (rest : List ℕ) × (path ≡ text ++ 0 ∷ rest)
      × All (λ c. (32 ≤ c) × (c ≤ 126)) text
unfolding clean
text_before [] k h z = absurd cc
text_before (c ∷ cs) zero h z =
    let ends : c ≡ 0 = ap (λ o. elim o [ none ↦ c | some x ↦ x ]) z in
    ([], cs, ap (λ x. x ∷ cs) ends, tt)
text_before (c ∷ cs) (suc k) h z = elim (Bool-cases (c == 0)) [
  | inl ends ↦ ([], cs, ap (λ x. x ∷ cs) (ground (arith, ends)), tt)
  | inr more ↦
      let later : clean cs ≡ true = ground (arith, h, more) in
      let rest = text_before cs k later z in
      (c ∷ rest.0, rest.1, ap (◌∷◌ c) rest.2, (ground (arith, h, more), rest.3))
]

emptied : (path : List ℕ) → 0 < length path → (rest : List ℕ) × (set path 0 0 ≡ 0 ∷ rest)
emptied [] h = absurd (omega (arith, h))
emptied (c ∷ cs) h = (cs, refl)

clean_path-IsPath : (path : List ℕ) → length path ≡ 64 → IsPath (clean_path path)
clean_path-IsPath path size =
    let ended = set path 63 0 in
    let same_size : length ended ≡ 64 = length-set path 63 0 ∙ size in
    elim (Bool-cases (clean ended)) [
      | inl good ↦
          let t = text_before ended 63 good (get_elem?-set_self path 63 0 (omega (arith, size))) in
          rw good (t.0, t.1, t.2, t.3, same_size)
      | inr bad ↦
          let t = emptied ended (omega (arith, same_size)) in
          rw bad ([], t.0, t.1, tt, length-set ended 0 0 ∙ same_size)
    ]

clean-set :
    (text rest : List ℕ) (k : ℕ)
    → All (λ c. (32 ≤ c) × (c ≤ 126)) text
    → clean (set (text ++ 0 ∷ rest) k 0) ≡ true
unfolding clean
clean-set [] rest zero a = refl
clean-set [] rest (suc k) a = refl
clean-set (c ∷ cs) rest zero a = refl
clean-set (c ∷ cs) rest (suc k) a = ground (arith, a.0, clean-set cs rest k a.1)

tz_decided : (z : ℤ) → IsZone z → is_zone z ≡ true
tz_decided (pos n) h = ground (arith, h)
tz_decided (negsuc n) h = ground (arith, h)

-- Settings that are in their ranges are left alone, but for the last byte of the path.
cfg_sanitize-keeps :
    (c : FCfg) → IsSane c → cfg_sanitize c ≡ record c { wp_path = set c.wp_path 63 0 }
unfolding cfg_sanitize
cfg_sanitize-keeps c v =
    let video : (ltb c.video 1 || ltb 4 c.video) ≡ false = ground (arith, v.1, v.2) in
    let net : ltb 1 c.net_mode ≡ false = ground (arith, v.3) in
    let mouse : (ltb c.mouse_speed 1 || ltb 4 c.mouse_speed) ≡ false = ground (arith, v.4, v.5) in
    let saver : ltb 1 c.ss_enable ≡ false = ground (arith, v.6) in
    let secs : (ltb c.ss_secs 5 || ltb 240 c.ss_secs) ≡ false = ground (arith, v.7, v.8) in
    let paper : ltb 2 c.wp_mode ≡ false = ground (arith, v.9) in
    let zone = tz_decided c.tz_qh v.10 in
    let path : clean (set c.wp_path 63 0) ≡ true =
      ap (λ p. clean (set p 63 0)) v.11.2 ∙ clean-set v.11.0 v.11.1 63 v.11.3 in
    rw (video, net, mouse, saver, secs, paper, zone, path) refl

loaded-IsSane :
    (was_blank : Bool) (c : FCfg) → length c.wp_path ≡ 64 → IsSane (config_load (was_blank, c)).1
unfolding config_load cfg_sanitize clean
loaded-IsSane was_blank c size = elim (Bool-cases (c.magic == cfg_magic)) [
  | inl e ↦ rw e (
    ground arith,
    within_low 1 4 1 c.video (omega arith),
    within_high 1 4 1 c.video (omega arith),
    at_most_high 1 0 c.net_mode (omega arith),
    within_low 1 4 2 c.mouse_speed (omega arith),
    within_high 1 4 2 c.mouse_speed (omega arith),
    at_most_high 1 1 c.ss_enable (omega arith),
    within_low 5 240 30 c.ss_secs (omega arith),
    within_high 5 240 30 c.ss_secs (omega arith),
    at_most_high 2 0 c.wp_mode (omega arith),
    kept_tz-IsZone c.tz_qh,
    clean_path-IsPath c.wp_path size,
  )
  | inr e ↦ rw e (
    refl,
    omega arith,
    omega arith,
    omega arith,
    omega arith,
    omega arith,
    omega arith,
    omega arith,
    omega arith,
    omega arith,
    omega arith,
    ([], replicate 63 0, refl, tt, refl),
  )
]

-- Whatever the settings sector holds, with its 64 bytes for the path, after `config_load` every
-- setting is in its range, the path is a text of printable bytes with a 0 behind it, and the sector
-- has its mark. Settings for which this held before are as they were, but for the last byte of the
-- path, which is 0.
pub config_load-IsSane :
    (was_blank : Bool) (c : FCfg)
    → length c.wp_path ≡ 64
    → IsSane (config_load (was_blank, c)).1
      × (IsSane c → (config_load (was_blank, c)).1 ≡ record c { wp_path = set c.wp_path 63 0 })
unfolding config_load
config_load-IsSane was_blank c size = (
  loaded-IsSane was_blank c size,
  λ v.
      let marked : (c.magic == cfg_magic) ≡ true = ground (arith, v.0) in
      rw marked (cfg_sanitize-keeps c v),
)
