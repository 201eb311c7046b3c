-- ===== src/Config/Fixed.antt =====
-- The fixed settings: loading them, src/config.c, and the values that stand for invalid ones,
-- src/cfgsan.inc. A path is the list of its 64 bytes.
pub mod Laws
mod Tests
use flopnix.Base.{
  ℕ, zero, suc, ◌≤◌, ◌≡◌, refl, Bool, true, false, ◌&&◌, ◌||◌, not, List, [], ◌∷◌, inl, inr, ltb,
  leb, ◌==◌, if◌then◌else◌, arith, Bool-cases, set, replicate, ◌++◌, ◌+◌, All, length, get_elem?,
  get_elem?-set_self, length-set, Option, some, none, ap, ◌∙◌, ◌<◌,
}
use flopnix.Base.Int.{ℤ, pos, negsuc}

-- FCfg.
pub record FCfg : Type 0 where
  pub magic : ℕ
  pub video : ℕ
  pub net_mode : ℕ
  pub mouse_speed : ℕ
  pub ss_enable : ℕ
  pub ip : ℕ
  pub mask : ℕ
  pub gw : ℕ
  pub ss_secs : ℕ
  pub wp_mode : ℕ
  pub wp_unused : ℕ
  pub wp_path : List ℕ
  pub wp_col : List ℕ
  pub wp_ga : List ℕ
  pub wp_gb : List ℕ
  pub tz_qh : ℤ
  pub reserved : List ℕ

-- CFG_MAGIC.
abbrev cfg_magic : ℕ
cfg_magic = 0x47464346

-- A value with both bounds, and the value that stands for an invalid one.
abbrev within : ℕ → ℕ → ℕ → ℕ → ℕ
within low high default v = if ltb v low || ltb high v then default else v

-- A value with a bound above.
abbrev at_most : ℕ → ℕ → ℕ → ℕ
at_most high default v = if ltb high v then default else v

-- A time zone, in quarters of an hour, from -48 to 56.
abbrev is_zone : ℤ → Bool
is_zone (pos n) = leb n 56
is_zone (negsuc n) = ltb n 48

-- The scan of the path, up to its 0.
unfoldable pub clean : List ℕ → Bool
clean [] = true
clean (c ∷ cs) = (c == 0) || not (ltb c 32 || ltb 126 c) && clean cs

-- The path with its last byte reset, or an empty one.
abbrev clean_path : List ℕ → List ℕ
clean_path path = let ended = set path 63 0 in if clean ended then ended else set ended 0 0

pub cfg_sanitize : FCfg → FCfg
cfg_sanitize c = record c {
  video = within 1 4 1 c.video;
  net_mode = at_most 1 0 c.net_mode;
  mouse_speed = within 1 4 2 c.mouse_speed;
  ss_enable = at_most 1 1 c.ss_enable;
  ss_secs = within 5 240 30 c.ss_secs;
  wp_mode = at_most 2 0 c.wp_mode;
  tz_qh = if is_zone c.tz_qh then c.tz_qh else pos 0;
  wp_path = clean_path c.wp_path;
}

-- The settings of a blank sector.
abbrev blank_settings : FCfg
blank_settings = record {
  magic = cfg_magic;
  video = 1;
  net_mode = 0;
  mouse_speed = 2;
  ss_enable = 1;
  ip = 0;
  mask = 0;
  gw = 0;
  ss_secs = 30;
  wp_mode = 0;
  wp_unused = 0;
  wp_path = replicate 64 0;
  wp_col = replicate 3 0;
  wp_ga = replicate 3 0;
  wp_gb = replicate 3 0;
  tz_qh = pos 0;
  reserved = replicate 414 0;
}

-- `config_load`, on `cfg_was_blank` and the settings.
pub config_load : Bool × FCfg → Bool × FCfg
unfolding cfg_sanitize
config_load (was_blank, c) =
    if not (c.magic == cfg_magic) then (true, blank_settings) else (was_blank, cfg_sanitize c)
