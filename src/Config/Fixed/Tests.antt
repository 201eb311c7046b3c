-- ===== src/Config/Fixed/Tests.antt =====
-- Runs of `config_load`.
use flopnix.Base.{◌≡◌, refl, true, false, ◌∷◌, replicate, set}
use flopnix.Base.Int.{pos, negsuc}
use flopnix.Config.Fixed.{FCfg, config_load}
use flopnix.Config.Fixed.Laws.{IsSane, config_load-IsSane}

-- A sector with the mark, a video mode, a delay and a time zone out of range, and a path of a
-- letter and a control byte.
abbrev damaged : FCfg
damaged = record {
  magic = 0x47464346;
  video = 9;
  net_mode = 1;
  mouse_speed = 4;
  ss_enable = 0;
  ip = 1;
  mask = 2;
  gw = 3;
  ss_secs = 4;
  wp_mode = 2;
  wp_unused = 0;
  wp_path = 97 ∷ 7 ∷ replicate 62 0;
  wp_col = replicate 3 0;
  wp_ga = replicate 3 0;
  wp_gb = replicate 3 0;
  tz_qh = negsuc 48;
  reserved = replicate 414 0;
}

repaired :
    (config_load (false, damaged)).1
    ≡ record damaged { video = 1; ss_secs = 30; wp_path = 0 ∷ 7 ∷ replicate 62 0; tz_qh = pos 0 }
unfolding config_load flopnix.Config.Fixed.clean
repaired = refl

config_load-IsSane_example :
    IsSane (config_load (true, damaged)).1
    × (IsSane damaged
        → (config_load (true, damaged)).1 ≡ record damaged { wp_path = set damaged.wp_path 63 0 })
config_load-IsSane_example = config_load-IsSane true damaged refl
