-- ===== src/Config/Tests.antt =====
-- Runs of the settings.
use flopnix.Base.{◌≡◌, refl, Bool, true, false, ◌&&◌, if◌then◌else◌, some, [], ◌∷◌}
use flopnix.Util.Strings.{same}
use flopnix.Config.{Pref, PrefStore, pref_magic, config_get, config_set}
use flopnix.Config.Laws.{config_set-config_get}

abbrev settings : PrefStore
settings = record {
  magic = pref_magic;
  items =
      record { key = 97 ∷ []; value = 1 }
      ∷ record { key = 98 ∷ []; value = 2 }
      ∷ record { key = []; value = 0 }
      ∷ [];
}

abbrev saved : PrefStore → Bool
saved s = true

abbrev refused : PrefStore → Bool
refused s = false

set_new : config_get (99 ∷ []) (config_set saved (99 ∷ []) 7 settings).1 ≡ some 7
unfolding config_get config_set flopnix.Config.printable flopnix.Config.pref_slot same
set_new = refl

set_refused : config_get (98 ∷ []) (config_set refused (98 ∷ []) 7 settings).1 ≡ some 2
unfolding config_get config_set flopnix.Config.printable flopnix.Config.pref_slot same
set_refused = refl

config_set-config_get_example : config_get (98 ∷ []) (config_set saved (98 ∷ []) 7 settings).1 ≡ (
    if (config_set saved (98 ∷ []) 7 settings).0 && same (98 ∷ []) (98 ∷ [])
    then some 7
    else config_get (98 ∷ []) settings)
config_set-config_get_example = config_set-config_get saved (98 ∷ []) 7 settings (98 ∷ [])
