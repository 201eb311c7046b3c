-- ===== src/Util/Sizes/Tests.antt =====
-- A size in kilobytes, and one of 1.5 GB, where `rem * 10` has wrapped around.
use flopnix.Base.{◌^◌, ◌≡◌, refl}
use flopnix.Util.Sizes.{tenths_of}

wrapped : ((tenths_of 1 (2 ^ 29) (2 ^ 30)).0 ≡ 1) × ((tenths_of 1 (2 ^ 29) (2 ^ 30)).1 ≡ 1)
unfolding tenths_of
wrapped = (refl, refl)
