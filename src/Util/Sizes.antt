-- ===== src/Util/Sizes.antt =====
-- `one_dp`, `human_size` and `human_size_kb` of src/util.c: sizes in the unit that fits. Products
-- wrap around at 32 bits as in the code.
pub mod Laws
mod Tests
use flopnix.Base.{ℕ, ◌+◌, ◌*◌, ◌/◌, ◌%◌, ◌^◌, Option, some, List, [], ◌∷◌, ltb, leb, if◌then◌else◌}
use flopnix.Util.Format.{Arg, str, num, kfmt}

-- The number that `one_dp` prints, and its tenths.
unfoldable pub tenths_of : ℕ → ℕ → ℕ → ℕ × ℕ
tenths_of whole_part rem div =
    let tenths = (rem * 10 + div / 2) % 2 ^ 32 / div in
    if leb 10 tenths then (whole_part + 1, 0) else (whole_part, tenths)

-- `one_dp`, with "%u.%u %s".
one_dp : ℕ → ℕ → ℕ → List ℕ → ℕ → Option (List ℕ)
unfolding tenths_of
one_dp whole_part rem div unit cap =
    let t = tenths_of whole_part rem div in
    kfmt cap (b'%' ∷ b'u' ∷ b'.' ∷ b'%' ∷ b'u' ∷ b' ' ∷ b'%' ∷ b's' ∷ [])
      (num t.0 ∷ num t.1 ∷ str (some unit) ∷ [])

abbrev kilo : List ℕ
kilo = b'K' ∷ b'B' ∷ []

abbrev mega : List ℕ
mega = b'M' ∷ b'B' ∷ []

abbrev giga : List ℕ
giga = b'G' ∷ b'B' ∷ []

-- `human_size` into `cap` bytes.
pub human_size : ℕ → ℕ → Option (List ℕ)
unfolding one_dp
human_size bytes cap =
    if ltb bytes 1024
    then kfmt cap (b'%' ∷ b'u' ∷ b' ' ∷ b'B' ∷ []) (num bytes ∷ [])
    else if ltb bytes (1024 * 1024)
    then (if ltb bytes (10 * 1024)
        then one_dp (bytes / 1024) (bytes % 1024) 1024 kilo cap
        else kfmt cap (b'%' ∷ b'u' ∷ b' ' ∷ b'K' ∷ b'B' ∷ []) (num ((bytes + 512) / 1024) ∷ []))
    else if ltb bytes (1024 * 1024 * 1024)
    then one_dp (bytes / (1024 * 1024)) (bytes % (1024 * 1024)) (1024 * 1024) mega cap
    else one_dp (bytes / (1024 * 1024 * 1024)) (bytes % (1024 * 1024 * 1024)) (1024 * 1024 * 1024)
        giga cap

-- `human_size_kb`.
pub human_size_kb : ℕ → ℕ → Option (List ℕ)
unfolding one_dp
human_size_kb kb cap =
    if ltb kb 1024
    then kfmt cap (b'%' ∷ b'u' ∷ b' ' ∷ b'K' ∷ b'B' ∷ []) (num kb ∷ [])
    else if ltb kb (1024 * 1024)
    then one_dp (kb / 1024) (kb % 1024) 1024 mega cap
    else one_dp (kb / (1024 * 1024)) (kb % (1024 * 1024)) (1024 * 1024) giga cap
