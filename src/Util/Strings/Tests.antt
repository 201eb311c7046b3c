-- ===== src/Util/Strings/Tests.antt =====
-- "ab" found in "xaab", and strings compared.
use flopnix.Base.{ℕ, List, [], ◌∷◌}
use flopnix.Util.Strings.{strstr}
use flopnix.Util.Strings.Laws.{FirstIn, strstr-FirstIn}

abbrev hay : List ℕ
hay = b'x' ∷ b'a' ∷ b'a' ∷ b'b' ∷ []

abbrev needle : List ℕ
needle = b'a' ∷ b'b' ∷ []

strstr-FirstIn_example : FirstIn hay needle (strstr hay needle)
strstr-FirstIn_example = strstr-FirstIn hay needle
