-- ===== src/Fs/Bad/Tests.antt =====
-- Runs of src/fsbad.inc, and its theorems at concrete lists.
use flopnix.Base.{ℕ, ◌≡◌, refl, true, none, some, List, [], ◌∷◌, arith}
use flopnix.Fs.Bad.{Sector, parse, store, clash, listed, added, add, del, header, store_loop}
use flopnix.Fs.Bad.Stored.{parse-store}

abbrev marked : List ℕ
marked = 310 ∷ 400 ∷ 401 ∷ []

abbrev blank : Sector
blank j = 0

runs :
    (add marked 350 ≡ (added, 310 ∷ 350 ∷ 400 ∷ 401 ∷ []))
    × (add marked 400 ≡ (listed, marked))
    × (del marked 400 ≡ (true, 310 ∷ 401 ∷ []))
    × (clash marked 390 20 ≡ some 400)
    × (clash marked 402 20 ≡ none)
unfolding add del clash
runs = (refl, refl, refl, refl, refl)

blank_list : parse blank 299 2880 ≡ []
unfolding parse
blank_list = refl

parse_stored : parse (store blank marked) 299 2880 ≡ marked
unfolding parse store header store_loop
parse_stored = refl

parse-store_example : parse (store blank marked) 299 2880 ≡ marked
parse-store_example =
    (parse-store blank 299 2880 marked (omega arith) (omega arith) (omega arith)).0
