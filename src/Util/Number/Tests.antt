-- ===== src/Util/Number/Tests.antt =====
-- Printing and reading -120, and the theorems there.
use flopnix.Base.{◌≡◌, refl, true, [], ◌∷◌, arith}
use flopnix.Base.Int.{negsuc}
use flopnix.Util.Number.{numstr, atoi}
use flopnix.Util.Number.Laws.{atoi-numstr}

prints : numstr 120 10 true ≡ b'-' ∷ b'1' ∷ b'2' ∷ b'0' ∷ []
unfolding numstr
prints = refl

-- 3000000000 does not fit.
reads_wrapped :
    atoi (b'3' ∷ b'0' ∷ b'0' ∷ b'0' ∷ b'0' ∷ b'0' ∷ b'0' ∷ b'0' ∷ b'0' ∷ b'0' ∷ [])
    ≡ negsuc 1294967295
unfolding atoi
reads_wrapped = refl

atoi-numstr_example : atoi (numstr 120 10 true) ≡ negsuc 119
atoi-numstr_example = atoi-numstr 120 true (omega arith)
